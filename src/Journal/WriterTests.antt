-- ===== src/Journal/WriterTests.antt =====
-- The theorems on Writer of journal/writer.go at concrete days of ten nanoseconds.
use slimproxy.Base.{
  ℕ, suc, ◌+◌, ◌*◌, ◌/◌, ◌≡◌, ◌<◌, refl, true, false, Among, ◌++◌, List, [], ◌∷◌, length, arith,
  false, true,
}
use slimproxy.Journal.Event.{Event, bare, on_request, on_tunnel}
use slimproxy.Journal.Writer.{Writer, open_dir, Luck, Op, appends, takes, prunes}
use slimproxy.Journal.Query.{Query}
use slimproxy.Journal.Filed.{run, IsFiled, writer_files}
use slimproxy.Journal.Traced.{writer_accounts, Sub, Spared, handed, filed}

abbrev day_of : ℕ → ℕ
day_of t = t / 10

abbrev day_end : ℕ → ℕ
day_end d = suc d * 10

ends_after : (t : ℕ) → t < day_end (day_of t)
ends_after t = omega arith

abbrev lucky : Luck
lucky = record { marshals = true; opens = true; writes = true }

abbrev unlucky : Luck
unlucky = record { marshals = true; opens = false; writes = true }

-- Two events of two days, one of which is lost to a directory that cannot be written.
abbrev two_events : List Op
two_events =
    appends (bare 5 on_request) 7 ∷ appends (bare 0 on_tunnel) 27 ∷ takes unlucky ∷ takes lucky ∷ []

writer_files_example : IsFiled day_of (run day_of day_end (open_dir 50 []) two_events).disk
writer_files_example = (writer_files day_of day_end 50 [] two_events tt).0

abbrev good_day : List Op
good_day =
    appends (bare 5 on_request) 7 ∷ appends (bare 0 on_tunnel) 27 ∷ takes lucky ∷ prunes 30 ∷ []

writer_accounts_example :
    let w = run day_of day_end (open_dir 50 []) good_day in
    (w.written + length w.events + w.dropped ≡ 2)
    × ((es : List Event) × (w.written ≡ length es)
        × Sub (es ++ w.events) (handed good_day)
        × Spared day_end 50 (λ now. Among (prunes now) good_day) (filed day_of es) w.disk)
writer_accounts_example =
    writer_accounts day_of day_end 50 [] good_day (tt, (tt, ((refl, refl, refl), (tt, tt))))

abbrev two_files : Writer
two_files = open_dir 20 ((0, bare 5 on_request) ∷ (3, bare 31 on_request) ∷ [])

abbrev day_start : ℕ → ℕ
day_start d = d * 10

abbrev all_events : Query
all_events = record {
  since = 0;
  until = 0;
  status = 0;
  min_latency = 0;
  route = [];
  model = [];
  failed_only = false;
  include_noise = true;
  limit = 0;
}
