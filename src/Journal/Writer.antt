-- ===== src/Journal/Writer.antt =====
-- journal/writer.go: Writer, which queues events, writes them to one file a day and prunes old files.
use slimproxy.Base.{
  ℕ, suc, ◌-◌, Bool, true, false, not, Option, none, some, List, [], ◌∷◌, ◌++◌, ltb, ◌==◌,
  if◌then◌else◌, length, keep,
}
use slimproxy.Journal.Event.{Event}

-- queueSize.
abbrev pub queue_size : ℕ
queue_size = 4096

-- Writer. `file` is the day of the file that is open, none for nil; `last_err` says that an error is
-- on record. `disk` holds the lines of the directory's files, in the order in which they were written,
-- each with the day of its file. A write that fails is taken to leave nothing behind.
pub record Writer : Type 0 where
  pub retention : ℕ
  pub events : List Event
  pub file : Option ℕ
  pub dropped : ℕ
  pub written : ℕ
  pub last_err : Bool
  pub disk : List (ℕ × Event)

-- The writer that Open returns, for a retention in nanoseconds, over a directory with some lines.
abbrev pub open_dir : ℕ → List (ℕ × Event) → Writer
open_dir retention disk = record {
  retention = retention;
  events = [];
  file = none;
  dropped = 0;
  written = 0;
  last_err = false;
  disk = disk;
}

-- The event that Append queues.
abbrev pub dated : Event → ℕ → Event
dated e now = if e.at == 0 then record e { at = now } else e

-- The select of Append.
unfoldable pub enqueue : Writer → Event → Writer
enqueue w e =
    if ltb (length w.events) queue_size
    then record w { events = w.events ++ e ∷ [] }
    else record w { dropped = suc w.dropped }

-- Append, at time `now`; the writer is not closed.
unfoldable pub append : Writer → Event → ℕ → Writer
unfolding enqueue
append w e now = enqueue w (dated e now)

-- Which of the calls on the way to the disk succeed: json.Marshal, os.OpenFile and Write.
pub record Luck : Type 0 where
  pub marshals : Bool
  pub opens : Bool
  pub writes : Bool

abbrev pub is_open : Option ℕ → ℕ → Bool
is_open none day = false
is_open (some d) day = d == day

-- The line goes to the file that is open.
abbrev pub line_in : Option ℕ → Event → List (ℕ × Event)
line_in none e = []
line_in (some d) e = (d, e) ∷ []

unfoldable pub write_line : Writer → Event → Luck → Writer
write_line w e l =
    if not l.writes
    then record w { last_err = true }
    else record w { written = suc w.written; disk = w.disk ++ line_in w.file e }

-- `day_of` is the local day of a time, which names the file.
module _ (day_of : ℕ → ℕ) where
  -- write.
  unfoldable pub write : Writer → Event → Luck → Writer
  unfolding write_line
  write w e l =
      if not l.marshals
      then record w { last_err = true }
      else if is_open w.file (day_of e.at)
      then write_line w e l
      else if not l.opens
      then record w { last_err = true; file = none }
      else write_line (record w { file = some (day_of e.at) }) e l

  unfoldable pub take_from : Writer → List Event → Luck → Writer
  unfolding write
  take_from w [] l = w
  take_from w (e ∷ es) l = write (record w { events = es }) e l

  -- The case of run's select that takes an event, if there is one.
  unfoldable pub take_event : Writer → Luck → Writer
  unfolding take_from
  take_event w l = take_from w w.events l

-- prune, where the directory can be listed and the files removed; `day_end` is the midnight at which
-- a day ends.
unfoldable pub prune : (ℕ → ℕ) → Writer → ℕ → Writer
prune day_end w now = record w {
  disk = keep (λ line. not (ltb (day_end line.0) (now - w.retention))) w.disk;
}

-- What happens to a writer: an event is appended, run takes one, or it prunes.
pub data Op : Type 0 where
  appends : Event → ℕ → Op
  takes : Luck → Op
  prunes : ℕ → Op
