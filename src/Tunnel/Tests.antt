-- ===== src/Tunnel/Tests.antt =====
-- The theorems of tunnel/ at concrete records, logs and answers of the system.
use slimproxy.Tunnel.Local.{local_status}
use slimproxy.Tunnel.World.{ask, remove_record}
use slimproxy.Tunnel.Stop.{confirm_gone}
use slimproxy.Envelope.Writer.{itoa}
use slimproxy.Tunnel.Process.{binary_matches, expected_image_name, split_csv_line}
use slimproxy.Text.{contains, has_prefix, text_eq, trim_space}
use slimproxy.Text.Split.{split, split_skipping, trim_by, trim_right_by}
use slimproxy.Base.{
  pos, ◌≡◌, ◌≢◌, refl, ℕ, ◌⊎◌, true, false, List, [], ◌∷◌, Option, none, some, ltb, leb, ◌&&◌, ◌+◌,
  if◌then◌else◌,
}
use slimproxy.Text.{Text, codes}
use slimproxy.Tunnel.Process.{
  Record, missing, holds, found, read_record, Lookup, absent, present, parse_tasklist_row,
  verify_record,
}
use slimproxy.Tunnel.World.{World, Config, config, Os, identity_of, is_over}
use slimproxy.Tunnel.Local.{blank}
use slimproxy.Tunnel.Stop.{unfinished, kill_and_confirm, done, down}
use slimproxy.Tunnel.Start.{up, still_waiting, confirm_started, start_detached}
use slimproxy.Tunnel.Log.{log_contains}
use slimproxy.Tunnel.Kills.{killed, IsOurs, KillsOnly, down-killed}
use slimproxy.Tunnel.Settled.{Gone, Kept}
use slimproxy.Tunnel.Downs.{down-Kept}
use slimproxy.Tunnel.Launches.{polls_end}
use slimproxy.Tunnel.Outcomes.{Up, start_detached-Up}
use slimproxy.Tunnel.Ingress.{Doc}
use slimproxy.Tunnel.Startup.{classify_startup_log}
use slimproxy.Tunnel.Causes.{cause, deserved_cause, classify_startup_log-cause}
use slimproxy.Tunnel.Fields.{log_field}
use slimproxy.Tunnel.LogLines.{
  Item, word, bare, prose, show_line, value_of, is_key, are_items, log_field_lem,
}
use slimproxy.Tunnel.Edges.{Entry}

-- A tunnel of ours with PID 42, which is over from the eighth moment on.
abbrev ours : Record
ours = record {
  pid = pos 42;
  started = 0;
  tunnel = codes "home";
  binary = codes "cloudflared";
  log_path = codes "cf.log";
}

abbrev home : Config
home = record {
  tunnel = codes "home";
  hostnames = codes "a.example" ∷ [];
  path = codes "config.yml";
}

abbrev answer : ℕ → Lookup
answer n = if ltb n 8 then present (record { name = codes "cloudflared"; created = 0 }) else absent

-- Folding as it is for letters of ASCII.
abbrev ascii_fold : ℕ → ℕ
ascii_fold c = if leb b'A' c && leb c b'Z' then c + 32 else c

abbrev machine : Os
machine = record {
  windows = false;
  simple_fold = ascii_fold;
  query = λ n pid. answer n;
  removed = λ n. true;
  finds_process = λ n pid. true;
  signals = λ n pid. true;
  read_config = λ n. config home;
  connectivity = λ n id. none;
  cancelled = λ n. false;
  delay = λ n. 0;
  read_log = λ n path. some (codes "INF Registered tunnel connection connIndex=0\n");
  claim_made = λ n. true;
  opens_log = λ n. some (codes "cf.log");
  starts = λ n id. some (pos 42);
  now = λ n. 0;
  record_written = λ n. true;
}

abbrev recorded : World
recorded = record { file = holds ours; moment = 0; acts = [] }

abbrev fresh : World
fresh = record { file = missing; moment = 0; acts = [] }

tasklist_read :
    parse_tasklist_row
      (codes "INFO: none\n\"cloudflared.exe\",\"42\",\"Console\",\"1\",\"9 K\"\n")
      42
    ≡ some (codes "cloudflared.exe")
unfolding parse_tasklist_row split has_prefix trim_space split_csv_line split_skipping text_eq
    trim_by itoa
tasklist_read = refl

-- Down kills the tunnel twice over and then sees it gone, and a launch from nothing succeeds.
kills_and_ends :
    ((down machine recorded).0 ≡ done)
    × (killed (down machine recorded).2.acts ≡ pos 42 ∷ pos 42 ∷ [])
unfolding down read_record identity_of verify_record binary_matches text_eq expected_image_name
    trim_right_by kill_and_confirm confirm_gone is_over ask local_status remove_record
kills_and_ends = (refl, refl)

launches : (start_detached machine blank (codes "cloudflared") fresh).0 ≡ up
unfolding start_detached confirm_started is_over identity_of verify_record binary_matches text_eq
    expected_image_name trim_right_by log_contains split contains
launches = refl

-- A launch whose record cannot be written.
abbrev full_disk : Os
full_disk = record machine { record_written = λ n. false }

-- Its child is sent a kill, and the record is removed.
withdraws_child :
    ((start_detached full_disk blank (codes "cloudflared") fresh).2.file ≡ missing)
    × (killed (start_detached full_disk blank (codes "cloudflared") fresh).2.acts ≡ pos 42 ∷ [])
unfolding start_detached kill_and_confirm remove_record confirm_gone ask is_over identity_of
    verify_record binary_matches text_eq expected_image_name trim_right_by
withdraws_child = (refl, refl)

polls_end_example :
    ((kill_and_confirm machine ours recorded).0 ≢ unfinished)
    × ((confirm_started machine ours recorded).0 ≢ still_waiting)
polls_end_example = polls_end machine ours recorded

down-killed_example :
    (killed (down machine recorded).2.acts ≡ [])
    ⊎ ((rec : Record) × (read_record (holds ours) ≡ found rec)
        × IsOurs machine rec (answer 0)
        × KillsOnly machine rec.pid [] (killed (down machine recorded).2.acts))
down-killed_example = down-killed machine recorded

down-Kept_example :
    (((down machine recorded).0 ≢ done)
      ⊎ ((rec : Record) × (read_record (holds ours) ≡ found rec)
          × Gone rec [] (down machine recorded).2))
    × Kept [] (holds ours) (down machine recorded).2
down-Kept_example = down-Kept machine recorded

start_detached-Up_example :
    ((start_detached machine blank (codes "cloudflared") fresh).0 ≢ up)
    ⊎ ((missing ≡ missing)
        × Up machine blank
            (codes "cloudflared")
            []
            (start_detached machine blank (codes "cloudflared") fresh))
start_detached-Up_example = start_detached-Up machine blank (codes "cloudflared") fresh

abbrev doc : Doc
doc = record {
  tunnel = codes "home";
  ingress =
      record { hostname = codes "a.example"; service = codes "http://localhost:8317" }
      ∷ record { hostname = codes "b.example"; service = codes "ssh" }
      ∷ [];
}

abbrev no_address : Text → Option (ℕ × ℕ × ℕ × ℕ)
no_address _ = none

abbrev dials : Text
dials = codes "ERR Failed to dial error=\"timeout\""

classify_startup_log-cause_example :
    cause (classify_startup_log no_address dials true) ≡ deserved_cause no_address dials true
classify_startup_log-cause_example = classify_startup_log-cause no_address dials true

abbrev parts : List Item
parts =
    word (codes "ERR")
    ∷ prose (codes "error") (codes "no ip=1")
    ∷ bare (codes "ip") (codes "2")
    ∷ []

log_field_lem_example : log_field (show_line parts) (codes "ip") ≡ value_of (codes "ip") parts
unfolding is_key are_items
log_field_lem_example = log_field_lem (codes "ip") parts refl refl

abbrev sin : Entry
sin = record { many = codes "2"; colo = codes "sin09" }
