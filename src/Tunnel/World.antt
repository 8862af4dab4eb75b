-- ===== src/Tunnel/World.antt =====
-- What the Manager of tunnel/manager.go works on: the record file, what it asks of the operating
-- system, and what it does to it.
use slimproxy.Base.{ℤ, ℕ, suc, Bool, true, false, Option, List, ◌∷◌, if◌then◌else◌}
use slimproxy.Text.{Text}
use slimproxy.Tunnel.Process.{
  Record, RecordFile, missing, Identity, gone, mismatch, Lookup, verify_record,
}

-- What a Manager does, and the answers it does it on: it asks the system what runs under a record's PID,
-- sends a kill, claims, spawns and writes, and calls os.Remove on the record, which worked or did not.
pub data Act : Type 0 where
  asked : Record → Identity → Act
  kills : ℤ → Act
  claims : Act
  removes : Bool → Act
  spawns : ℤ → Act
  writes : Record → Act

-- The record file, the moment, and what was done so far, the last of it first.
pub record World : Type 0 where
  pub file : RecordFile
  pub moment : ℕ
  pub acts : List Act

-- Config.
pub record Config : Type 0 where
  pub tunnel : Text
  pub hostnames : List Text
  pub path : Text

-- What ReadConfig returns: no configuration, one that could not be understood, or one.
pub data ConfigRead : Type 0 where
  not_found ill_formed : ConfigRead
  config : Config → ConfigRead

-- Connectivity: what `cloudflared tunnel info` reports.
pub record Connectivity : Type 0 where
  pub count : ℕ
  pub is_parsed : Bool
  pub idle : Bool
  pub fake_ip : Text

-- How runes are folded, and what the system answers at each moment: to a query for a PID, to os.Remove, to FindProcess, to
-- Kill, of the configuration, of the tunnel's connections, whether the context is done, how long a
-- round of a loop took beyond its wait, and what a log holds past where it ended when this launch
-- opened it, none where it cannot be read. For a launch: the path
-- of the log if openLog succeeds, the PID if Start does, the time, and whether the record is written.
pub record Os : Type 0 where
  pub windows : Bool
  pub simple_fold : ℕ → ℕ
  pub query : ℕ → ℤ → Lookup
  pub removed : ℕ → Bool
  pub finds_process : ℕ → ℤ → Bool
  pub signals : ℕ → ℤ → Bool
  pub read_config : ℕ → ConfigRead
  pub connectivity : ℕ → Text → Option Connectivity
  pub cancelled : ℕ → Bool
  pub delay : ℕ → ℕ
  pub read_log : ℕ → Text → Option Text
  pub claim_made : ℕ → Bool
  pub opens_log : ℕ → Option Text
  pub starts : ℕ → Text → Option ℤ
  pub now : ℕ → ℕ
  pub record_written : ℕ → Bool

-- Something was done, and time went on.
abbrev pub does : Act → World → World
does a w = record w { moment = suc w.moment; acts = a ∷ w.acts }

module _ (os : Os) where
  -- Manager.identityOf.
  unfoldable pub identity_of : Record → World → Identity
  identity_of rec w = verify_record os.windows os.simple_fold rec (os.query w.moment rec.pid)

  unfoldable pub ask : Record → World → World
  unfolding identity_of
  ask rec w = does (asked rec (identity_of rec w)) w

  -- removeRecord: an error of os.Remove is ignored.
  unfoldable pub remove_record : World → World
  remove_record w = record w {
    file = if os.removed w.moment then missing else w.file;
    moment = suc w.moment;
    acts = removes (os.removed w.moment) ∷ w.acts;
  }

-- The process that a record describes runs no more: its PID is free, or another's.
unfoldable pub is_over : Identity → Bool
is_over gone = true
is_over mismatch = true
is_over _ = false
