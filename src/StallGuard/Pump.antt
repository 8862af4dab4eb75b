-- ===== src/StallGuard/Pump.antt =====
-- proxy/stallguard.go: ExecuteStream's goroutine `pump`, as a function of what its selects took.
use slimproxy.Base.{Bool, true, false, not, ◌&&◌, ◌||◌, List, [], ◌∷◌, if◌then◌else◌}
use slimproxy.Text.{Text}
use slimproxy.StallGuard.Ledger.{Gjson, scan_ledger_signals}

-- cliproxyexecutor.StreamChunk: its payload, and whether it carries an error.
pub record Chunk : Type 0 where
  pub payload : Text
  pub has_err : Bool

-- What a select of the loop took. A chunk is received, and then forwarded or dropped because the
-- request ended first; the upstream channel closes, with the request's context ended or not; the idle
-- timer fires, and its error is delivered or not; or the request ends.
pub data Wake : Type 0 where
  receives : Chunk → Bool → Wake
  shuts : Bool → Wake
  idles : Bool → Wake
  hangs_up : Wake

-- What the client's channel is sent: a chunk of the upstream's, or errStreamStalled.
pub data Sent : Type 0 where
  passed : Chunk → Sent
  stall_error : Sent

-- The calls of stallGuardNotes.
pub data Note : Type 0 where
  stalled : Note
  no_tail : Note
  client_drop : Bool → Note

-- Which of the three callbacks are set.
pub record Wants : Type 0 where
  pub wants_stalled : Bool
  pub wants_no_tail : Bool
  pub wants_client_drop : Bool

-- What pump has done: the chunks and notes, whether it returned, and whether it called
-- cancelUpstream, which it does on every return.
pub record Outcome : Type 0 where
  pub sent : List Sent
  pub notes : List Note
  pub returned : Bool

abbrev when : Bool → Note → List Note
when b n = if b then n ∷ [] else []

-- The return with some last words.
abbrev returns : List Sent → List Note → Outcome
returns out notes = record { sent = out; notes = notes; returned = true }

abbrev pub prepend : Sent → Outcome → Outcome
prepend c o = record o { sent = c ∷ o.sent }

-- The notes of a closed channel.
closing_notes : Wants → Bool → Bool → Bool → List Note
closing_notes wants armed accounted gone =
    if not armed
    then []
    else if gone
    then when wants.wants_client_drop (client_drop accounted)
    else when (not accounted && wants.wants_no_tail) no_tail

drop_notes : Wants → Bool → Bool → List Note
drop_notes wants armed accounted = when (armed && wants.wants_client_drop) (client_drop accounted)

module _ (g : Gjson) (wants : Wants) where
  -- The ledger after a chunk: it is scanned unless both flags are up already.
  unfoldable pub armed_after : Bool → Bool → Chunk → Bool
  armed_after armed accounted c =
      if not armed || not accounted then armed || (scan_ledger_signals g c.payload).opens else armed

  unfoldable pub accounted_after : Bool → Bool → Chunk → Bool
  accounted_after armed accounted c =
      if not armed || not accounted
      then accounted || (scan_ledger_signals g c.payload).settles || c.has_err
      else accounted

  -- The loop of pump.
  unfoldable pub pump : Bool → Bool → List Wake → Outcome
  unfolding armed_after accounted_after closing_notes drop_notes
  pump armed accounted [] = record { sent = []; notes = []; returned = false }
  pump armed accounted (receives c delivered ∷ wakes) =
      let rest = pump (armed_after armed accounted c) (accounted_after armed accounted c) wakes in
      if delivered
      then prepend (passed c) rest
      else returns []
          (drop_notes wants (armed_after armed accounted c) (accounted_after armed accounted c))
  pump armed accounted (shuts gone ∷ wakes) = returns [] (closing_notes wants armed accounted gone)
  pump armed accounted (idles delivered ∷ wakes) =
      returns (if delivered then stall_error ∷ [] else []) (when wants.wants_stalled stalled)
  pump armed accounted (hangs_up ∷ wakes) = returns [] (drop_notes wants armed accounted)
