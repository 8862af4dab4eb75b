-- ===== src/Tunnel/Start.antt =====
-- tunnel/manager.go: Manager.Up, startDetached and confirmStarted, with claimRecord and writeRecordTo
-- of tunnel/process.go.
use slimproxy.Base.{
  ℤ, ℕ, zero, suc, ◌+◌, Bool, true, false, not, Option, none, some, leb, if◌then◌else◌,
}
use slimproxy.Text.{Text}
use slimproxy.Text.Split.{is_filled}
use slimproxy.Tunnel.Process.{Record, RecordFile, missing, garbled, holds, Identity, matches}
use slimproxy.Tunnel.World.{
  claims, spawns, writes, World, Os, identity_of, ask, does, remove_record, is_over,
}
use slimproxy.Tunnel.Log.{log_contains}
use slimproxy.Tunnel.Startup.{connected_marker}
use slimproxy.Tunnel.Local.{
  Status, not_configured, configured, running, state_unknown, extra_connector, starting_anyway,
  status,
}
use slimproxy.Tunnel.Stop.{Kill, kill_and_confirm}

-- How confirmStarted returns: nil, the error of the context, that the child exited, or that it did not
-- connect, with whether the last query saw it alive. `still_waiting` stands for a loop that goes on.
pub data Confirmation : Type 0 where
  connected cancelled_wait exited_early still_waiting : Confirmation
  timed_out : Bool → Confirmation

-- startupGrace, and the 300 ms between two looks at the log.
abbrev pub startup_grace : ℕ
startup_grace = 15000000000

abbrev pub startup_wait : ℕ
startup_wait = 300000000

abbrev pub startup_rounds : ℕ
startup_rounds = 51

unfoldable pub is_match : Identity → Bool
is_match matches = true
is_match _ = false

module _ (os : Os) where
  -- The loop of confirmStarted, some time after its start.
  unfoldable pub confirm_loop : ℕ → ℕ → Bool → Record → World → Confirmation × World
  unfolding is_match
  confirm_loop zero elapsed alive rec w = (still_waiting, w)
  confirm_loop (suc rounds) elapsed alive rec w =
      let id = identity_of os rec w in
      let asked = ask os rec w in
      let rest =
        confirm_loop rounds (elapsed + startup_wait + os.delay w.moment) (is_match id) rec asked in
      if leb startup_grace elapsed
      then (timed_out alive, w)
      else if os.cancelled w.moment
      then (cancelled_wait, w)
      else if is_over id
      then (exited_early, asked)
      else if log_contains (os.read_log w.moment rec.log_path) connected_marker
      then (connected, asked)
      else rest

  -- confirmStarted.
  unfoldable pub confirm_started : Record → World → Confirmation × World
  unfolding confirm_loop
  confirm_started rec w = confirm_loop startup_rounds 0 false rec w

-- What Up returns beside the status: nil, or which error.
pub data Started : Type 0 where
  up : Started
  unconfigured already_running no_tunnel_id no_binary : Started
  claimed_elsewhere no_claim no_log no_child : Started
  ran_in_foreground foreground_failed : Started
  unrecorded : Kill → Started
  unconnected : Confirmation → Kill → Started

unfoldable pub is_missing : RecordFile → Bool
is_missing missing = true
is_missing _ = false

module _ (os : Os) where
  -- The deferred call of a launch that failed after the claim.
  unfoldable pub gives_up : Started → Status → World → Started × Status × World
  gives_up result st w = (result, st, remove_record os w)

  -- The launch of a child that is recorded, on what confirmStarted returned.
  unfoldable pub on_confirmation : Status → Record → Confirmation × World → Started × Status × World
  unfolding gives_up
  on_confirmation st rec (connected, w) =
      (up, record st { state = running; pid = rec.pid; managed = true; log_path = rec.log_path }, w)
  on_confirmation st rec (result, w) =
      let killed = kill_and_confirm os rec w in gives_up (unconnected result killed.0) st killed.1

  -- The child runs: its record is written, or the child is killed.
  unfoldable pub record_child : Status → Record → World → Started × Status × World
  unfolding gives_up on_confirmation
  record_child st rec w =
      if os.record_written w.moment
      then on_confirmation st rec
          (confirm_started os rec (record (does (writes rec) w) { file = holds rec }))
      else let killed = kill_and_confirm os rec (record w { file = garbled }) in
        gives_up (unrecorded killed.0) st killed.1

  -- On the PID of the child, if Start did not fail.
  unfoldable pub on_start : Status → Text → Text → Option ℤ → World → Started × Status × World
  unfolding gives_up record_child
  on_start st bin log none w = gives_up no_child st w
  on_start st bin log (some pid) w =
      record_child st
        (record {
          pid = pid;
          started = os.now w.moment;
          tunnel = st.tunnel_id;
          binary = bin;
          log_path = log;
        })
        (does (spawns pid) w)

  -- On the path of the log, if openLog did not fail.
  unfoldable pub on_log : Status → Text → Option Text → World → Started × Status × World
  unfolding gives_up on_start
  on_log st bin none w = gives_up no_log st w
  on_log st bin (some log) w = on_start st bin log (os.starts w.moment st.tunnel_id) w

  -- claimRecord, on a file that is created only where none is, and the launch under the claim.
  unfoldable pub start_detached : Status → Text → World → Started × Status × World
  unfolding on_log is_missing
  start_detached st bin w =
      if not (is_missing w.file)
      then (claimed_elsewhere, st, w)
      else if not (os.claim_made w.moment)
      then (no_claim, st, w)
      else on_log st bin (os.opens_log (suc w.moment)) (record (does claims w) { file = garbled })

  -- What Up says of an instance that it goes on beside, or refuses to.
  unfoldable pub admit : Status → Status × Option Started
  admit st = elim st.state [
    | not_configured ↦ (st, some unconfigured)
    | configured ↦ (st, none)
    | running ↦
        if st.managed
        then (st, some already_running)
        else (record st { detail = extra_connector }, none)
    | state_unknown ↦ (record st { detail = starting_anyway }, none)
  ]

  -- Up after its Status: the guards, the binary that resolveBinary found, and the foreground run, of
  -- which the result is given.
  unfoldable pub launch :
      Bool → Option Text → Started → Status × Option Started → World → Started × Status × World
  launch detach bin foreground (st, some refusal) w = (refusal, st, w)
  launch detach bin foreground (st, none) w =
      if not (is_filled st.tunnel_id) then (no_tunnel_id, st, w) else elim bin [
        | none ↦ (no_binary, st, w)
        | some path ↦ if not detach then (foreground, st, w) else start_detached st path w
      ]

  -- Manager.Up.
  unfoldable pub up_tunnel : Bool → Option Text → Started → World → Started × Status × World
  unfolding admit launch
  up_tunnel detach bin foreground w =
      let after = status os w in launch detach bin foreground (admit after.0) after.1
