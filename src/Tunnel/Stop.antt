-- ===== src/Tunnel/Stop.antt =====
-- tunnel/manager.go: killAndConfirm and Manager.Down.
use slimproxy.Base.{ℕ, zero, suc, ◌+◌, not, leb, if◌then◌else◌}
use slimproxy.Tunnel.Process.{
  Record, Reading, no_record, broken, found, read_record, Identity, matches, gone, mismatch,
  unknown,
}
use slimproxy.Tunnel.World.{kills, World, Os, identity_of, ask, does, remove_record, is_over}
use slimproxy.Tunnel.Local.{Status, local_status, exited}

-- How killAndConfirm returns: nil, the error of the context, or that the process is still there.
-- `unfinished` stands for a loop that goes on.
pub data Kill : Type 0 where
  stopped interrupted survived unfinished : Kill

-- The 5 seconds of the deadline, and the 150 ms between two queries.
abbrev pub kill_deadline : ℕ
kill_deadline = 5000000000

abbrev pub kill_wait : ℕ
kill_wait = 150000000

-- As many rounds as the deadline leaves room for, and the one that ends the loop.
abbrev pub kill_rounds : ℕ
kill_rounds = 35

module _ (os : Os) where
  -- The loop of killAndConfirm, some time after its start.
  unfoldable pub confirm_gone : ℕ → ℕ → Record → World → Kill × World
  confirm_gone zero elapsed rec w = (unfinished, w)
  confirm_gone (suc rounds) elapsed rec w =
      let asked = ask os rec w in
      let rest = confirm_gone rounds (elapsed + kill_wait + os.delay w.moment) rec asked in
      if leb kill_deadline elapsed
      then (survived, w)
      else if is_over (identity_of os rec w)
      then (stopped, asked)
      else if os.cancelled w.moment
      then (interrupted, asked)
      else rest

  -- FindProcess, and Kill if it found one; the error of either is ignored.
  unfoldable pub signal : Record → World → World
  signal rec w = if os.finds_process w.moment rec.pid then does (kills rec.pid) w else w

  -- killAndConfirm.
  unfoldable pub kill_and_confirm : Record → World → Kill × World
  unfolding signal
  kill_and_confirm rec w = confirm_gone kill_rounds 0 rec (signal rec w)

-- What Down returns beside the status: nil, or which error.
pub data Downed : Type 0 where
  done nothing_recorded record_unusable not_ours unverified no_process kill_failed : Downed
  kill_unconfirmed : Kill → Downed

module _ (os : Os) where
  -- The reading of localStatus that goes with what Down returns.
  unfoldable pub reporting : Downed → World → Downed × Status × World
  reporting result w = let after = local_status os w in (result, after.0, after.1)

  unfoldable pub exited_before : World → Downed × Status × World
  exited_before w =
      let after = local_status os w in (done, record after.0 { detail = exited }, after.1)

  unfoldable pub after_kill : Kill × World → Downed × Status × World
  unfolding reporting
  after_kill (stopped, w) = reporting done (remove_record os w)
  after_kill (result, w) = reporting (kill_unconfirmed result) w

  -- The first Kill, and killAndConfirm, which sends another.
  unfoldable pub kill_recorded : Record → World → Downed × Status × World
  unfolding reporting after_kill
  kill_recorded rec w =
      if not (os.finds_process w.moment rec.pid)
      then reporting no_process w
      else if not (os.signals w.moment rec.pid)
      then reporting kill_failed (does (kills rec.pid) w)
      else after_kill (kill_and_confirm os rec (does (kills rec.pid) w))

  unfoldable pub down_verified : Record → Identity → World → Downed × Status × World
  unfolding reporting exited_before kill_recorded
  down_verified rec gone w = exited_before (remove_record os w)
  down_verified rec mismatch w = reporting not_ours (remove_record os w)
  down_verified rec unknown w = reporting unverified w
  down_verified rec matches w = kill_recorded rec w

  unfoldable pub down_read : Reading → World → Downed × Status × World
  unfolding reporting down_verified
  down_read no_record w = reporting nothing_recorded w
  down_read broken w = reporting record_unusable w
  down_read (found rec) w = down_verified rec (identity_of os rec w) (ask os rec w)

  -- Manager.Down.
  unfoldable pub down : World → Downed × Status × World
  unfolding down_read
  down w = down_read (read_record w.file) w
