-- ===== src/Tunnel/Outcomes.antt =====
-- How startDetached of tunnel/manager.go ends.
use slimproxy.Base.{
  ℤ, ◌≢◌, ◌≡◌, refl, ap, ◌∙◌, suc, ◌⊎◌, inl, inr, true, false, List, ◌∷◌, Option, none, some, arith,
  Bool-cases,
}
use slimproxy.Text.{Text}
use slimproxy.Tunnel.Process.{Record, missing, garbled, holds}
use slimproxy.Tunnel.World.{Act, claims, spawns, writes, World, Os, does}
use slimproxy.Tunnel.Local.{Status, running}
use slimproxy.Tunnel.Start.{
  Confirmation, connected, cancelled_wait, exited_early, still_waiting, timed_out, startup_rounds,
  confirm_started, Started, up, is_missing, gives_up, on_confirmation, record_child, on_start,
  on_log, start_detached,
}
use slimproxy.Tunnel.Launches.{
  is_missing_sound, effects, SeenConnected, confirm_loop-SeenConnected, confirm_loop-keeps,
}

-- The status that a launch reports.
abbrev pub serving : Record → Status → Status
serving rec st = record st {
  state = running;
  pid = rec.pid;
  managed = true;
  log_path = rec.log_path;
}

module _ (os : Os) (st : Status) where
  -- What a successful launch leaves, over the acts before: the record on disk is that of the child, which
  -- serves the tunnel asked for, and which is reported and was seen to connect.
  unfoldable pub Up : Text → List Act → Started × Status × World → Type 0
  Up bin before (result, after, w) =
      (rec : Record) × (w.file ≡ holds rec)
      × (rec.tunnel ≡ st.tunnel_id)
      × (rec.binary ≡ bin)
      × (after ≡ serving rec st)
      × (effects w.acts ≡ writes rec ∷ spawns rec.pid ∷ claims ∷ before)
      × SeenConnected os rec w

  on_confirmation-Up :
      (rec : Record) (before : List Act) (c : Confirmation × World)
      → c.1.file ≡ holds rec
      → rec.tunnel ≡ st.tunnel_id
      → effects c.1.acts ≡ writes rec ∷ spawns rec.pid ∷ claims ∷ before
      → (c.0 ≢ connected) ⊎ SeenConnected os rec c.1
      → ((on_confirmation os st rec c).0 ≢ up) ⊎ Up rec.binary before (on_confirmation os st rec c)
  unfolding on_confirmation gives_up Up
  on_confirmation-Up rec before (connected, w) f t e (inl n) = absurd (n refl)
  on_confirmation-Up rec before (connected, w) f t e (inr s) = inr (rec, f, t, refl, refl, e, s)
  on_confirmation-Up rec before (cancelled_wait, w) f t e s = inl (ground arith)
  on_confirmation-Up rec before (exited_early, w) f t e s = inl (ground arith)
  on_confirmation-Up rec before (still_waiting, w) f t e s = inl (ground arith)
  on_confirmation-Up rec before (timed_out a, w) f t e s = inl (ground arith)

  record_child-Up :
      (rec : Record) (before : List Act) (w : World)
      → rec.tunnel ≡ st.tunnel_id
      → effects w.acts ≡ spawns rec.pid ∷ claims ∷ before
      → ((record_child os st rec w).0 ≢ up) ⊎ Up rec.binary before (record_child os st rec w)
  unfolding record_child gives_up confirm_started
  record_child-Up rec before w t e = elim (Bool-cases (os.record_written w.moment)) [
    | inr h ↦ inl (rw h (ground arith))
    | inl h ↦
        let written = record (does (writes rec) w) { file = holds rec } in
        let kept = confirm_loop-keeps os startup_rounds 0 false rec written in
        rw h (
          on_confirmation-Up rec before (confirm_started os rec written) kept.0 t
            (kept.1 ∙ ap (◌∷◌ (writes rec)) e)
            (confirm_loop-SeenConnected os startup_rounds 0 false rec written))
  ]

  on_start-Up :
      (bin log : Text) (before : List Act) (pid : Option ℤ) (w : World)
      → effects w.acts ≡ claims ∷ before
      → ((on_start os st bin log pid w).0 ≢ up) ⊎ Up bin before (on_start os st bin log pid w)
  unfolding on_start gives_up
  on_start-Up bin log before none w e = inl (ground arith)
  on_start-Up bin log before (some pid) w e =
      record_child-Up
        (record {
          pid = pid;
          started = os.now w.moment;
          tunnel = st.tunnel_id;
          binary = bin;
          log_path = log;
        })
        before (does (spawns pid) w) refl (ap (◌∷◌ (spawns pid)) e)

  on_log-Up :
      (bin : Text) (before : List Act) (log : Option Text) (w : World)
      → effects w.acts ≡ claims ∷ before
      → ((on_log os st bin log w).0 ≢ up) ⊎ Up bin before (on_log os st bin log w)
  unfolding on_log gives_up
  on_log-Up bin before none w e = inl (ground arith)
  on_log-Up bin before (some log) w e =
      on_start-Up bin log before (os.starts w.moment st.tunnel_id) w e

  -- startDetached returns no error only where no record was there, and where it leaves one: the record
  -- of the only child that it started, and that it did not kill, which serves the tunnel asked for under the
  -- binary given, is what the status reports as managed and running, and was seen, by the last
  -- question asked, to be there or at least not to be over, with the marker of a registered connection logged.
  pub start_detached-Up :
      (bin : Text) (w : World)
      → ((start_detached os st bin w).0 ≢ up)
        ⊎ ((w.file ≡ missing) × Up bin (effects w.acts) (start_detached os st bin w))
  unfolding start_detached
  start_detached-Up bin w = elim (Bool-cases (is_missing w.file)) [
    | inr m ↦ inl (rw m (ground arith))
    | inl m ↦ elim (Bool-cases (os.claim_made w.moment)) [
      | inr c ↦ inl (rw m (rw c (ground arith)))
      | inl c ↦
          elim (on_log-Up bin (effects w.acts) (os.opens_log (suc w.moment))
            (record (does claims w) { file = garbled }) refl) [
              | inl n ↦ inl (rw m (rw c n))
              | inr u ↦ inr (is_missing_sound w.file m, rw m (rw c u))
            ]
    ]
  ]
