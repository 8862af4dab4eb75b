-- ===== src/Tunnel/Kills.antt =====
-- Which processes Down of tunnel/manager.go kills.
use slimproxy.Base.{
  ℤ, ◌+◌, ◌≡◌, refl, ◌∙◌, ℕ, zero, suc, ◌⊎◌, inl, inr, true, false, List, [], ◌∷◌, arith,
  Bool-cases,
}
use slimproxy.Text.{Text, text_eq_sound}
use slimproxy.Tunnel.Process.{
  Record, Reading, no_record, broken, found, read_record, Identity, matches, gone, mismatch,
  unknown, ProcInfo, Lookup, failed, absent, present, verify_record, binary_matches,
  expected_image_name, predates, fold,
}
use slimproxy.Tunnel.World.{
  Act, asked, kills, claims, removes, spawns, writes, World, Os, identity_of, ask, does,
  remove_record,
}
use slimproxy.Tunnel.Local.{Status, local_status, on_record, on_identity}
use slimproxy.Tunnel.Stop.{
  Kill, stopped, interrupted, survived, unfinished, done, not_ours, unverified, no_process,
  nothing_recorded, record_unusable, kill_failed, kill_unconfirmed, confirm_gone, signal,
  kill_and_confirm, Downed, down, down_read, down_verified, reporting, exited_before, kill_recorded,
  after_kill, kill_rounds,
}

-- The PIDs that were killed, the last first.
abbrev pub killed : List Act → List ℤ
killed [] = []
killed (kills pid ∷ acts) = pid ∷ killed acts
killed (asked _ _ ∷ acts) = killed acts
killed (claims ∷ acts) = killed acts
killed (removes _ ∷ acts) = killed acts
killed (spawns _ ∷ acts) = killed acts
killed (writes _ ∷ acts) = killed acts

module _ (os : Os) where
  on_identity-killed :
      (rec : Record) (id : Identity) (st : Status) (w : World)
      → killed (on_identity os rec id st w).1.acts ≡ killed w.acts
  unfolding on_identity remove_record
  on_identity-killed rec matches st w = refl
  on_identity-killed rec gone st w = refl
  on_identity-killed rec mismatch st w = refl
  on_identity-killed rec unknown st w = refl

  pub ask-killed : (rec : Record) (w : World) → killed (ask os rec w).acts ≡ killed w.acts
  unfolding ask
  ask-killed rec w = refl

  on_record-killed :
      (r : Reading) (st : Status) (w : World) → killed (on_record os r st w).1.acts ≡ killed w.acts
  unfolding on_record
  on_record-killed no_record st w = refl
  on_record-killed broken st w = refl
  on_record-killed (found rec) st w =
      on_identity-killed rec (identity_of os rec w) (record st { log_path = rec.log_path })
        (ask os rec w)
      ∙ ask-killed rec w

  pub local_status-killed : (w : World) → killed (local_status os w).1.acts ≡ killed w.acts
  unfolding local_status
  local_status-killed w = on_record-killed _ _ w

  pub remove_record-killed : (w : World) → killed (remove_record os w).acts ≡ killed w.acts
  unfolding remove_record
  remove_record-killed w = refl

  -- The loop of killAndConfirm kills nothing more.
  pub confirm_gone-killed :
      (rounds elapsed : ℕ) (rec : Record) (w : World)
      → killed (confirm_gone os rounds elapsed rec w).1.acts ≡ killed w.acts
  unfolding confirm_gone
  confirm_gone-killed zero elapsed rec w = refl
  confirm_gone-killed (suc rounds) elapsed rec w = ground (
    arith,
    confirm_gone-killed rounds (elapsed + 150000000 + os.delay w.moment) rec (ask os rec w),
    ask-killed rec w,
  )

  pub kill_and_confirm-killed :
      (rec : Record) (w : World)
      → (killed (kill_and_confirm os rec w).1.acts ≡ killed w.acts)
        ⊎ (killed (kill_and_confirm os rec w).1.acts ≡ rec.pid ∷ killed w.acts)
  unfolding kill_and_confirm signal
  kill_and_confirm-killed rec w = elim (Bool-cases (os.finds_process w.moment rec.pid)) [
    | inl h ↦ inr (confirm_gone-killed kill_rounds 0 rec _ ∙ rw h)
    | inr h ↦ inl (confirm_gone-killed kill_rounds 0 rec _ ∙ rw h)
  ]

  reporting-killed :
      (result : Downed) (w : World) → killed (reporting os result w).2.acts ≡ killed w.acts
  unfolding reporting
  reporting-killed result w = local_status-killed w

  after_kill-killed : (k : Kill) (w : World) → killed (after_kill os (k, w)).2.acts ≡ killed w.acts
  unfolding after_kill
  after_kill-killed stopped w = reporting-killed done (remove_record os w) ∙ remove_record-killed w
  after_kill-killed interrupted w = reporting-killed (kill_unconfirmed interrupted) w
  after_kill-killed survived w = reporting-killed (kill_unconfirmed survived) w
  after_kill-killed unfinished w = reporting-killed (kill_unconfirmed unfinished) w

  -- What one call of Down kills, over what was killed before: nothing, or the PID of the record, once or
  -- twice.
  abbrev pub KillsOnly : ℤ → List ℤ → List ℤ → Type 0
  KillsOnly pid before after =
      (after ≡ before) ⊎ ((after ≡ pid ∷ before) ⊎ (after ≡ pid ∷ pid ∷ before))

  kill_recorded-killed :
      (rec : Record) (w : World)
      → KillsOnly rec.pid (killed w.acts) (killed (kill_recorded os rec w).2.acts)
  unfolding kill_recorded
  kill_recorded-killed rec w = elim (Bool-cases (os.finds_process w.moment rec.pid)) [
    | inr h ↦ inl (rw h (reporting-killed no_process w))
    | inl h ↦ elim (Bool-cases (os.signals w.moment rec.pid)) [
      | inr k ↦ inr (inl (rw h (rw k (reporting-killed kill_failed (does (kills rec.pid) w)))))
      | inl k ↦ elim (kill_and_confirm-killed rec (does (kills rec.pid) w)) [
        | inl e ↦ inr (inl (rw h (rw k (after_kill-killed _ _ ∙ e))))
        | inr e ↦ inr (inr (rw h (rw k (after_kill-killed _ _ ∙ e))))
      ]
    ]
  ]

  binary_matches_sound :
      (running want : Text)
      → binary_matches os.simple_fold running want ≡ true
      → fold os.simple_fold running ≡ fold os.simple_fold want
  unfolding binary_matches
  binary_matches_sound running want h = text_eq_sound _ _ h

  -- A process that is verified is there, has the image that was launched, and was not started before.
  pub verified :
      (rec : Record) (q : Lookup)
      → verify_record os.windows os.simple_fold rec q ≡ matches
      → (info : ProcInfo) × (q ≡ present info)
        × (fold os.simple_fold info.name
            ≡ fold os.simple_fold (expected_image_name os.windows rec.binary))
        × (predates os.windows info rec ≡ false)
  unfolding verify_record
  verified rec failed h = cc h
  verified rec absent h = cc h
  verified rec (present info) h =
      elim (Bool-cases
        (binary_matches os.simple_fold info.name (expected_image_name os.windows rec.binary))) [
          | inr m ↦ ground arith
          | inl m ↦ elim (Bool-cases (predates os.windows info rec)) [
            | inl p ↦ ground arith
            | inr p ↦ (info, refl, binary_matches_sound _ _ m, p)
          ]
        ]

  exited_before-killed : (w : World) → killed (exited_before os w).2.acts ≡ killed w.acts
  unfolding exited_before
  exited_before-killed w = local_status-killed w

  down_verified-killed :
      (rec : Record) (id : Identity) (w : World)
      → (killed (down_verified os rec id w).2.acts ≡ killed w.acts)
        ⊎ ((id ≡ matches)
            × KillsOnly rec.pid (killed w.acts) (killed (down_verified os rec id w).2.acts))
  unfolding down_verified
  down_verified-killed rec matches w = inr (refl, kill_recorded-killed rec w)
  down_verified-killed rec gone w =
      inl (exited_before-killed (remove_record os w) ∙ remove_record-killed w)
  down_verified-killed rec mismatch w =
      inl (reporting-killed not_ours (remove_record os w) ∙ remove_record-killed w)
  down_verified-killed rec unknown w = inl (reporting-killed unverified w)

  -- The process that has the PID of a record when the record is checked: it runs the image that was
  -- launched, and it was not started before the launch.
  abbrev pub IsOurs : Record → Lookup → Type 0
  IsOurs rec q =
      (info : ProcInfo) × (q ≡ present info)
      × (fold os.simple_fold info.name
          ≡ fold os.simple_fold (expected_image_name os.windows rec.binary))
      × (predates os.windows info rec ≡ false)

  down_read-killed :
      (r : Reading) (w : World)
      → (killed (down_read os r w).2.acts ≡ killed w.acts)
        ⊎ ((rec : Record) × (r ≡ found rec)
            × IsOurs rec (os.query w.moment rec.pid)
            × KillsOnly rec.pid (killed w.acts) (killed (down_read os r w).2.acts))
  unfolding down_read identity_of ask
  down_read-killed no_record w = inl (reporting-killed nothing_recorded w)
  down_read-killed broken w = inl (reporting-killed record_unusable w)
  down_read-killed (found rec) w =
      elim (down_verified-killed rec (identity_of os rec w) (ask os rec w)) [
        | inl e ↦ inl e
        | inr (m, k) ↦ inr (rec, refl, verified rec (os.query w.moment rec.pid) m, k)
      ]

  -- Down kills nothing, or only the PID of the record on disk, once or twice, where the process that had this
  -- PID when it was checked ran the image that was launched and was not started before the launch.
  pub down-killed :
      (w : World)
      → (killed (down os w).2.acts ≡ killed w.acts)
        ⊎ ((rec : Record) × (read_record w.file ≡ found rec)
            × IsOurs rec (os.query w.moment rec.pid)
            × KillsOnly rec.pid (killed w.acts) (killed (down os w).2.acts))
  unfolding down
  down-killed w = down_read-killed (read_record w.file) w
