-- ===== src/Tunnel/Downs.antt =====
-- How Down of tunnel/manager.go ends.
use slimproxy.Base.{subst, ◌≢◌, ◌≡◌, refl, ◌⊎◌, inl, inr, true, false, List, arith, Bool-cases}
use slimproxy.Tunnel.Process.{
  Record, RecordFile, Reading, no_record, broken, found, read_record, Identity, matches, gone,
  mismatch, unknown,
}
use slimproxy.Tunnel.World.{
  Act, asked, kills, World, Os, identity_of, ask, does, remove_record, is_over,
}
use slimproxy.Tunnel.Local.{Status}
use slimproxy.Tunnel.Stop.{
  Kill, stopped, interrupted, survived, unfinished, kill_and_confirm, Downed, done, not_ours,
  unverified, no_process, kill_failed, kill_unconfirmed, down, down_read, down_verified, reporting,
  exited_before, kill_recorded, after_kill,
}
use slimproxy.Tunnel.Settled.{
  Since, start, further, kill_and_confirm-SeenOver, settle, SeenOver-Since, SeenOver, Kept,
  local_status-Kept, Gone, local_status-Gone,
}

-- What a call of Down leaves: if it returns nil the record that was found is gone, or os.Remove failed
-- on it, after its process was seen to be over, and in any case the file is as it was or was removed so.
Leaves : Record → List Act → RecordFile → Downed × Status × World → Type 0
Leaves rec base file (result, st, w) = ((result ≢ done) ⊎ Gone rec base w) × Kept base file w

unchanged-Kept : (w : World) → Kept w.acts w.file w
unfolding Kept
unchanged-Kept w = inl refl

module _ (os : Os) where
  -- The closing reading of Down.
  reporting-Leaves :
      (result : Downed) (rec : Record) (base : List Act) (file : RecordFile) (w : World)
      → Since base w.acts
      → (result ≢ done) ⊎ Gone rec base w
      → Kept base file w
      → Leaves rec base file (reporting os result w)
  unfolding reporting Leaves
  reporting-Leaves result rec base file w h (inl n) k =
      (inl n, local_status-Kept os base file w h k)
  reporting-Leaves result rec base file w h (inr s) k =
      (inr (local_status-Gone os rec base w s), local_status-Kept os base file w h k)

  -- The same where nothing has been done about the record.
  refusing-Leaves :
      (result : Downed) (rec : Record) (base : List Act) (w : World)
      → Since base w.acts
      → result ≢ done
      → Leaves rec base w.file (reporting os result w)
  unfolding Kept
  refusing-Leaves result rec base w h n =
      reporting-Leaves result rec base w.file w h (inl n) (inl refl)

  removed-Kept :
      (rec : Record) (base : List Act) (w : World)
      → SeenOver rec base w.acts
      → Kept base w.file (remove_record os w)
  unfolding Kept remove_record
  removed-Kept rec base w s = elim (Bool-cases (os.removed w.moment)) [
    | inl y ↦ rw y (inr (refl, rec, settle true rec base w.acts s))
    | inr n ↦ rw n (inl refl)
  ]

  removed-Gone :
      (rec : Record) (base : List Act) (w : World)
      → SeenOver rec base w.acts
      → Gone rec base (remove_record os w)
  unfolding Gone remove_record
  removed-Gone rec base w s = elim (Bool-cases (os.removed w.moment)) [
    | inl y ↦ rw y (inl (settle true rec base w.acts s, refl))
    | inr n ↦ rw n (inr (settle false rec base w.acts s))
  ]

  removed-Since :
      (base : List Act) (w : World) → Since base w.acts → Since base (remove_record os w).acts
  unfolding remove_record
  removed-Since base w h = further h

  -- The same where os.Remove has been called.
  removing-Leaves :
      (result : Downed) (rec : Record) (base : List Act) (w : World)
      → SeenOver rec base w.acts
      → Leaves rec base w.file (reporting os result (remove_record os w))
  removing-Leaves result rec base w s =
      reporting-Leaves result rec base w.file (remove_record os w)
        (removed-Since base w (SeenOver-Since rec base w.acts s)) (inr (removed-Gone rec base w s))
        (removed-Kept rec base w s)

  after_kill-Leaves :
      (rec : Record) (base : List Act) (k : Kill) (w : World)
      → Since base w.acts
      → (k ≢ stopped) ⊎ SeenOver rec base w.acts
      → Leaves rec base w.file (after_kill os (k, w))
  unfolding after_kill
  after_kill-Leaves rec base stopped w h (inl n) = absurd (n refl)
  after_kill-Leaves rec base stopped w h (inr s) = removing-Leaves done rec base w s
  after_kill-Leaves rec base interrupted w h s =
      refusing-Leaves (kill_unconfirmed interrupted) rec base w h (ground arith)
  after_kill-Leaves rec base survived w h s =
      refusing-Leaves (kill_unconfirmed survived) rec base w h (ground arith)
  after_kill-Leaves rec base unfinished w h s =
      refusing-Leaves (kill_unconfirmed unfinished) rec base w h (ground arith)

  kill_recorded-Leaves :
      (rec : Record) (base : List Act) (w : World)
      → Since base w.acts
      → Leaves rec base w.file (kill_recorded os rec w)
  unfolding kill_recorded
  kill_recorded-Leaves rec base w h = elim (Bool-cases (os.finds_process w.moment rec.pid)) [
    | inr f ↦ rw f (refusing-Leaves no_process rec base w h (ground arith))
    | inl f ↦ elim (Bool-cases (os.signals w.moment rec.pid)) [
      | inr s ↦ rw f (
          rw s (
            refusing-Leaves kill_failed rec base (does (kills rec.pid) w) (further h)
              (ground arith)))
      | inl s ↦
          let (since, seen, kept) =
            kill_and_confirm-SeenOver os rec base (does (kills rec.pid) w) (further h) in
          rw f (
            rw s (
              subst
                (λ file.
                  Leaves rec base file
                    (after_kill os (kill_and_confirm os rec (does (kills rec.pid) w))))
                kept
                (after_kill-Leaves rec base (kill_and_confirm os rec (does (kills rec.pid) w)).0
                  (kill_and_confirm os rec (does (kills rec.pid) w)).1 since seen)))
    ]
  ]

  exited_before-Leaves :
      (rec : Record) (base : List Act) (w : World)
      → SeenOver rec base w.acts
      → Leaves rec base w.file (exited_before os (remove_record os w))
  unfolding exited_before Leaves reporting
  exited_before-Leaves rec base w s = removing-Leaves done rec base w s

  down_verified-Leaves :
      (rec : Record) (id : Identity) (w : World)
      → Leaves rec w.acts w.file (down_verified os rec id (does (asked rec id) w))
  unfolding down_verified SeenOver is_over
  down_verified-Leaves rec matches w =
      kill_recorded-Leaves rec w.acts (does (asked rec matches) w) (further start)
  down_verified-Leaves rec gone w =
      exited_before-Leaves rec w.acts (does (asked rec gone) w) (gone, w.acts, refl, start, refl)
  down_verified-Leaves rec mismatch w =
      removing-Leaves not_ours rec w.acts (does (asked rec mismatch) w)
        (mismatch, w.acts, refl, start, refl)
  down_verified-Leaves rec unknown w =
      refusing-Leaves unverified rec w.acts (does (asked rec unknown) w) (further start)
        (ground arith)

  down_read-Leaves :
      (r : Reading) (w : World)
      → (((down_read os r w).0 ≢ done)
          ⊎ ((rec : Record) × (r ≡ found rec) × Gone rec w.acts (down_read os r w).2))
        × Kept w.acts w.file (down_read os r w).2
  unfolding down_read Leaves ask reporting
  down_read-Leaves no_record w =
      (inl (ground arith), local_status-Kept os w.acts w.file w start (unchanged-Kept w))
  down_read-Leaves broken w =
      (inl (ground arith), local_status-Kept os w.acts w.file w start (unchanged-Kept w))
  down_read-Leaves (found rec) w =
      let (result, kept) = down_verified-Leaves rec (identity_of os rec w) w in
      elim result [ inl n ↦ (inl n, kept) | inr s ↦ (inr (rec, refl, s), kept) ]

  -- Down returns nil only where it found a record and called os.Remove on it right after its process was
  -- seen to be gone or another's, and then either the removal worked and no record is left, or it failed;
  -- and whatever Down returns, the record file is as it was, or it is gone and it, or the status that it
  -- reports, removed a record right after its process was seen to be gone or another's.
  pub down-Kept :
      (w : World)
      → (((down os w).0 ≢ done)
          ⊎ ((rec : Record) × (read_record w.file ≡ found rec) × Gone rec w.acts (down os w).2))
        × Kept w.acts w.file (down os w).2
  unfolding down
  down-Kept w = down_read-Leaves (read_record w.file) w
