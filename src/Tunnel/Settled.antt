-- ===== src/Tunnel/Settled.antt =====
-- What Down of tunnel/manager.go leaves of the record file.
use slimproxy.Base.{
  subst, ◌+◌, ◌*◌, ◌≤◌, ◌≢◌, ◌≡◌, refl, sym, ℕ, zero, suc, ◌⊎◌, inl, inr, true, false, Bool, ◌∙◌,
  List, ◌∷◌, arith, Bool-cases, leb,
}
use slimproxy.Tunnel.Process.{
  Record, RecordFile, missing, Reading, no_record, broken, found, read_record, Identity, matches,
  gone, mismatch, unknown,
}
use slimproxy.Tunnel.World.{
  Act, asked, kills, removes, World, Os, identity_of, ask, does, remove_record, is_over,
}
use slimproxy.Tunnel.Local.{Status, local_status, on_record, on_identity, from_config}
use slimproxy.Tunnel.Stop.{
  stopped, unfinished, confirm_gone, signal, kill_and_confirm, kill_rounds, kill_wait,
  kill_deadline,
}

-- A list of acts goes on from an earlier one.
pub data Since (base : List Act) : List Act → Type 0 where
  start : Since base base
  further : {a : Act} {acts : List Act} → Since base acts → Since base (a ∷ acts)

-- Since then os.Remove was called on the record right after the process that it describes was seen to be
-- over; `ok` says whether it removed it.
pub data Settled (rec : Record) (ok : Bool) (base : List Act) : List Act → Type 0 where
  here :
      {id : Identity} {acts : List Act}
      → Since base acts
      → is_over id ≡ true
      → Settled rec ok base (removes ok ∷ asked rec id ∷ acts)
  later : {a : Act} {acts : List Act} → Settled rec ok base acts → Settled rec ok base (a ∷ acts)

-- A loop of killAndConfirm that has as many rounds left as the deadline has room for ends.
pub confirm_gone-ends :
    (os : Os) (rounds elapsed : ℕ) (rec : Record) (w : World)
    → kill_deadline ≤ elapsed + rounds * kill_wait
    → (confirm_gone os (suc rounds) elapsed rec w).0 ≢ unfinished
unfolding confirm_gone
confirm_gone-ends os zero elapsed rec w h = ground arith
confirm_gone-ends os (suc rounds) elapsed rec w h = ground (
  arith,
  confirm_gone-ends os rounds (elapsed + kill_wait + os.delay w.moment) rec (ask os rec w),
)

-- A loop of killAndConfirm that stops has just seen that the process is over.
unfoldable pub SeenOver : Record → List Act → List Act → Type 0
SeenOver rec base acts =
    (id : Identity) × (rest : List Act) × (is_over id ≡ true)
    × Since base rest
    × (acts ≡ asked rec id ∷ rest)

-- The record file is as it was, or it is gone, and a record was removed as it had to be.
unfoldable pub Kept : List Act → RecordFile → World → Type 0
Kept base file w =
    (w.file ≡ file) ⊎ ((w.file ≡ missing) × (rec : Record) × Settled rec true base w.acts)

-- A record whose process was seen to be over has been removed and is gone, or os.Remove failed on it.
unfoldable pub Gone : Record → List Act → World → Type 0
Gone rec base w =
    (Settled rec true base w.acts × (w.file ≡ missing)) ⊎ Settled rec false base w.acts

pub settle :
    (ok : Bool) (rec : Record) (base acts : List Act)
    → SeenOver rec base acts
    → Settled rec ok base (removes ok ∷ acts)
unfolding SeenOver
settle ok rec base acts (id, rest, over, since, e) =
    subst (λ a. Settled rec ok base (removes ok ∷ a)) (sym e) (here since over)

pub SeenOver-Since :
    (rec : Record) (base acts : List Act) → SeenOver rec base acts → Since base acts
unfolding SeenOver
SeenOver-Since rec base acts (id, rest, over, since, e) = subst (Since base) (sym e) (further since)

module _ (os : Os) where
  pub confirm_gone-SeenOver :
      (rounds elapsed : ℕ) (rec : Record) (base : List Act) (w : World)
      → Since base w.acts
      → ((confirm_gone os rounds elapsed rec w).0 ≢ stopped)
        ⊎ SeenOver rec base (confirm_gone os rounds elapsed rec w).1.acts
  unfolding confirm_gone SeenOver ask
  confirm_gone-SeenOver zero elapsed rec base w h = inl (ground arith)
  confirm_gone-SeenOver (suc rounds) elapsed rec base w h =
      elim (Bool-cases (leb kill_deadline elapsed)) [
        | inl d ↦ inl (rw d (ground arith))
        | inr d ↦ elim (Bool-cases (is_over (identity_of os rec w))) [
          | inl o ↦ inr (rw d (rw o (identity_of os rec w, w.acts, o, h, refl)))
          | inr o ↦ elim (Bool-cases (os.cancelled w.moment)) [
            | inl c ↦ inl (rw d (rw o (rw c (ground arith))))
            | inr c ↦ rw d (
                rw o (
                  rw c (
                    confirm_gone-SeenOver rounds (elapsed + kill_wait + os.delay w.moment) rec base
                      (ask os rec w) (further h))))
          ]
        ]
      ]

  pub confirm_gone-file :
      (rounds elapsed : ℕ) (rec : Record) (w : World)
      → (confirm_gone os rounds elapsed rec w).1.file ≡ w.file
  unfolding confirm_gone ask
  confirm_gone-file zero elapsed rec w = refl
  confirm_gone-file (suc rounds) elapsed rec w =
      ground (
        arith,
        confirm_gone-file rounds (elapsed + kill_wait + os.delay w.moment) rec (ask os rec w),
      )

  pub Kept-ask :
      (base : List Act) (file : RecordFile) (rec : Record) (w : World)
      → Kept base file w
      → Kept base file (ask os rec w)
  unfolding Kept ask
  Kept-ask base file rec w (inl h) = inl h
  Kept-ask base file rec w (inr (m, r, s)) = inr (m, r, later s)

  Kept-remove :
      (rec : Record) (id : Identity) (base : List Act) (file : RecordFile) (w : World)
      → Since base w.acts
      → is_over id ≡ true
      → Kept base file w
      → Kept base file (remove_record os (does (asked rec id) w))
  unfolding Kept remove_record
  Kept-remove rec id base file w h o k = elim (Bool-cases (os.removed (suc w.moment))) [
    | inl y ↦ rw y (inr (refl, rec, here h o))
    | inr n ↦ rw n (elim k [ inl e ↦ inl e | inr (m, r, s) ↦ inr (m, r, later (later s)) ])
  ]

  on_identity-Kept :
      (rec : Record) (id : Identity) (st : Status) (base : List Act) (file : RecordFile) (w : World)
      → Since base w.acts
      → Kept base file w
      → Kept base file (on_identity os rec id st (does (asked rec id) w)).1
  unfolding Kept on_identity is_over
  on_identity-Kept rec matches st base file w h (inl e) = inl e
  on_identity-Kept rec matches st base file w h (inr (m, r, s)) = inr (m, r, later s)
  on_identity-Kept rec gone st base file w h k = Kept-remove rec gone base file w h refl k
  on_identity-Kept rec mismatch st base file w h k = Kept-remove rec mismatch base file w h refl k
  on_identity-Kept rec unknown st base file w h (inl e) = inl e
  on_identity-Kept rec unknown st base file w h (inr (m, r, s)) = inr (m, r, later s)

  on_record-Kept :
      (r : Reading) (st : Status) (base : List Act) (file : RecordFile) (w : World)
      → Since base w.acts
      → Kept base file w
      → Kept base file (on_record os r st w).1
  unfolding on_record ask
  on_record-Kept no_record st base file w h k = k
  on_record-Kept broken st base file w h k = k
  on_record-Kept (found rec) st base file w h k =
      on_identity-Kept rec (identity_of os rec w) (record st { log_path = rec.log_path }) base file
        w h k

  pub local_status-Kept :
      (base : List Act) (file : RecordFile) (w : World)
      → Since base w.acts
      → Kept base file w
      → Kept base file (local_status os w).1
  unfolding local_status
  local_status-Kept base file w h k =
      on_record-Kept (read_record w.file) (from_config (os.read_config w.moment)) base file w h k

  on_identity-Settled :
      (ok : Bool) (rec : Record) (r : Record) (id : Identity) (st : Status) (base : List Act)
      (w : World)
      → Settled rec ok base w.acts
      → Settled rec ok base (on_identity os r id st w).1.acts
  unfolding on_identity remove_record
  on_identity-Settled ok rec r matches st base w s = s
  on_identity-Settled ok rec r gone st base w s = later s
  on_identity-Settled ok rec r mismatch st base w s = later s
  on_identity-Settled ok rec r unknown st base w s = s

  on_record-Settled :
      (ok : Bool) (rec : Record) (r : Reading) (st : Status) (base : List Act) (w : World)
      → Settled rec ok base w.acts
      → Settled rec ok base (on_record os r st w).1.acts
  unfolding on_record ask
  on_record-Settled ok rec no_record st base w s = s
  on_record-Settled ok rec broken st base w s = s
  on_record-Settled ok rec (found r) st base w s =
      on_identity-Settled ok rec r (identity_of os r w) (record st { log_path = r.log_path }) base
        (ask os r w) (later s)

  pub local_status-Settled :
      (ok : Bool) (rec : Record) (base : List Act) (w : World)
      → Settled rec ok base w.acts
      → Settled rec ok base (local_status os w).1.acts
  unfolding local_status
  local_status-Settled ok rec base w s =
      on_record-Settled ok rec (read_record w.file) (from_config (os.read_config w.moment)) base w s

  -- A record that is gone stays so.
  on_record-missing :
      (r : Reading) (st : Status) (w : World)
      → r ≡ no_record
      → (on_record os r st w).1.file ≡ w.file
  unfolding on_record
  on_record-missing no_record st w e = refl
  on_record-missing broken st w e = absurd (cc e)
  on_record-missing (found rec) st w e = absurd (cc e)

  local_status-missing : (w : World) → w.file ≡ missing → (local_status os w).1.file ≡ missing
  unfolding local_status read_record
  local_status-missing w e =
      on_record-missing (read_record w.file) (from_config (os.read_config w.moment)) w (rw e refl)
      ∙ e

  pub local_status-Gone :
      (rec : Record) (base : List Act) (w : World)
      → Gone rec base w
      → Gone rec base (local_status os w).1
  unfolding Gone
  local_status-Gone rec base w (inl (s, m)) =
      inl (local_status-Settled true rec base w s, local_status-missing w m)
  local_status-Gone rec base w (inr s) = inr (local_status-Settled false rec base w s)

  pub confirm_gone-Since :
      (rounds elapsed : ℕ) (rec : Record) (base : List Act) (w : World)
      → Since base w.acts
      → Since base (confirm_gone os rounds elapsed rec w).1.acts
  unfolding confirm_gone ask
  confirm_gone-Since zero elapsed rec base w h = h
  confirm_gone-Since (suc rounds) elapsed rec base w h = ground (
    arith,
    further {a = asked rec (identity_of os rec w)} h,
    confirm_gone-Since rounds (elapsed + kill_wait + os.delay w.moment) rec base (ask os rec w)
        (further h),
  )

  -- What killAndConfirm leaves: it sends a signal at most, looks until the process is over, and does not
  -- touch the record.
  pub kill_and_confirm-SeenOver :
      (rec : Record) (base : List Act) (w : World)
      → Since base w.acts
      → Since base (kill_and_confirm os rec w).1.acts
        × (((kill_and_confirm os rec w).0 ≢ stopped)
            ⊎ SeenOver rec base (kill_and_confirm os rec w).1.acts)
        × ((kill_and_confirm os rec w).1.file ≡ w.file)
  unfolding kill_and_confirm signal
  kill_and_confirm-SeenOver rec base w h = elim (Bool-cases (os.finds_process w.moment rec.pid)) [
    | inl f ↦ rw f (
      confirm_gone-Since kill_rounds 0 rec base (does (kills rec.pid) w) (further h),
      confirm_gone-SeenOver kill_rounds 0 rec base (does (kills rec.pid) w) (further h),
      confirm_gone-file kill_rounds 0 rec (does (kills rec.pid) w),
    )
    | inr f ↦ rw f (
      confirm_gone-Since kill_rounds 0 rec base w h,
      confirm_gone-SeenOver kill_rounds 0 rec base w h,
      confirm_gone-file kill_rounds 0 rec w,
    )
  ]
