-- ===== src/Tunnel/Launches.antt =====
-- What a launch of tunnel/manager.go does: startDetached and confirmStarted.
use slimproxy.Base.{
  Among, none, some, Option, ◌+◌, ◌*◌, ◌≤◌, ◌≢◌, ◌≡◌, refl, ℕ, zero, suc, ◌⊎◌, inl, inr, Bool, true,
  false, List, [], ◌∷◌, arith, Bool-cases, leb,
}
use slimproxy.Tunnel.Process.{Record, RecordFile, missing, garbled, unreadable, holds}
use slimproxy.Tunnel.World.{
  Act, asked, kills, claims, removes, spawns, writes, World, Os, identity_of, ask, does, is_over,
}
use slimproxy.Tunnel.Stop.{
  unfinished, confirm_gone, signal, kill_and_confirm, kill_rounds, kill_wait,
}
use slimproxy.Tunnel.Start.{
  connected, still_waiting, startup_grace, startup_wait, is_match, confirm_loop, confirm_started,
  is_missing,
}
use slimproxy.Text.{Text, contains}
use slimproxy.Text.Split.{split}
use slimproxy.Tunnel.Log.{drop_cr, scan_for, log_contains}
use slimproxy.Tunnel.Startup.{connected_marker}
use slimproxy.Tunnel.Settled.{confirm_gone-ends}

pub is_missing_sound : (file : RecordFile) → is_missing file ≡ true → file ≡ missing
unfolding is_missing
is_missing_sound missing h = refl
is_missing_sound unreadable h = cc h
is_missing_sound garbled h = cc h
is_missing_sound (holds _) h = cc h

-- The acts that are no questions.
abbrev pub effects : List Act → List Act
effects [] = []
effects (asked _ _ ∷ acts) = effects acts
effects (kills pid ∷ acts) = kills pid ∷ effects acts
effects (claims ∷ acts) = claims ∷ effects acts
effects (removes ok ∷ acts) = removes ok ∷ effects acts
effects (spawns pid ∷ acts) = spawns pid ∷ effects acts
effects (writes rec ∷ acts) = writes rec ∷ effects acts

confirm_loop-ends :
    (os : Os) (rounds elapsed : ℕ) (alive : Bool) (rec : Record) (w : World)
    → startup_grace ≤ elapsed + rounds * startup_wait
    → (confirm_loop os (suc rounds) elapsed alive rec w).0 ≢ still_waiting
unfolding confirm_loop
confirm_loop-ends os zero elapsed alive rec w h = ground arith
confirm_loop-ends os (suc rounds) elapsed alive rec w h = ground (
  arith,
  confirm_loop-ends os rounds (elapsed + startup_wait + os.delay w.moment)
      (is_match (identity_of os rec w)) rec (ask os rec w),
)

-- Both loops end, since each round waits: killAndConfirm's within 35 rounds and confirmStarted's within 51, whatever
-- is answered and however long a round takes.
pub polls_end :
    (os : Os) (rec : Record) (w : World)
    → ((kill_and_confirm os rec w).0 ≢ unfinished) × ((confirm_started os rec w).0 ≢ still_waiting)
unfolding kill_and_confirm confirm_started
polls_end os rec w = (
  confirm_gone-ends os 34 0 rec (signal os rec w) (omega arith),
  confirm_loop-ends os 50 0 false rec w (omega arith),
)

-- A line of what was logged since the launch has the marker of a registered connection.
unfoldable pub HasMarker : Option Text → Type 0
HasMarker none = ⊥
HasMarker (some logged) =
    (line : Text) × Among line (split b'\n' logged)
    × (contains (drop_cr line) connected_marker ≡ true)

scan_for_sound :
    (marker : Text) (lines : List Text)
    → scan_for marker lines ≡ true
    → (line : Text) × Among line lines × (contains (drop_cr line) marker ≡ true)
unfolding scan_for
scan_for_sound marker [] h = absurd (cc h)
scan_for_sound marker (line ∷ lines) h = elim (Bool-cases (contains (drop_cr line) marker)) [
  | inl y ↦ (line, inl refl, y)
  | inr n ↦
      let (found, m, c) = scan_for_sound marker lines (ground (arith, h, n)) in (found, inr m, c)
]

log_contains-HasMarker : (o : Option Text) → log_contains o connected_marker ≡ true → HasMarker o
unfolding log_contains HasMarker
log_contains-HasMarker none h = absurd (cc h)
log_contains-HasMarker (some logged) h = scan_for_sound connected_marker (split b'\n' logged) h

module _ (os : Os) where
  -- The log had the marker of this launch, and its process was not seen to be over.
  unfoldable pub SeenConnected : Record → World → Type 0
  SeenConnected rec after =
      (w : World) × HasMarker (os.read_log w.moment rec.log_path)
      × (is_over (identity_of os rec w) ≡ false)
      × (after.acts ≡ asked rec (identity_of os rec w) ∷ w.acts)

  pub confirm_loop-SeenConnected :
      (rounds elapsed : ℕ) (alive : Bool) (rec : Record) (w : World)
      → ((confirm_loop os rounds elapsed alive rec w).0 ≢ connected)
        ⊎ SeenConnected rec (confirm_loop os rounds elapsed alive rec w).1
  unfolding confirm_loop SeenConnected ask
  confirm_loop-SeenConnected zero elapsed alive rec w = inl (ground arith)
  confirm_loop-SeenConnected (suc rounds) elapsed alive rec w =
      elim (Bool-cases (leb startup_grace elapsed)) [
        | inl d ↦ inl (rw d (ground arith))
        | inr d ↦ elim (Bool-cases (os.cancelled w.moment)) [
          | inl c ↦ inl (rw d (rw c (ground arith)))
          | inr c ↦ elim (Bool-cases (is_over (identity_of os rec w))) [
            | inl o ↦ inl (rw d (rw c (rw o (ground arith))))
            | inr o ↦
                elim (Bool-cases
                  (log_contains (os.read_log w.moment rec.log_path) connected_marker)) [
                    | inl m ↦ inr (
                        rw d (
                          rw c (
                            rw o (
                              rw m (
                                w,
                                log_contains-HasMarker (os.read_log w.moment rec.log_path) m,
                                o,
                                refl,
                              )))))
                    | inr m ↦ rw d (
                        rw c (
                          rw o (
                            rw m (
                              confirm_loop-SeenConnected rounds
                                (elapsed + startup_wait + os.delay w.moment)
                                (is_match (identity_of os rec w)) rec (ask os rec w)))))
                  ]
          ]
        ]
      ]

  pub confirm_loop-keeps :
      (rounds elapsed : ℕ) (alive : Bool) (rec : Record) (w : World)
      → ((confirm_loop os rounds elapsed alive rec w).1.file ≡ w.file)
        × (effects (confirm_loop os rounds elapsed alive rec w).1.acts ≡ effects w.acts)
  unfolding confirm_loop ask
  confirm_loop-keeps zero elapsed alive rec w = (refl, refl)
  confirm_loop-keeps (suc rounds) elapsed alive rec w = ground (
    arith,
    confirm_loop-keeps rounds (elapsed + startup_wait + os.delay w.moment)
        (is_match (identity_of os rec w)) rec (ask os rec w),
  )

  confirm_gone-effects :
      (rounds elapsed : ℕ) (rec : Record) (w : World)
      → effects (confirm_gone os rounds elapsed rec w).1.acts ≡ effects w.acts
  unfolding confirm_gone ask
  confirm_gone-effects zero elapsed rec w = refl
  confirm_gone-effects (suc rounds) elapsed rec w = ground (
    arith,
    confirm_gone-effects rounds (elapsed + kill_wait + os.delay w.moment) rec (ask os rec w),
  )

  pub kill_and_confirm-effects :
      (rec : Record) (w : World)
      → os.finds_process w.moment rec.pid ≡ true
      → effects (kill_and_confirm os rec w).1.acts ≡ kills rec.pid ∷ effects w.acts
  unfolding kill_and_confirm signal
  kill_and_confirm-effects rec w h =
      rw h (confirm_gone-effects kill_rounds 0 rec (does (kills rec.pid) w))
