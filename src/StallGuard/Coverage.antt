-- ===== src/StallGuard/Coverage.antt =====
-- When ensureStallGuard wraps, and how often it complains that it does not.
use slimproxy.Base.{
  ℕ, ◌+◌, ◌*◌, ◌≤◌, ◌<◌, ◌≡◌, ◌≢◌, refl, sym, ap, ◌∙◌, ◌⊎◌, inl, inr, true, false, Option, none,
  some, List, [], ◌∷◌, All, arith, ◌==◌, if◌then◌else◌, Option-cases, Bool-cases, List-cases,
}
use slimproxy.Text.{Text}
use slimproxy.StallGuard.Install.{
  Method, same_signature, method_by_name, covers, uncovered_methods, Executor, upstream, guarded,
  Table, warn_every, should_warn_mismatch, refuse, ensure_executor, ensure_stall_guard,
}

-- The wrapper has the method under the same name and type.
abbrev pub Covered : List Method → Method → Type 0
Covered wrapper m =
    (wm : Method) × (method_by_name m.name wrapper ≡ some wm) × (same_signature m wm ≡ true)

covered :
    (m : Method) (wrapper : List Method) (missing : List Text)
    → (if covers (method_by_name m.name wrapper) m then missing else m.name ∷ missing) ≡ []
    → Covered wrapper m × (missing ≡ [])
covered m wrapper missing e = elim (Option-cases (method_by_name m.name wrapper)) [
  | inl lacks ↦ absurd (ground (arith, lacks))
  | inr (wm, has) ↦ ((wm, has, ground (arith, has)), ground (arith, has))
]

-- Nothing is reported missing only if the wrapper forwards every exported method of the inner
-- executor, at the same type.
pub uncovered-none :
    (inner wrapper : List Method)
    → uncovered_methods inner wrapper ≡ []
    → All (Covered wrapper) inner
unfolding uncovered_methods
uncovered-none [] wrapper e = tt
uncovered-none (m ∷ inner) wrapper e =
    let (c, rest) = covered m wrapper (uncovered_methods inner wrapper) e in
    (c, uncovered-none inner wrapper rest)

not_zero : (n : ℕ) → n ≢ 0 → (n == 0) ≡ false
not_zero n h = ground arith

-- The entry after a call that is not switched off.
wrapped : List Method → ℕ → Option Executor → Option Executor
wrapped wrapper idle none = none
wrapped wrapper idle (some (guarded inner window)) = some (guarded inner window)
wrapped wrapper idle (some (upstream inner)) = elim (uncovered_methods inner wrapper) [
  | [] ↦ some (guarded inner idle)
  | name ∷ names ↦ some (upstream inner)
]

executor-claude :
    (wrapper : List Method) (t : Table) (o : Option Executor) (idle now : ℕ)
    → t.claude ≡ o
    → (ensure_executor wrapper t o idle now).claude ≡ wrapped wrapper idle o
unfolding ensure_executor wrapped
executor-claude wrapper t none idle now e = e
executor-claude wrapper t (some (guarded inner window)) idle now e = e
executor-claude wrapper t (some (upstream inner)) idle now e = ground (arith, e)

ensure-claude :
    (wrapper : List Method) (t : Table) (idle now : ℕ)
    → idle ≢ 0
    → (ensure_stall_guard wrapper t idle now).claude ≡ wrapped wrapper idle t.claude
unfolding ensure_stall_guard
ensure-claude wrapper t idle now on =
    rw (not_zero idle on) (executor-claude wrapper t t.claude idle now refl)

wrapped_twice :
    (wrapper : List Method) (idle : ℕ) (o : Option Executor)
    → wrapped wrapper idle (wrapped wrapper idle o) ≡ wrapped wrapper idle o
unfolding wrapped
wrapped_twice wrapper idle none = refl
wrapped_twice wrapper idle (some (guarded inner window)) = refl
wrapped_twice wrapper idle (some (upstream inner)) =
    elim (List-cases (uncovered_methods inner wrapper)) [
      | inl whole ↦ rw (whole, wrapped) refl
      | inr (name, names, lacks) ↦ rw (lacks, wrapped) (rw (lacks, wrapped) refl)
    ]

wrapped_whole :
    (wrapper : List Method) (idle : ℕ) (inner : List Method)
    → uncovered_methods inner wrapper ≡ []
    → wrapped wrapper idle (some (upstream inner)) ≡ some (guarded inner idle)
unfolding wrapped
wrapped_whole wrapper idle inner e = ground (arith, e)

wrapped_lacking :
    (wrapper : List Method) (idle : ℕ) (inner : List Method) {name : Text} {names : List Text}
    → uncovered_methods inner wrapper ≡ name ∷ names
    → wrapped wrapper idle (some (upstream inner)) ≡ some (upstream inner)
unfolding wrapped
wrapped_lacking wrapper idle inner e = ground (arith, e)

module _ (wrapper : List Method) (t : Table) (idle now : ℕ) where
  -- With a window set, an upstream executor is wrapped at that window exactly when the wrapper
  -- forwards all its methods; otherwise the table keeps it bare.
  pub ensure_wraps :
      (inner : List Method)
      → t.claude ≡ some (upstream inner)
      → idle ≢ 0
      → let u = ensure_stall_guard wrapper t idle now in
        ((u.claude ≡ some (guarded inner idle)) × All (Covered wrapper) inner)
        ⊎ ((u.claude ≡ t.claude) × (uncovered_methods inner wrapper ≢ []))
  ensure_wraps inner e on = elim (List-cases (uncovered_methods inner wrapper)) [
    | inl whole ↦ inl (
      ensure-claude wrapper t idle now on
          ∙ ap (wrapped wrapper idle) e
          ∙ wrapped_whole wrapper idle inner whole,
      uncovered-none inner wrapper whole,
    )
    | inr (name, names, lacks) ↦ inr (
      ensure-claude wrapper t idle now on
          ∙ ap (wrapped wrapper idle) e
          ∙ wrapped_lacking wrapper idle inner lacks
          ∙ sym e,
      λ whole. ground (arith, lacks, whole),
    )
  ]

  -- A second call changes no entry: a guard is never wrapped again, and an executor that was refused
  -- is refused again.
  pub ensure_again :
      (later : ℕ)
      → idle ≢ 0
      → (ensure_stall_guard wrapper (ensure_stall_guard wrapper t idle now) idle later).claude
        ≡ (ensure_stall_guard wrapper t idle now).claude
  ensure_again later on =
      ensure-claude wrapper (ensure_stall_guard wrapper t idle now) idle later on
      ∙ ap (wrapped wrapper idle) (ensure-claude wrapper t idle now on)
      ∙ wrapped_twice wrapper idle t.claude
      ∙ sym (ensure-claude wrapper t idle now on)

-- A run of calls, each with its window and its time.
abbrev pub ensure_all : List Method → Table → List (ℕ × ℕ) → Table
ensure_all wrapper t [] = t
ensure_all wrapper t ((idle, now) ∷ calls) =
    ensure_all wrapper (ensure_stall_guard wrapper t idle now) calls

-- One call: the hour is paid for, and the last warning stays on record.
ensure_spaced :
    (wrapper : List Method) (t : Table) (o : Option Executor) (idle now : ℕ)
    → 0 < t.last_warn
    → let u = ensure_executor wrapper t o idle now in
      (u.warnings * warn_every + t.last_warn ≤ t.warnings * warn_every + u.last_warn)
      × (0 < u.last_warn)
unfolding ensure_executor refuse should_warn_mismatch
ensure_spaced wrapper t none idle now h = omega arith
ensure_spaced wrapper t (some (guarded inner window)) idle now h = omega arith
ensure_spaced wrapper t (some (upstream inner)) idle now h =
    elim (List-cases (uncovered_methods inner wrapper)) [
      | inl whole ↦ rw (whole, ensure_executor) (omega arith)
      | inr (name, names, lacks) ↦ rw (lacks, ensure_executor) (ground arith)
    ]

one_spaced :
    (wrapper : List Method) (t : Table) (idle now : ℕ)
    → 0 < t.last_warn
    → let u = ensure_stall_guard wrapper t idle now in
      (u.warnings * warn_every + t.last_warn ≤ t.warnings * warn_every + u.last_warn)
      × (0 < u.last_warn)
unfolding ensure_stall_guard
one_spaced wrapper t idle now h = elim (Bool-cases (idle == 0)) [
  | inl off ↦ rw off (omega arith)
  | inr on ↦ rw on (ensure_spaced wrapper t t.claude idle now h)
]

-- The complaint is throttled: once one was made, each further one costs a full hour since the one
-- before, however often and at whatever times the guard is reasserted.
pub warnings_spaced :
    (wrapper : List Method) (t : Table) (calls : List (ℕ × ℕ))
    → 0 < t.last_warn
    → let u = ensure_all wrapper t calls in
      u.warnings * warn_every + t.last_warn ≤ t.warnings * warn_every + u.last_warn
warnings_spaced wrapper t [] h = omega arith
warnings_spaced wrapper t ((idle, now) ∷ calls) h =
    let (one, pos) = one_spaced wrapper t idle now h in
    omega (arith, one, warnings_spaced wrapper (ensure_stall_guard wrapper t idle now) calls pos)
