-- ===== src/StallGuard/Install.antt =====
-- proxy/stallguard.go: ensureStallGuard, which wraps the provider's executor, and its checks.
use slimproxy.Base.{
  ℕ, ◌+◌, ◌-◌, Bool, true, false, not, ◌&&◌, ◌||◌, Option, none, some, List, [], ◌∷◌, ltb, ◌==◌,
  if◌then◌else◌, length,
}
use slimproxy.Text.{Text, text_eq}

-- What reflect says of a method: its name, and the types of its parameters, the receiver first, and
-- of its results.
pub record Method : Type 0 where
  pub name : Text
  pub ins : List Text
  pub outs : List Text

-- The comparison of two parameter lists from the second on, of equal length.
unfoldable pub same_types : List Text → List Text → Bool
same_types [] [] = true
same_types (a ∷ as') (b ∷ bs) = text_eq a b && same_types as' bs
same_types _ _ = false

abbrev without_receiver : List Text → List Text
without_receiver [] = []
without_receiver (receiver ∷ types) = types

-- sameSignatureIgnoringReceiver.
unfoldable pub same_signature : Method → Method → Bool
unfolding same_types
same_signature a b =
    if not (length a.ins == length b.ins) || not (length a.outs == length b.outs)
    then false
    else same_types (without_receiver a.ins) (without_receiver b.ins) && same_types a.outs b.outs

-- MethodByName.
unfoldable pub method_by_name : Text → List Method → Option Method
method_by_name name [] = none
method_by_name name (m ∷ ms) = if text_eq m.name name then some m else method_by_name name ms

abbrev pub covers : Option Method → Method → Bool
covers none m = false
covers (some wm) m = same_signature m wm

-- uncoveredMethods: the names of the inner methods that the wrapper lacks, or has at another type.
unfoldable pub uncovered_methods : List Method → List Method → List Text
unfolding method_by_name same_signature
uncovered_methods [] wrapper = []
uncovered_methods (m ∷ inner) wrapper =
    let missing = uncovered_methods inner wrapper in
    if covers (method_by_name m.name wrapper) m then missing else m.name ∷ missing

-- An executor in the manager's table: an upstream one with its exported methods, or a stallGuard
-- around one, with its idle window.
pub data Executor : Type 0 where
  upstream : List Method → Executor
  guarded : List Method → ℕ → Executor

-- The entry of the manager's table for the provider "claude", and stallGuardMismatchLastWarn.
pub record Table : Type 0 where
  pub claude : Option Executor
  pub last_warn : ℕ
  pub warnings : ℕ

-- stallGuardMismatchWarnEvery, in nanoseconds.
abbrev pub warn_every : ℕ
warn_every = 3_600_000_000_000

-- shouldWarnMismatch: whether the warning is due, from the time of the last one.
unfoldable pub should_warn_mismatch : ℕ → ℕ → Bool
should_warn_mismatch last now = not (not (last == 0) && ltb (now - last) warn_every)

-- The refusal to wrap, said if it is due.
unfoldable pub refuse : Table → ℕ → Table
unfolding should_warn_mismatch
refuse t now =
    if should_warn_mismatch t.last_warn now
    then record t { last_warn = now; warnings = t.warnings + 1 }
    else t

module _ (wrapper : List Method) where
  unfoldable pub ensure_executor : Table → Option Executor → ℕ → ℕ → Table
  unfolding refuse
  ensure_executor t none idle now = t
  ensure_executor t (some (guarded inner window)) idle now = t
  ensure_executor t (some (upstream inner)) idle now = elim (uncovered_methods inner wrapper) [
    | [] ↦ record t { claude = some (guarded inner idle) }
    | name ∷ names ↦ refuse t now
  ]

  -- ensureStallGuard on a manager, where `wrapper` is the method set of *stallGuard.
  unfoldable pub ensure_stall_guard : Table → ℕ → ℕ → Table
  unfolding ensure_executor
  ensure_stall_guard t idle now = if idle == 0 then t else ensure_executor t t.claude idle now
