-- ===== src/Text/Split.antt =====
-- Go's strings.Split, Fields, FieldsFunc, Cut, TrimRight and Trim, as the code calls them.
use slimproxy.Base.{
  ℕ, zero, suc, ◌-◌, Bool, true, false, List, [], ◌∷◌, ◌==◌, if◌then◌else◌, keep, length, Option,
  none, some,
}
use mathlib.Core.List.{reverse}
use slimproxy.Text.{Text, is_space, has_prefix}

-- A rune put before the first piece.
unfoldable pub onto : ℕ → List Text → List Text
onto a [] = (a ∷ []) ∷ []
onto a (piece ∷ pieces) = (a ∷ piece) ∷ pieces

-- The pieces between the runes that pass a test.
unfoldable pub split_by : (ℕ → Bool) → Text → List Text
unfolding onto
split_by p [] = [] ∷ []
split_by p (a ∷ s) = let pieces = split_by p s in if p a then [] ∷ pieces else onto a pieces

-- strings.Split at a separator of one byte.
unfoldable pub split : ℕ → Text → List Text
unfolding split_by
split sep s = split_by (λ c. c == sep) s

-- strings.Split at a longer separator: a separator is skipped whole.
unfoldable pub split_skipping : Text → ℕ → Text → List Text
unfolding onto
split_skipping sep skip [] = [] ∷ []
split_skipping sep (suc skip) (a ∷ s) = split_skipping sep skip s
split_skipping sep zero (a ∷ s) = elim (has_prefix (a ∷ s) sep) [
  | true ↦ [] ∷ split_skipping sep (length sep - 1) s
  | false ↦ onto a (split_skipping sep zero s)
]

unfoldable pub is_filled : Text → Bool
is_filled [] = false
is_filled (_ ∷ _) = true

-- strings.FieldsFunc.
unfoldable pub fields_by : (ℕ → Bool) → Text → List Text
unfolding split_by is_filled
fields_by p s = keep is_filled (split_by p s)

-- strings.Fields.
unfoldable pub fields : Text → List Text
unfolding fields_by
fields s = fields_by (λ c. is_space c) s

-- strings.Cut at one byte: what stands before and after it, if it is there.
unfoldable pub cut : ℕ → Text → Option (Text × Text)
cut sep [] = none
cut sep (a ∷ s) =
    let rest = cut sep s in
    if a == sep then some ([], s) else elim rest [ none ↦ none | some (b, t) ↦ some (a ∷ b, t) ]

-- What stands before the first rune that passes a test, or the whole text.
unfoldable pub before : (ℕ → Bool) → Text → Text
before p [] = []
before p (a ∷ s) = let rest = before p s in if p a then [] else a ∷ rest

unfoldable pub skip_while : (ℕ → Bool) → Text → Text
skip_while p [] = []
skip_while p (a ∷ s) = let rest = skip_while p s in if p a then rest else a ∷ s

-- strings.TrimRight and strings.Trim, on the runes that pass a test.
unfoldable pub trim_right_by : (ℕ → Bool) → Text → Text
unfolding skip_while
trim_right_by p s = reverse (skip_while p (reverse s))

unfoldable pub trim_by : (ℕ → Bool) → Text → Text
unfolding trim_right_by skip_while
trim_by p s = trim_right_by p (skip_while p s)
