-- ===== src/Text/Pieces.antt =====
-- What strings.Split makes of texts that were joined.
use slimproxy.Base.{
  ◌≡◌, refl, ap, Bool, true, not, ◌&&◌, [], ◌∷◌, ◌++◌, ℕ, arith, Bool-cases, inl, inr,
}
use slimproxy.Text.{Text}
use slimproxy.Text.Split.{onto, split_by}

-- No rune of a text passes a test.
unfoldable pub free : (ℕ → Bool) → Text → Bool
free p [] = true
free p (c ∷ s) = not (p c) && free p s

module _ (p : ℕ → Bool) where
  pub split_by-free : (t : Text) → free p t ≡ true → split_by p t ≡ t ∷ []
  unfolding free split_by onto
  split_by-free [] h = refl
  split_by-free (c ∷ t) h = elim (Bool-cases (p c)) [
    | inl e ↦ ground arith
    | inr e ↦ rw e (ap (onto c) (split_by-free t (ground arith)))
  ]

  pub split_by-append :
      (t s : Text) (sep : ℕ)
      → free p t ≡ true
      → p sep ≡ true
      → split_by p (t ++ (sep ∷ s)) ≡ t ∷ split_by p s
  unfolding free split_by onto
  split_by-append [] s sep h e = rw e refl
  split_by-append (c ∷ t) s sep h e = elim (Bool-cases (p c)) [
    | inl f ↦ ground arith
    | inr f ↦ rw f (ap (onto c) (split_by-append t s sep (ground arith) e))
  ]

  pub free-append : (s t : Text) → free p s ≡ true → free p t ≡ true → free p (s ++ t) ≡ true
  unfolding free
  free-append [] t h k = k
  free-append (c ∷ s) t h k = ground (arith, free-append s t)
