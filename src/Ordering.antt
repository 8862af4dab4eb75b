-- ===== src/Ordering.antt =====
-- sort.Slice with a test that says which of two elements goes first. The library's sort leaves open
-- in which order elements of equal rank stand; here the last comes first.
use slimproxy.Base.{
  ℕ, ◌+◌, ◌≡◌, refl, subst, Bool, true, false, List, [], ◌∷◌, arith, Bool-cases, inl, inr,
  if◌then◌else◌,
}
use mathlib.Core.List.{Perm}
use mathlib.Core.List.Perm

module _ {ℓ} {A : Type ℓ} where
  -- A sum over the elements.
  unfoldable pub sum_of : (A → ℕ) → List A → ℕ
  sum_of f [] = 0
  sum_of f (x ∷ xs) = f x + sum_of f xs

module _ {ℓ} {A : Type ℓ} (before : A → A → Bool) where
  unfoldable pub insert_by : A → List A → List A
  insert_by x [] = x ∷ []
  insert_by x (y ∷ ys) = let rest = insert_by x ys in if before x y then x ∷ y ∷ ys else y ∷ rest

  -- sort.Slice.
  unfoldable pub sort_by : List A → List A
  unfolding insert_by
  sort_by [] = []
  sort_by (x ∷ xs) = insert_by x (sort_by xs)

  -- No element goes before the one in front of it.
  unfoldable pub Ordered : List A → Type 0
  Ordered [] = Unit
  Ordered (x ∷ []) = Unit
  Ordered (x ∷ y ∷ ys) = (before y x ≡ false) × Ordered (y ∷ ys)

  tail-Ordered : (y : A) (ys : List A) → Ordered (y ∷ ys) → Ordered ys
  unfolding Ordered
  tail-Ordered y [] o = tt
  tail-Ordered y (z ∷ zs) o = o.1

  sum_of-insert_by :
      (f : A → ℕ) (x : A) (ys : List A) → sum_of f (insert_by x ys) ≡ f x + sum_of f ys
  unfolding insert_by sum_of
  sum_of-insert_by f x [] = refl
  sum_of-insert_by f x (y ∷ ys) = elim (Bool-cases (before x y)) [
    | inl b ↦ rw b refl
    | inr b ↦ rw b (omega (arith, sum_of-insert_by f x ys))
  ]

  -- Sorting changes no sum over the elements.
  pub sum_of-sort_by : (f : A → ℕ) (xs : List A) → sum_of f (sort_by xs) ≡ sum_of f xs
  unfolding sort_by sum_of
  sum_of-sort_by f [] = refl
  sum_of-sort_by f (x ∷ xs) = omega (arith, sum_of-insert_by f x (sort_by xs), sum_of-sort_by f xs)

  insert_by-perm : (x : A) (ys : List A) → Perm (insert_by x ys) (x ∷ ys)
  unfolding insert_by
  insert_by-perm x [] = Perm.refl (x ∷ [])
  insert_by-perm x (y ∷ ys) = elim (Bool-cases (before x y)) [
    | inl b ↦ rw b (Perm.refl (x ∷ y ∷ ys))
    | inr b ↦ rw b (Perm.trans (Perm.cons y (insert_by-perm x ys)) (Perm.swap x y ys))
  ]

  pub sort_by-perm : (xs : List A) → Perm (sort_by xs) xs
  unfolding sort_by
  sort_by-perm [] = Perm.refl []
  sort_by-perm (x ∷ xs) = Perm.trans (insert_by-perm x (sort_by xs)) (Perm.cons x (sort_by-perm xs))

  module _ (asym : (x y : A) → before x y ≡ true → before y x ≡ false) where
    -- What stands behind an element still does not go before it.
    behind :
        (x y : A) (ys : List A)
        → before x y ≡ false
        → Ordered (y ∷ ys)
        → Ordered (insert_by x ys)
        → Ordered (y ∷ insert_by x ys)
    unfolding Ordered insert_by
    behind x y [] b o i = (b, tt)
    behind x y (z ∷ zs) b o i = elim (Bool-cases (before x z)) [
      | inl c ↦ rw c (b, (asym x z c, o.1))
      | inr c ↦ rw c (o.0, subst (λ t. Ordered (if t then x ∷ z ∷ zs else z ∷ insert_by x zs)) c i)
    ]

    insert_by-Ordered : (x : A) (ys : List A) → Ordered ys → Ordered (insert_by x ys)
    unfolding insert_by Ordered
    insert_by-Ordered x [] o = tt
    insert_by-Ordered x (y ∷ ys) o = elim (Bool-cases (before x y)) [
      | inl b ↦ rw b (asym x y b, o)
      | inr b ↦ rw b (behind x y ys b o (insert_by-Ordered x ys (tail-Ordered y ys o)))
    ]

    pub sort_by-Ordered : (xs : List A) → Ordered (sort_by xs)
    unfolding sort_by Ordered
    sort_by-Ordered [] = tt
    sort_by-Ordered (x ∷ xs) = insert_by-Ordered x (sort_by xs) (sort_by-Ordered xs)
