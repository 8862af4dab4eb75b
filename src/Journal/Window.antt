-- ===== src/Journal/Window.antt =====
-- The last elements of a list, as the ring of Read in journal/reader.go keeps them.
use slimproxy.Base.{
  ℕ, suc, zero, ◌-◌, ◌≤◌, ◌<◌, ◌≡◌, refl, sym, ap, ◌∙◌, ◌||◌, List, [], ◌∷◌, ◌++◌, ltb, ◌==◌,
  if◌then◌else◌, length, drop, arith, length-append,
}

-- The last `n` elements, all where `n` is 0.
abbrev pub last_n {ℓ} : {A : Type ℓ} → ℕ → List A → List A
last_n n xs = if n == 0 then xs else drop (length xs - n) xs

drop-snoc {ℓ} :
    {A : Type ℓ} (k : ℕ) (xs : List A) (x : A)
    → k ≤ length xs
    → drop k (xs ++ x ∷ []) ≡ drop k xs ++ x ∷ []
drop-snoc zero xs x h = refl
drop-snoc (suc k) [] x h = absurd (omega arith)
drop-snoc (suc k) (y ∷ xs) x h = drop-snoc k xs x (omega arith)

drop-drop {ℓ} : {A : Type ℓ} (k : ℕ) (xs : List A) → drop 1 (drop k xs) ≡ drop (suc k) xs
drop-drop zero xs = refl
drop-drop (suc k) [] = refl
drop-drop (suc k) (x ∷ xs) = drop-drop k xs

length-drop {ℓ} : {A : Type ℓ} (k : ℕ) (xs : List A) → length (drop k xs) ≡ length xs - k
length-drop zero xs = omega arith
length-drop (suc k) [] = omega arith
length-drop (suc k) (x ∷ xs) = omega (arith, length-drop k xs)

last_n-suc {ℓ} :
    {A : Type ℓ} (n : ℕ) (xs : List A) → last_n (suc n) xs ≡ drop (length xs - suc n) xs
last_n-suc n xs = ground arith

last_n-all {ℓ} : {A : Type ℓ} (n : ℕ) (xs : List A) → length xs ≤ suc n → last_n (suc n) xs ≡ xs
last_n-all n xs h =
    let gap : length xs - suc n ≡ 0 = omega (arith, h) in last_n-suc n xs ∙ ap (λ k. drop k xs) gap

last_n-snoc_room {ℓ} :
    {A : Type ℓ} (n : ℕ) (xs : List A) (x : A)
    → length xs < suc n
    → last_n (suc n) (xs ++ x ∷ []) ≡ last_n (suc n) xs ++ x ∷ []
last_n-snoc_room n xs x h =
    last_n-all n (xs ++ x ∷ []) (omega (arith, h, length-append xs (x ∷ [])))
    ∙ ap (λ ys. ys ++ x ∷ []) (sym (last_n-all n xs (omega (arith, h))))

last_n-snoc_full {ℓ} :
    {A : Type ℓ} (n : ℕ) (xs : List A) (x : A)
    → suc n ≤ length xs
    → last_n (suc n) (xs ++ x ∷ []) ≡ drop 1 (last_n (suc n) xs) ++ x ∷ []
last_n-snoc_full n xs x h =
    let gap : length (xs ++ x ∷ []) - suc n ≡ suc (length xs - suc n) =
      omega (arith, h, length-append xs (x ∷ [])) in
    last_n-suc n (xs ++ x ∷ [])
    ∙ ap (λ k. drop k (xs ++ x ∷ [])) gap
    ∙ drop-snoc (suc (length xs - suc n)) xs x (omega (arith, h))
    ∙ ap (λ ys. ys ++ x ∷ [])
        (sym (drop-drop (length xs - suc n) xs) ∙ ap (drop 1) (sym (last_n-suc n xs)))

length-last_n {ℓ} :
    {A : Type ℓ} (n : ℕ) (xs : List A)
    → length (last_n (suc n) xs) ≡ length xs - (length xs - suc n)
length-last_n n xs = ap length (last_n-suc n xs) ∙ length-drop (length xs - suc n) xs

-- One more element: the window grows while there is room, and then moves.
pub last_n-snoc :
    {A : Type 0} (n : ℕ) (xs : List A) (x : A)
    → last_n n (xs ++ x ∷ []) ≡ (
        if n == 0 || ltb (length (last_n n xs)) n
        then last_n n xs ++ x ∷ []
        else drop 1 (last_n n xs) ++ x ∷ [])
last_n-snoc zero xs x = refl
last_n-snoc (suc n) xs x =
    ground (arith, length-last_n n xs, last_n-snoc_room n xs x, last_n-snoc_full n xs x)
