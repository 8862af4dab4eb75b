-- ===== src/Refusal/Counted.antt =====
-- What the hooks of proxy/refusal.go keep through the calls of any requests.
use slimproxy.Base.{
  ℕ, suc, ◌+◌, ◌≤◌, ◌≡◌, refl, sym, ap, subst, Bool, true, false, not, ◌||◌, Option, none, some,
  is_some, List, [], ◌∷◌, length, leb, ◌==◌, arith, Bool-cases, inl, inr, if◌then◌else◌,
}
use slimproxy.Text.{Text}
use slimproxy.Refusal.Find.{Details, StopEvent, find_refusal}
use slimproxy.Refusal.Mark.{Fields, mark_content_filtered}
use slimproxy.Refusal.Hooks.{
  Hooks, load, delete, max_pending, track, forget, remember, found, normalize_before, after_found,
  normalize_after,
}

-- A call of a request's hooks.
pub data Call : Type 0 where
  before : ℕ → Text → Call
  after : ℕ → Text → Bool → Text → Call

-- How often a key stands in the map.
unfoldable pub times : ℕ → List (ℕ × Details) → ℕ
times key [] = 0
times key ((k, d) ∷ rest) = (if key == k then 1 else 0) + times key rest

-- live is the size of the map, no key is in it twice, and it is not larger than the limit.
pub record Counted (h : Hooks) : Type 0 where
  pub sized : h.live ≡ length h.pending
  pub unique : (key : ℕ) → times key h.pending ≤ 1
  pub bounded : h.live ≤ 1024

unloaded : (key : ℕ) (xs : List (ℕ × Details)) → is_some (load key xs) ≡ false → times key xs ≡ 0
unfolding load times
unloaded key [] h = refl
unloaded key ((k, d) ∷ xs) h = elim (Bool-cases (key == k)) [
  | inl e ↦ absurd (cc (h, e))
  | inr e ↦ rw e (
      omega (
        arith,
        unloaded key xs (subst (λ b. is_some (if b then some d else load key xs) ≡ false) e h),
      ))
]

length-delete :
    (key : ℕ) (xs : List (ℕ × Details))
    → is_some (load key xs) ≡ true
    → suc (length (delete key xs)) ≡ length xs
unfolding load delete
length-delete key [] h = absurd (cc h)
length-delete key ((k, d) ∷ xs) h = elim (Bool-cases (key == k)) [
  | inl e ↦ rw e refl
  | inr e ↦ rw e (
      ap suc (
        length-delete key xs (subst (λ b. is_some (if b then some d else load key xs) ≡ true) e h)))
]

times-delete : (key k : ℕ) (xs : List (ℕ × Details)) → times key (delete k xs) ≤ times key xs
unfolding delete times
times-delete key k [] = omega arith
times-delete key k ((j, d) ∷ xs) = elim (Bool-cases (k == j)) [
  | inl e ↦ rw e (omega arith)
  | inr e ↦ rw e (omega (arith, times-delete key k xs))
]

forget-Counted : (key : ℕ) (h : Hooks) → Counted h → Counted (forget key h)
unfolding forget
forget-Counted key h c = elim (Bool-cases (is_some (load key h.pending))) [
  | inl e ↦ rw e (record {
    sized = omega (arith, c.sized, length-delete key h.pending e);
    unique = λ k. omega (arith, times-delete k key h.pending, c.unique k);
    bounded = omega (arith, c.bounded);
  })
  | inr e ↦ rw e c
]

one_more :
    (key k : ℕ) (d : Details) (xs : List (ℕ × Details))
    → is_some (load k xs) ≡ false
    → times key xs ≤ 1
    → times key ((k, d) ∷ xs) ≤ 1
unfolding times
one_more key k d xs e u = elim (Bool-cases (key == k)) [
  | inl y ↦ rw y (subst (λ n. 1 + n ≤ 1) (sym (absent y)) (omega arith))
  | inr y ↦ rw y (omega (arith, u))
]
  where
    absent : (key == k) ≡ true → times key xs ≡ 0
    absent y = subst (λ j. times j xs ≡ 0) (ground (arith, y)) (unloaded k xs e)

track-Counted :
    (h : Hooks)
    → suc h.live ≡ length h.pending
    → ((key : ℕ) → times key h.pending ≤ 1)
    → Counted (track h)
unfolding track times
track-Counted h s u = elim (Bool-cases (leb (suc h.live) max_pending)) [
  | inl e ↦ rw e (record { sized = s; unique = u; bounded = ground (arith, e) })
  | inr e ↦ rw e (record { sized = refl; unique = λ k. omega arith; bounded = omega arith })
]

found-Counted : (key : ℕ) (o : Option Details) (h : Hooks) → Counted h → Counted (found key o h)
unfolding found remember
found-Counted key none h c = forget-Counted key h c
found-Counted key (some d) h c = elim (Bool-cases (is_some (load key h.pending))) [
  | inl e ↦ rw e c
  | inr e ↦ rw e (
      track-Counted (record h { pending = (key, d) ∷ h.pending }) (ap suc c.sized)
        (λ k. one_more k key d h.pending e (c.unique k)))
]

module _ (unmarshal : Text → Option StopEvent) (decode : Text → Option Fields)
    (marshal : Fields → Option Text) where
  unfoldable pub apply : Call → Hooks → Hooks
  apply (before key body) h = normalize_before unmarshal key body h
  apply (after key to stream body) h = (normalize_after decode marshal key to stream body h).hooks

  unfoldable pub apply_all : List Call → Hooks → Hooks
  unfolding apply
  apply_all [] h = h
  apply_all (c ∷ calls) h = apply_all calls (apply c h)

  after_found-Counted :
      (o : Option Details) (key : ℕ) (to : Text) (stream : Bool) (body : Text) (h : Hooks)
      → Counted h
      → Counted (after_found decode marshal o key to stream body h).hooks
  unfolding after_found
  after_found-Counted none key to stream body h c = c
  after_found-Counted (some d) key to stream body h c =
      elim (Bool-cases (not stream || (mark_content_filtered decode marshal body to stream).1)) [
        | inl e ↦ rw e (forget-Counted key h c)
        | inr e ↦ rw e c
      ]

  apply-Counted : (c : Call) (h : Hooks) → Counted h → Counted (apply c h)
  unfolding apply normalize_before normalize_after
  apply-Counted (before key body) h k = found-Counted key (find_refusal unmarshal body) h k
  apply-Counted (after key to stream body) h k =
      after_found-Counted (load key h.pending) key to stream body h k

  -- Where the calls of the hooks do not overlap, whatever requests they are of and in whatever order, the
  -- counter is the number of findings, no request has two, and there are never more than the limit,
  -- also where streams are abandoned and their findings never spent.
  pub apply_all-Counted : (calls : List Call) (h : Hooks) → Counted h → Counted (apply_all calls h)
  unfolding apply_all
  apply_all-Counted [] h k = k
  apply_all-Counted (c ∷ calls) h k = apply_all-Counted calls (apply c h) (apply-Counted c h k)
