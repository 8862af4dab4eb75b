-- ===== src/Journal/Sorted.antt =====
-- The latencies under a listing: sortInt64 of journal/reader.go, and the slowest request.
use slimproxy.Base.{
  ℕ, ◌-◌, ◌≤◌, ◌≡◌, ◌≢◌, refl, sym, ap, subst, ◌∙◌, ◌&&◌, List, [], ◌∷◌, ◌++◌, append-nil,
  append_assoc, ltb, if◌then◌else◌, length, All, All-append, length-append, List-cases, arith,
  Bool-cases, inl, inr,
}
use mathlib.Core.List.{reverse, reverse-cons, reverse_perm, perm_middle, Perm, Mem, mem-cons_self}
use mathlib.Core.List.Perm
use slimproxy.Journal.Event.{Event, is_request}
use slimproxy.Journal.Summary.{
  Sums, no_sums, count_event, count_events, sink, sort_from, sort_int64, nth, summarise,
}

-- Every element is at least, or at most, those after it.
abbrev pub Descending : List ℕ → Type 0
Descending [] = Unit {0}
Descending (x ∷ xs) = All (λ y. y ≤ x) xs × Descending xs

abbrev pub Ascending : List ℕ → Type 0
Ascending [] = Unit {0}
Ascending (x ∷ xs) = All (λ y. x ≤ y) xs × Ascending xs

All-weaken : (m n : ℕ) (xs : List ℕ) → m ≤ n → All (λ y. y ≤ m) xs → All (λ y. y ≤ n) xs
All-weaken m n [] h ok = tt
All-weaken m n (x ∷ xs) h ok = (omega (arith, h, ok.0), All-weaken m n xs h ok.1)

sink-All : (n x : ℕ) (ys : List ℕ) → x ≤ n → All (λ y. y ≤ n) ys → All (λ y. y ≤ n) (sink x ys)
unfolding sink
sink-All n x [] h ok = (h, tt)
sink-All n x (y ∷ ys) h ok = ground (arith, h, ok, sink-All n x ys h ok.1)

sink-Descending : (x : ℕ) (ys : List ℕ) → Descending ys → Descending (sink x ys)
unfolding sink
sink-Descending x [] d = (tt, tt)
sink-Descending x (y ∷ ys) d = elim (Bool-cases (ltb x y)) [
  | inl below ↦ rw below (sink-All y x ys (ground (arith, below)) d.0, sink-Descending x ys d.1)
  | inr above ↦ let h : y ≤ x = ground (arith, above) in rw above ((h, All-weaken y x ys h d.0), d)
]

sink-perm : (x : ℕ) (ys : List ℕ) → Perm (sink x ys) (x ∷ ys)
unfolding sink
sink-perm x [] = Perm.refl (x ∷ [])
sink-perm x (y ∷ ys) = elim (Bool-cases (ltb x y)) [
  | inl below ↦ rw below (Perm.trans (Perm.cons y (sink-perm x ys)) (Perm.swap x y ys))
  | inr above ↦ rw above (Perm.refl (x ∷ y ∷ ys))
]

sort_from-Descending : (done xs : List ℕ) → Descending done → Descending (sort_from done xs)
unfolding sort_from
sort_from-Descending done [] d = d
sort_from-Descending done (x ∷ xs) d =
    sort_from-Descending (sink x done) xs (sink-Descending x done d)

sort_from-perm : (done xs : List ℕ) → Perm (sort_from done xs) (done ++ xs)
unfolding sort_from
sort_from-perm done [] = rw (append-nil done) (Perm.refl done)
sort_from-perm done (x ∷ xs) =
    Perm.trans (sort_from-perm (sink x done) xs)
      (Perm.trans (Perm.append_right xs (sink-perm x done)) (Perm.symm (perm_middle done xs)))

reverse-All : (P : ℕ → Type 0) (xs : List ℕ) → All P xs → All P (reverse xs)
reverse-All P [] ok = tt
reverse-All P (x ∷ xs) ok =
    subst (All P) (sym (reverse-cons x xs))
      (All-append P (reverse xs) (x ∷ []) (reverse-All P xs ok.1) (ok.0, tt))

append-Ascending :
    (xs : List ℕ) (x : ℕ) → Ascending xs → All (λ y. y ≤ x) xs → Ascending (xs ++ x ∷ [])
append-Ascending [] x a h = (tt, tt)
append-Ascending (z ∷ xs) x a h =
    (All-append (λ y. z ≤ y) xs (x ∷ []) a.0 (h.0, tt), append-Ascending xs x a.1 h.1)

reverse-Ascending : (xs : List ℕ) → Descending xs → Ascending (reverse xs)
reverse-Ascending [] d = tt
reverse-Ascending (x ∷ xs) d =
    subst Ascending (sym (reverse-cons x xs))
      (append-Ascending (reverse xs) x (reverse-Ascending xs d.1) (reverse-All (λ y. y ≤ x) xs d.0))

-- sortInt64 sorts: its result ascends and holds what the slice held.
pub sort_int64_lem : (v : List ℕ) → Ascending (sort_int64 v) × Perm (sort_int64 v) v
unfolding sort_int64
sort_int64_lem v = (
  reverse-Ascending (sort_from [] v) (sort_from-Descending [] v tt),
  Perm.trans (reverse_perm (sort_from [] v)) (sort_from-perm [] v),
)

nth-length : (xs : List ℕ) (x : ℕ) → nth (length xs) (xs ++ x ∷ []) ≡ x
unfolding nth
nth-length [] x = refl
nth-length (y ∷ xs) x = nth-length xs x

nth-last : (xs : List ℕ) (x : ℕ) → nth (length (xs ++ x ∷ []) - 1) (xs ++ x ∷ []) ≡ x
nth-last xs x =
    let here : length (xs ++ x ∷ []) - 1 ≡ length xs = omega (arith, length-append xs (x ∷ [])) in
    ap (λ n. nth n (xs ++ x ∷ [])) here ∙ nth-length xs x

-- What the sort's result is bounded by bounds the slice.
All-sink : (n x : ℕ) (ys : List ℕ) → All (λ y. y ≤ n) (sink x ys) → (x ≤ n) × All (λ y. y ≤ n) ys
unfolding sink
All-sink n x [] ok = ok
All-sink n x (y ∷ ys) ok = ground (arith, ok, All-sink n x ys)

sort_from-All :
    (n : ℕ) (done xs : List ℕ)
    → All (λ y. y ≤ n) (sort_from done xs)
    → All (λ y. y ≤ n) done × All (λ y. y ≤ n) xs
unfolding sort_from
sort_from-All n done [] ok = (ok, tt)
sort_from-All n done (x ∷ xs) ok =
    let (sunk, rest) = sort_from-All n (sink x done) xs ok in
    let (h, d) = All-sink n x done sunk in (d, (h, rest))

-- The latencies of the requests that have one.
abbrev pub latencies : List Event → List ℕ
latencies [] = []
latencies (e ∷ es) =
    let rest = latencies es in
    if is_request e.kind && ltb 0 e.latency_ms then e.latency_ms ∷ rest else rest

count_event-lat : (s : Sums) (e : Event) → (count_event s e).lat ≡ s.lat ++ latencies (e ∷ [])
unfolding count_event
count_event-lat s e = ground (arith, append-nil s.lat)

latencies-cons :
    (e : Event) (es : List Event) → latencies (e ∷ es) ≡ latencies (e ∷ []) ++ latencies es
latencies-cons e es = ground arith

count_events-lat : (s : Sums) (es : List Event) → (count_events s es).lat ≡ s.lat ++ latencies es
unfolding count_events
count_events-lat s [] = sym (append-nil s.lat)
count_events-lat s (e ∷ es) =
    count_events-lat (count_event s e) es
    ∙ ap (λ ns. ns ++ latencies es) (count_event-lat s e)
    ∙ append_assoc s.lat (latencies (e ∷ [])) (latencies es)
    ∙ ap (◌++◌ s.lat) (sym (latencies-cons e es))

-- The last element of a sorted slice that is not empty.
slowest_of : List ℕ → ℕ
slowest_of v = nth (length (sort_int64 v) - 1) (sort_int64 v)

slowest_of_lem : (v : List ℕ) → v ≢ [] → All (λ n. n ≤ slowest_of v) v × Mem (slowest_of v) v
unfolding slowest_of sort_int64
slowest_of_lem v some_one = elim (List-cases (sort_from [] v)) [
  | inl none_sorted ↦ absurd (
      some_one
        (Perm.eq-nil (subst (λ ys. Perm v ys) none_sorted (Perm.symm (sort_from-perm [] v)))))
  | inr (d, ds, sorted) ↦
      let top : slowest_of v ≡ d =
        ap (λ ys. nth (length (reverse ys) - 1) (reverse ys)) sorted
        ∙ ap (λ ys. nth (length ys - 1) ys) (reverse-cons d ds)
        ∙ nth-last (reverse ds) d in
      let (bound, rest) = subst Descending sorted (sort_from-Descending [] v tt) in
      (
        subst (λ n. All (λ y. y ≤ n) v) (sym top)
            (sort_from-All d [] v (subst (All (λ y. y ≤ d)) (sym sorted) (omega arith, bound))).1,
        subst (λ n. Mem n v) (sym top)
            (Perm.subset (sort_from-perm [] v) d (subst (Mem d) (sym sorted) mem-cons_self)),
      )
]

-- SlowestMs is the latency of one of the requests listed, and no request listed took longer.
pub slowest_lem :
    (es : List Event)
    → latencies es ≢ []
    → All (λ n. n ≤ (summarise es).slowest_ms) (latencies es)
      × Mem (summarise es).slowest_ms (latencies es)
unfolding summarise slowest_of
slowest_lem es some_one =
    subst (λ v. All (λ n. n ≤ slowest_of v) (latencies es) × Mem (slowest_of v) (latencies es))
      (sym (count_events-lat no_sums es)) (slowest_of_lem (latencies es) some_one)
