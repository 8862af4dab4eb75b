-- ===== src/Metrics/Board.antt =====
-- What Collector.Snapshot of metrics/collector.go shows.
use slimproxy.Base.{
  ◌⊎◌, ◌<◌, ◌==◌, subst, ℕ, suc, ◌+◌, ◌≤◌, ◌≡◌, refl, subst, Bool, true, false, List, [], ◌∷◌,
  length, arith, Bool-cases, inl, inr, if◌then◌else◌,
}
use slimproxy.Text.Order.{text_before, text_before-asym}
use slimproxy.Text.{Text, text_eq, text_eq_sound}
use slimproxy.Metrics.Sample.{Sample, route}
use slimproxy.Ordering.{Ordered, sum_of, sum_of-sort_by, sort_by-Ordered}
use slimproxy.Metrics.Collector.{
  RouteAgg, add_route, by_route, busier, newer, close_agg, close_aggs, active_of,
}

busier-asym : (a b : RouteAgg) → busier a b ≡ true → busier b a ≡ false
unfolding busier
busier-asym a b h = ground (arith, text_before-asym a.key b.key)

pub newer-asym : (a b : Sample) → newer a b ≡ true → newer b a ≡ false
unfolding newer
newer-asym a b h = ground arith

-- The requests of a route, and of an aggregate that is of it.
unfoldable pub routed_by : Text → Sample → ℕ
routed_by key s = if text_eq key (route s) then 1 else 0

unfoldable pub count_for : Text → RouteAgg → ℕ
count_for key a = if text_eq key a.key then a.count else 0

unfoldable pub row_for : Text → RouteAgg → ℕ
row_for key a = if text_eq key a.key then 1 else 0

unfoldable pub count_all : RouteAgg → ℕ
count_all a = a.count

key_step :
    (key k : Text) (c : ℕ)
    → (if text_eq key k then suc c else 0)
      ≡ (if text_eq key k then 1 else 0) + (if text_eq key k then c else 0)
key_step key k c = ground arith

-- A key that is also k is on the same side of every aggregate of k.
moved :
    (key k was : Text) (c : ℕ)
    → text_eq k was ≡ true
    → (if text_eq key was then suc c else 0)
      ≡ (if text_eq key k then 1 else 0) + (if text_eq key was then c else 0)
moved key k was c e =
    subst
      (λ x.
        (if text_eq key x then suc c else 0)
        ≡ (if text_eq key k then 1 else 0) + (if text_eq key x then c else 0))
      (text_eq_sound k was e) (key_step key k c)

add_route-count :
    (key k : Text) (ttft : ℕ) (aggs : List RouteAgg)
    → sum_of (λ a. count_for key a) (add_route k ttft aggs)
      ≡ (if text_eq key k then 1 else 0) + sum_of (λ a. count_for key a) aggs
unfolding add_route sum_of count_for
add_route-count key k ttft [] = refl
add_route-count key k ttft (a ∷ aggs) = elim (Bool-cases (text_eq k a.key)) [
  | inl e ↦ rw e (omega (arith, moved key k a.key a.count e))
  | inr e ↦ rw e (omega (arith, add_route-count key k ttft aggs))
]

by_route-count :
    (key : Text) (aggs : List RouteAgg) (samples : List Sample)
    → sum_of (λ a. count_for key a) (by_route aggs samples)
      ≡ sum_of (λ a. count_for key a) aggs + sum_of (λ s. routed_by key s) samples
unfolding by_route sum_of routed_by
by_route-count key aggs [] = omega arith
by_route-count key aggs (s ∷ samples) = omega (
  arith,
  by_route-count key (add_route (route s) s.ttft aggs) samples,
  add_route-count key (route s) s.ttft aggs,
)

add_route-all :
    (k : Text) (ttft : ℕ) (aggs : List RouteAgg)
    → sum_of (λ a. count_all a) (add_route k ttft aggs) ≡ suc (sum_of (λ a. count_all a) aggs)
unfolding add_route sum_of count_all
add_route-all k ttft [] = refl
add_route-all k ttft (a ∷ aggs) = ground (arith, add_route-all k ttft aggs)

by_route-all :
    (aggs : List RouteAgg) (samples : List Sample)
    → sum_of (λ a. count_all a) (by_route aggs samples)
      ≡ sum_of (λ a. count_all a) aggs + length samples
unfolding by_route
by_route-all aggs [] = omega arith
by_route-all aggs (s ∷ samples) = omega (
  arith,
  by_route-all (add_route (route s) s.ttft aggs) samples,
  add_route-all (route s) s.ttft aggs,
)

-- Two keys of which one is a third's and the other is not are not the same.
no_both : (b : Bool) → b ≡ true → b ≡ false → ⊥
no_both b c o = cc (c, o)

apart : (key k was : Text) → text_eq key was ≡ true → text_eq k was ≡ false → text_eq key k ≡ false
apart key k was h e = elim (Bool-cases (text_eq key k)) [
  | inr n ↦ n
  | inl y ↦
      absurd
        (no_both (text_eq k was) (subst (λ x. text_eq x was ≡ true) (text_eq_sound key k y) h) e)
]

other_row :
    (key k : Text) (ttft : ℕ) (aggs : List RouteAgg)
    → text_eq key k ≡ false
    → sum_of (λ a. row_for key a) (add_route k ttft aggs) ≡ sum_of (λ a. row_for key a) aggs
unfolding add_route sum_of row_for
other_row key k ttft [] n = rw n refl
other_row key k ttft (a ∷ aggs) n = elim (Bool-cases (text_eq k a.key)) [
  | inl e ↦ rw e refl
  | inr e ↦ rw e (omega (arith, other_row key k ttft aggs n))
]

-- A route has one row at most, and adding to it makes no second.
first_elsewhere :
    (key k : Text) (ttft : ℕ) (a : RouteAgg) (aggs : List RouteAgg)
    → text_eq key a.key ≡ false
    → sum_of (λ b. row_for key b) (a ∷ aggs) ≤ 1
    → (sum_of (λ b. row_for key b) aggs ≤ 1
        → sum_of (λ b. row_for key b) (add_route k ttft aggs) ≤ 1)
    → sum_of (λ b. row_for key b) (a ∷ add_route k ttft aggs) ≤ 1
unfolding sum_of row_for
first_elsewhere key k ttft a aggs y h ih = ground (arith, y, h, ih)

add_route-row :
    (key k : Text) (ttft : ℕ) (aggs : List RouteAgg)
    → sum_of (λ a. row_for key a) aggs ≤ 1
    → sum_of (λ a. row_for key a) (add_route k ttft aggs) ≤ 1
unfolding add_route sum_of row_for
add_route-row key k ttft [] h = ground arith
add_route-row key k ttft (a ∷ aggs) h = elim (Bool-cases (text_eq k a.key)) [
  | inl e ↦ rw e h
  | inr e ↦ rw e (elim (Bool-cases (text_eq key a.key)) [
    | inl y ↦ omega (arith, h, other_row key k ttft aggs (apart key k a.key y e))
    | inr y ↦ first_elsewhere key k ttft a aggs y h (add_route-row key k ttft aggs)
  ])
]

by_route-row :
    (key : Text) (aggs : List RouteAgg) (samples : List Sample)
    → sum_of (λ a. row_for key a) aggs ≤ 1
    → sum_of (λ a. row_for key a) (by_route aggs samples) ≤ 1
unfolding by_route
by_route-row key aggs [] h = h
by_route-row key aggs (s ∷ samples) h =
    by_route-row key (add_route (route s) s.ttft aggs) samples
      (add_route-row key (route s) s.ttft aggs h)

-- The averages and percentages change no key and no count.
module _ (percent : ℕ → ℕ → ℕ) (total : ℕ) where
  closed-count :
      (key : Text) (aggs : List RouteAgg)
      → sum_of (λ a. count_for key a) (close_aggs percent total aggs)
        ≡ sum_of (λ a. count_for key a) aggs
  unfolding close_aggs close_agg sum_of count_for
  closed-count key [] = refl
  closed-count key (a ∷ aggs) = omega (arith, closed-count key aggs)

  closed-row :
      (key : Text) (aggs : List RouteAgg)
      → sum_of (λ a. row_for key a) (close_aggs percent total aggs)
        ≡ sum_of (λ a. row_for key a) aggs
  unfolding close_aggs close_agg sum_of row_for
  closed-row key [] = refl
  closed-row key (a ∷ aggs) = omega (arith, closed-row key aggs)

  closed-all :
      (aggs : List RouteAgg)
      → sum_of (λ a. count_all a) (close_aggs percent total aggs) ≡ sum_of (λ a. count_all a) aggs
  unfolding close_aggs close_agg sum_of count_all
  closed-all [] = refl
  closed-all (a ∷ aggs) = omega (arith, closed-all aggs)

-- The order of texts by their code points, and the rows in the order in which they are to be shown: the more
-- requests the earlier, and of as many by the names of their routes.
pub data Lex : Text → Text → Type 0 where
  no_longer : {t : Text} → Lex [] t
  less : {c d : ℕ} {s t : Text} → c < d → Lex (c ∷ s) (d ∷ t)
  as_far : {c : ℕ} {s t : Text} → Lex s t → Lex (c ∷ s) (c ∷ t)

unfoldable pub Shown : RouteAgg → RouteAgg → Type 0
Shown a b = (b.count < a.count) ⊎ ((b.count ≡ a.count) × Lex a.key b.key)

unfoldable pub AllShown : List RouteAgg → Type 0
unfolding Shown
AllShown [] = Unit
AllShown (a ∷ []) = Unit
AllShown (a ∷ b ∷ rows) = Shown a b × AllShown (b ∷ rows)

text_before-Lex : (s t : Text) → text_before t s ≡ false → Lex s t
unfolding text_before
text_before-Lex [] t e = no_longer
text_before-Lex (c ∷ s) [] e = absurd (cc e)
text_before-Lex (c ∷ s) (d ∷ t) e = elim (Bool-cases (d == c)) [
  | inl q ↦
      subst (λ x. Lex (c ∷ s) (x ∷ t)) (ground (arith, q))
        (as_far (text_before-Lex s t (ground (arith, e, q))))
  | inr q ↦ less (ground (arith, e, q))
]

busier-Shown : (a b : RouteAgg) → busier b a ≡ false → Shown a b
unfolding busier Shown
busier-Shown a b e = elim (Bool-cases (b.count == a.count)) [
  | inl q ↦ inr (ground (arith, q), text_before-Lex a.key b.key (ground (arith, e, q)))
  | inr q ↦ inl (ground (arith, e, q))
]

Ordered-Shown : (rows : List RouteAgg) → Ordered (λ a b. busier a b) rows → AllShown rows
unfolding Ordered AllShown
Ordered-Shown [] o = tt
Ordered-Shown (a ∷ []) o = tt
Ordered-Shown (a ∷ b ∷ rows) o = (busier-Shown a b o.0, Ordered-Shown (b ∷ rows) o.1)

-- Active has one row at most for a route, which counts the samples held of that route; the counts of all
-- rows add up to the samples held; and each row has fewer requests than the one in front of it, or as many
-- and a route that is not earlier by its code points.
pub active_of_lem :
    (percent : ℕ → ℕ → ℕ) (samples : List Sample) (key : Text)
    → (sum_of (λ a. count_for key a) (active_of percent samples)
        ≡ sum_of (λ s. routed_by key s) samples)
      × (sum_of (λ a. row_for key a) (active_of percent samples) ≤ 1)
      × (sum_of (λ a. count_all a) (active_of percent samples) ≡ length samples)
      × AllShown (active_of percent samples)
unfolding active_of sum_of
active_of_lem percent samples key =
    let aggs = close_aggs percent (length samples) (by_route [] samples) in
    let sorts = sum_of-sort_by (λ a b. busier a b) in
    (
      omega (
        arith,
        sorts (λ a. count_for key a) aggs,
        closed-count percent (length samples) key (by_route [] samples),
        by_route-count key [] samples,
      ),
      omega (
        arith,
        sorts (λ a. row_for key a) aggs,
        closed-row percent (length samples) key (by_route [] samples),
        by_route-row key [] samples (omega arith),
      ),
      omega (
        arith,
        sorts (λ a. count_all a) aggs,
        closed-all percent (length samples) (by_route [] samples),
        by_route-all [] samples,
      ),
      Ordered-Shown (active_of percent samples)
          (sort_by-Ordered (λ a b. busier a b) busier-asym aggs),
    )
