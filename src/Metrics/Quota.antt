-- ===== src/Metrics/Quota.antt =====
-- The quota that Snapshot of metrics/collector.go shows.
use slimproxy.Base.{
  ℕ, ◌≤◌, ◌≡◌, refl, sym, ap, ◌∙◌, subst, true, false, Option, none, some, List, [], ◌∷◌, ltb,
  arith, Bool-cases, Option-cases, inl, inr, ◌⊎◌, All,
}
use slimproxy.Metrics.Sample.{Sample}
use slimproxy.Metrics.Collector.{better, quota_by, last_quota}

-- A sample took this reading at this moment; and no reading that it took is later, or earlier, than the moment.
unfoldable pub Took : ℕ → ℕ → Sample → Type 0
Took q at s = (s.quota ≡ some q) × (s.at ≡ at)

unfoldable pub Taken : ℕ → ℕ → List Sample → Type 0
unfolding Took
Taken q at [] = ⊥
Taken q at (s ∷ samples) = Took q at s ⊎ Taken q at samples

unfoldable pub NoLater : ℕ → Sample → Type 0
NoLater at s = (q : ℕ) → s.quota ≡ some q → s.at ≤ at

-- What the latest reading is, if any.
unfoldable pub Latest : List Sample → Option (ℕ × ℕ) → Type 0
unfolding Taken NoLater
Latest samples none = All (λ s. s.quota ≡ none) samples
Latest samples (some (q, at)) = Taken q at samples × All (λ s. NoLater at s) samples

never_both : (o : Option ℕ) (q : ℕ) → o ≡ none → o ≡ some q → ⊥
never_both o q n e = cc (n, e)

unread : (at : ℕ) (s : Sample) → s.quota ≡ none → NoLater at s
unfolding NoLater
unread at s n q e = absurd (never_both s.quota q n e)

no_later : (was : ℕ) (s : Sample) → ltb was s.at ≡ false → (at : ℕ) → was ≤ at → NoLater at s
unfolding NoLater
no_later was s y at l q e = ground (arith, y, l)

-- The best of a reading and of those that follow.
Best : ℕ → ℕ → List Sample → Option (ℕ × ℕ) → Type 0
unfolding Taken NoLater
Best p was samples r =
    (q : ℕ) × (at : ℕ) × (r ≡ some (q, at))
    × (was ≤ at)
    × All (λ s. NoLater at s) samples
    × (((q ≡ p) × (at ≡ was)) ⊎ Taken q at samples)

kept :
    (p was : ℕ) (s : Sample) (samples : List Sample) (r : Option (ℕ × ℕ))
    → ((at : ℕ) → was ≤ at → NoLater at s)
    → Best p was samples r
    → Best p was (s ∷ samples) r
unfolding Best Taken
kept p was s samples r h (q, at, e, l, a, t) =
    (q, at, e, l, (h at l, a), elim t [ inl x ↦ inl x | inr x ↦ inr (inr x) ])

replaced :
    (p was q : ℕ) (s : Sample) (samples : List Sample) (r : Option (ℕ × ℕ))
    → s.quota ≡ some q
    → was ≤ s.at
    → Best q s.at samples r
    → Best p was (s ∷ samples) r
unfolding Best Taken Took NoLater
replaced p was q s samples r e w (q', at, e', l, a, t) = (
  q',
  at,
  e',
  omega (arith, w, l),
  ((λ q'' e''. l), a),
  elim t [ inl x ↦ inr (inl (e ∙ ap some (sym x.0), sym x.1)) | inr x ↦ inr (inr x) ],
)

-- What one sample does to the best reading so far.
unmoved :
    (p was : ℕ) (o : Option ℕ) (at : ℕ)
    → o ≡ none
    → better (λ at was. ltb was at) (some (p, was)) o at ≡ some (p, was)
unfolding better
unmoved p was o at n = rw n refl

earlier :
    (p was q : ℕ) (o : Option ℕ) (at : ℕ)
    → o ≡ some q
    → ltb was at ≡ false
    → better (λ at was. ltb was at) (some (p, was)) o at ≡ some (p, was)
unfolding better
earlier p was q o at e y = rw e (rw y refl)

later :
    (p was q : ℕ) (o : Option ℕ) (at : ℕ)
    → o ≡ some q
    → ltb was at ≡ true
    → better (λ at was. ltb was at) (some (p, was)) o at ≡ some (q, at)
unfolding better
later p was q o at e y = rw e (rw y refl)

first_none : (o : Option ℕ) (at : ℕ) → o ≡ none → better (λ at was. ltb was at) none o at ≡ none
unfolding better
first_none o at n = rw n refl

first_some :
    (q : ℕ) (o : Option ℕ) (at : ℕ)
    → o ≡ some q
    → better (λ at was. ltb was at) none o at ≡ some (q, at)
unfolding better
first_some q o at e = rw e refl

followed :
    (p was : ℕ) (samples : List Sample)
    → Best p was samples (quota_by (λ at was. ltb was at) (some (p, was)) samples)
unfolding quota_by Best
followed p was [] = (p, was, refl, omega arith, tt, inl (refl, refl))
followed p was (s ∷ samples) =
    let Rest : Option (ℕ × ℕ) → Type 0 =
      λ b. Best p was (s ∷ samples) (quota_by (λ at was. ltb was at) b samples) in
    elim (Option-cases s.quota) [
      | inl n ↦
          subst Rest (sym (unmoved p was s.quota s.at n))
            (kept p was s samples _ (λ at l. unread at s n) (followed p was samples))
      | inr (q, e) ↦ elim (Bool-cases (ltb was s.at)) [
        | inl y ↦
            subst Rest (sym (later p was q s.quota s.at e y))
              (replaced p was q s samples _ e (ground (arith, y)) (followed q s.at samples))
        | inr y ↦
            subst Rest (sym (earlier p was q s.quota s.at e y))
              (kept p was s samples _ (no_later was s y) (followed p was samples))
      ]
    ]

from_first :
    (p was : ℕ) (s : Sample) (samples : List Sample) (r : Option (ℕ × ℕ))
    → s.quota ≡ some p
    → s.at ≡ was
    → Best p was samples r
    → Latest (s ∷ samples) r
unfolding Best Latest Taken Took NoLater
from_first p was s samples r e w (q, at, e', l, a, t) =
    subst (λ r. Latest (s ∷ samples) r) (sym e')
      (
        elim t [ inl x ↦ inl (e ∙ ap some (sym x.0), w ∙ sym x.1) | inr x ↦ inr x ],
        ((λ q'' e''. omega (arith, w, l)), a),
      )

skipped :
    (s : Sample) (samples : List Sample) (r : Option (ℕ × ℕ))
    → s.quota ≡ none
    → Latest samples r
    → Latest (s ∷ samples) r
unfolding Latest Taken NoLater
skipped s samples none n l = (n, l)
skipped s samples (some (q, at)) n l = (inr l.0, (unread at s n, l.1))

-- The quota that Snapshot shows is a reading of a sample held than which no sample with a reading is later, however
-- the samples arrived, and is unknown only where no sample has one.
pub last_quota_lem : (samples : List Sample) → Latest samples (last_quota samples)
unfolding last_quota Latest quota_by
last_quota_lem [] = tt
last_quota_lem (s ∷ samples) =
    let Rest : Option (ℕ × ℕ) → Type 0 =
      λ b. Latest (s ∷ samples) (quota_by (λ at was. ltb was at) b samples) in
    elim (Option-cases s.quota) [
      | inl n ↦
          subst Rest (sym (first_none s.quota s.at n))
            (skipped s samples _ n (last_quota_lem samples))
      | inr (q, e) ↦
          subst Rest (sym (first_some q s.quota s.at e))
            (from_first q s.at s samples _ e refl (followed q s.at samples))
    ]
