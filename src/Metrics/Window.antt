-- ===== src/Metrics/Window.antt =====
-- What Collector of metrics/collector.go holds, and which of it Recent shows.
use slimproxy.Base.{
  ◌+◌, keep, leb, ℕ, zero, suc, ◌≤◌, ◌≡◌, refl, sym, ap, ◌∙◌, subst, List, [], ◌∷◌, ◌++◌,
  append_assoc, append-nil, take, drop, length, length-take, ◌==◌, arith, Bool-cases, inl, inr,
  if◌then◌else◌,
}
use mathlib.Core.List.{Perm}
use slimproxy.Metrics.Sample.{Sample}
use slimproxy.Ordering.{sort_by, Ordered, sort_by-perm, sort_by-Ordered}
use slimproxy.Metrics.Collector.{Collector, is_recent, prune_samples, take_sample, newer, recent_of}
use slimproxy.Metrics.Board.{newer-asym}

-- A collector that was handed samples, each at a moment.
unfoldable pub take_all_samples : List (Sample × ℕ) → Collector → Collector
take_all_samples [] c = c
take_all_samples ((s, now) ∷ rest) c = take_all_samples rest (take_sample now s c)

-- The samples alone, and the last of the moments.
unfoldable pub arrived : List (Sample × ℕ) → List Sample
arrived [] = []
arrived ((s, now) ∷ rest) = s ∷ arrived rest

unfoldable pub last_moment : ℕ → List (Sample × ℕ) → ℕ
last_moment now [] = now
last_moment now ((s, at) ∷ rest) = last_moment at rest

-- The moments do not go back.
unfoldable pub Forward : ℕ → List (Sample × ℕ) → Type 0
Forward now [] = Unit
Forward now ((s, at) ∷ rest) = (now ≤ at) × Forward at rest

prune_samples-append :
    (now : ℕ) (xs ys : List Sample)
    → prune_samples now (xs ++ ys) ≡ prune_samples now xs ++ prune_samples now ys
unfolding prune_samples
prune_samples-append now [] ys = refl
prune_samples-append now (x ∷ xs) ys = elim (Bool-cases (is_recent now x)) [
  | inl e ↦ rw e (ap (◌∷◌ x) (prune_samples-append now xs ys))
  | inr e ↦ rw e (prune_samples-append now xs ys)
]

-- Pruning at a moment and at a later one is pruning at the later one.
keep_later :
    (now later : ℕ) (xs : List Sample)
    → now ≤ later
    → prune_samples later (prune_samples now xs) ≡ prune_samples later xs
unfolding prune_samples is_recent
keep_later now later [] h = refl
keep_later now later (x ∷ xs) h = ground (arith, keep_later now later xs)

taken :
    (now at : ℕ) (all : List Sample) (s : Sample) (c : Collector)
    → now ≤ at
    → c.samples ≡ prune_samples now all
    → (take_sample at s c).samples ≡ prune_samples at (all ++ (s ∷ []))
unfolding take_sample
taken now at all s c h e =
    prune_samples-append at c.samples (s ∷ [])
    ∙ ap (λ xs. xs ++ prune_samples at (s ∷ [])) (ap (prune_samples at) e ∙ keep_later now at all h)
    ∙ sym (prune_samples-append at all (s ∷ []))

window_lem :
    (now : ℕ) (all : List Sample) (moves : List (Sample × ℕ)) (c : Collector)
    → Forward now moves
    → c.samples ≡ prune_samples now all
    → (take_all_samples moves c).samples
      ≡ prune_samples (last_moment now moves) (all ++ arrived moves)
unfolding take_all_samples arrived last_moment Forward
window_lem now all [] c f e = e ∙ ap (prune_samples now) (sym (append-nil all))
window_lem now all ((s, at) ∷ rest) c f e =
    window_lem at (all ++ (s ∷ [])) rest (take_sample at s c) f.1 (taken now at all s c f.0 e)
    ∙ ap (λ xs. prune_samples (last_moment at rest) xs) (append_assoc all (s ∷ []) (arrived rest))

-- The samples that began within the hour before a moment, or after it.
unfoldable pub within_hour : ℕ → List Sample → List Sample
within_hour now samples = keep (λ s. leb now (s.at + 3600000000000)) samples

prune_samples-within :
    (now : ℕ) (samples : List Sample) → prune_samples now samples ≡ within_hour now samples
unfolding prune_samples is_recent within_hour
prune_samples-within now samples = refl

-- As long as the clock does not go back, the collector holds, after any requests, exactly those that began
-- no more than an hour before the last of them was handed over, in the order of their arrival, however
-- late a long request arrives behind shorter ones.
pub take_all_samples_lem :
    (now : ℕ) (moves : List (Sample × ℕ)) (c : Collector)
    → c.samples ≡ []
    → Forward now moves
    → (take_all_samples moves c).samples ≡ within_hour (last_moment now moves) (arrived moves)
unfolding prune_samples
take_all_samples_lem now moves c e f =
    window_lem now [] moves c f (e ∙ none_held now)
    ∙ prune_samples-within (last_moment now moves) (arrived moves)
  where
    none_held : (now : ℕ) → [] ≡ prune_samples now []
    none_held now = refl

take-drop : {A : Type 0} (n : ℕ) (xs : List A) → take n xs ++ drop n xs ≡ xs
take-drop zero xs = refl
take-drop (suc n) [] = refl
take-drop (suc n) (x ∷ xs) = ap (◌∷◌ x) (take-drop n xs)

-- Recent is the beginning of a list of all samples held, the newest first, and is no longer than the cap, for
-- which 20 stands where none is set.
pub recent_of_lem :
    (cap : ℕ) (samples : List Sample)
    → (rest : List Sample) × Perm (recent_of cap samples ++ rest) samples
      × Ordered (λ a b. newer a b) (recent_of cap samples ++ rest)
      × (length (recent_of cap samples) ≤ (if cap == 0 then 20 else cap))
unfolding recent_of
recent_of_lem cap samples =
    let n = if cap == 0 then 20 else cap in
    let sorted = sort_by (λ a b. newer a b) samples in
    (
      drop n sorted,
      subst (λ xs. Perm xs samples) (sym (take-drop n sorted))
          (sort_by-perm (λ a b. newer a b) samples),
      subst (λ xs. Ordered (λ a b. newer a b) xs) (sym (take-drop n sorted))
          (sort_by-Ordered (λ a b. newer a b) newer-asym samples),
      omega (arith, length-take n sorted),
    )
