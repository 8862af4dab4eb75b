-- ===== src/Journal/Paths.antt =====
-- journal/event.go: what a path and a completed request become in the journal.
use slimproxy.Base.{
  ℕ, suc, zero, ◌+◌, ◌-◌, ◌≤◌, ◌<◌, ◌≡◌, ◌≢◌, refl, sym, ap, subst, ◌∙◌, true, false, ◌&&◌, List,
  [], ◌∷◌, ◌++◌, ltb, if◌then◌else◌, length, take, All, arith, append-nil, length-append,
  length-take, take-append, take-all, All-append, Bool-cases, if-both, inl, inr,
}
use slimproxy.Metrics.Sample.{Sample}
use slimproxy.Journal.Event.{
  failed, was_canceled, noise, is_canceled, strip_query, normalise_path, ellipsis, max_path,
  from_sample,
}

-- No byte of the path is a question mark.
abbrev pub NoQuery : List ℕ → Type 0
NoQuery p = All (λ c. c ≢ b'?') p

strip_query-NoQuery : (p : List ℕ) → NoQuery (strip_query p)
unfolding strip_query
strip_query-NoQuery [] = tt
strip_query-NoQuery (c ∷ p) = ground (arith, strip_query-NoQuery p)

strip_query-same : (p : List ℕ) → NoQuery p → strip_query p ≡ p
unfolding strip_query
strip_query-same [] ok = refl
strip_query-same (c ∷ p) ok = ground (arith, ok.0, strip_query-same p ok.1)

take-NoQuery : (n : ℕ) (p : List ℕ) → NoQuery p → NoQuery (take n p)
take-NoQuery zero p ok = tt
take-NoQuery (suc n) [] ok = tt
take-NoQuery (suc n) (c ∷ p) ok = (ok.0, take-NoQuery n p ok.1)

ellipsis-NoQuery : NoQuery ellipsis
ellipsis-NoQuery =
    ((λ e. omega (arith, e)), ((λ e. omega (arith, e)), ((λ e. omega (arith, e)), tt)))

take_twice : (n : ℕ) (p : List ℕ) → take n (take n p) ≡ take n p
take_twice n p = take-all n (take n p) (omega (arith, length-take n p))

-- A path cut at `n` bytes and marked is cut at the same place when it is cut again.
cut_again : (n : ℕ) (p mark : List ℕ) → n ≤ length p → take n (take n p ++ mark) ≡ take n p
cut_again n p mark h =
    let none_left : n - length (take n p) ≡ 0 = omega (arith, length-take n p) in
    take-append n (take n p) mark
    ∙ ap (λ k. take n (take n p) ++ take k mark) none_left
    ∙ append-nil (take n (take n p))
    ∙ take_twice n p

module _ (p : List ℕ) where
  normalise_path-NoQuery : NoQuery (normalise_path p)
  unfolding normalise_path
  normalise_path-NoQuery =
      if-both NoQuery (ltb max_path (length (strip_query p)))
        (All-append (λ c. c ≢ b'?') (take max_path (strip_query p)) ellipsis
          (take-NoQuery max_path (strip_query p) (strip_query-NoQuery p)) ellipsis-NoQuery)
        (strip_query-NoQuery p)

-- A list cut at `n` elements and marked.
cut : ℕ → List ℕ → List ℕ → List ℕ
cut n mark p = if ltb n (length p) then take n p ++ mark else p

length-cut : (n : ℕ) (mark p : List ℕ) → length (cut n mark p) ≤ n + length mark
unfolding cut
length-cut n mark p = elim (Bool-cases (ltb n (length p))) [
  | inl long ↦ rw long (omega (arith, length-append (take n p) mark, length-take n p))
  | inr short ↦ rw short (ground (arith, short))
]

cut-cut : (n : ℕ) (mark p : List ℕ) → 0 < length mark → cut n mark (cut n mark p) ≡ cut n mark p
unfolding cut
cut-cut n mark p some_mark = elim (Bool-cases (ltb n (length p))) [
  | inl long ↦
      let fits : n ≤ length p = ground (arith, long) in
      let longer : ltb n (length (take n p ++ mark)) ≡ true =
        ground (arith, length-append (take n p) mark, length-take n p, fits, some_mark) in
      rw (long, longer) (ap (λ q. q ++ mark) (cut_again n p mark fits))
  | inr short ↦ rw (short, short) refl
]

normalise_path-cut : (p : List ℕ) → normalise_path p ≡ cut max_path ellipsis (strip_query p)
unfolding normalise_path cut
normalise_path-cut p = refl

-- A path on record has no query and at most 123 bytes, and recording it again changes nothing.
pub normalise_path_lem :
    (p : List ℕ)
    → All (λ c. c ≢ b'?') (normalise_path p)
      × (length (normalise_path p) ≤ 123)
      × (normalise_path (normalise_path p) ≡ normalise_path p)
normalise_path_lem p = (
  normalise_path-NoQuery p,
  subst (λ q. length q ≤ 123) (sym (normalise_path-cut p))
      (length-cut max_path ellipsis (strip_query p)),
  normalise_path-cut (normalise_path p)
      ∙ ap (cut max_path ellipsis) (strip_query-same (normalise_path p) (normalise_path-NoQuery p))
      ∙ ap (cut max_path ellipsis) (normalise_path-cut p)
      ∙ cut-cut max_path ellipsis (strip_query p) (omega arith)
      ∙ sym (normalise_path-cut p),
)

-- The journal's row of a completed request is a failure exactly if the request failed, a client's
-- going away exactly if that is the cause of the failure, never noise, and gives a status and a cause
-- to failures only.
pub from_sample_lem :
    (s : Sample)
    → (failed (from_sample s) ≡ s.failed)
      × (was_canceled (from_sample s) ≡ (s.failed && is_canceled s.cause))
      × (noise (from_sample s) ≡ false)
      × ((from_sample s).status ≡ (if s.failed then s.status else 0))
unfolding failed was_canceled noise from_sample
from_sample_lem s = ground arith
