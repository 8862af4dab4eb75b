-- ===== src/Journal/Sums.antt =====
-- What the loop of Summarise in journal/reader.go counts.
use slimproxy.Base.{ℕ, ◌+◌, ◌≡◌, ◌∙◌, Bool, not, ◌&&◌, List, [], ◌∷◌, ◌==◌, if◌then◌else◌, arith}
use slimproxy.Journal.Event.{Event, is_request, is_reject, failed, was_canceled, noise}
use slimproxy.Journal.Reader.{weight}
use slimproxy.Journal.Summary.{
  Sums, no_sums, status_count, bump, count_event, count_events, summarise,
}

-- A failure that is not the client's going away.
abbrev pub is_failure : Event → Bool
is_failure e = failed e && not (was_canceled e)

abbrev pub sum_of : (Event → ℕ) → List Event → ℕ
sum_of val [] = 0
sum_of val (e ∷ es) = val e + sum_of val es

abbrev pub one_if : Bool → ℕ
one_if b = if b then 1 else 0

-- A field that each event adds its share to.
count_events-sum :
    (field : Sums → ℕ) (val : Event → ℕ)
    → ((s : Sums) (e : Event) → field (count_event s e) ≡ field s + val e)
    → (s : Sums) (es : List Event) → field (count_events s es) ≡ field s + sum_of val es
unfolding count_events
count_events-sum field val step s [] = omega arith
count_events-sum field val step s (e ∷ es) =
    omega (arith, count_events-sum field val step (count_event s e) es, step s e)

bump-count :
    (st other : ℕ) (m : List (ℕ × ℕ))
    → status_count other (bump st m) ≡ status_count other m + one_if (st == other)
bump-count st other [] = ground arith
bump-count st other ((j, n) ∷ m) = ground (arith, bump-count st other m)

requests-step :
    (s : Sums) (e : Event) → (count_event s e).requests ≡ s.requests + one_if (is_request e.kind)
unfolding count_event
requests-step s e = ground arith

failures-step :
    (s : Sums) (e : Event) → (count_event s e).failures ≡ s.failures + one_if (is_failure e)
unfolding count_event was_canceled failed
failures-step s e = ground arith

canceled-step :
    (s : Sums) (e : Event) → (count_event s e).canceled ≡ s.canceled + one_if (was_canceled e)
unfolding count_event was_canceled failed
canceled-step s e = ground arith

rejects-step :
    (s : Sums) (e : Event)
    → (count_event s e).rejects ≡ s.rejects + (if is_reject e.kind then weight e else 0)
unfolding count_event
rejects-step s e = ground arith

noises-step :
    (s : Sums) (e : Event) → (count_event s e).noises ≡ s.noises + (if noise e then weight e else 0)
unfolding count_event noise
noises-step s e = ground arith

by_status-step :
    (st : ℕ) (s : Sums) (e : Event)
    → status_count st (count_event s e).by_status
      ≡ status_count st s.by_status + one_if (is_failure e && (e.status == st))
unfolding count_event was_canceled failed
by_status-step st s e = ground (arith, bump-count e.status st s.by_status)

-- The counts under a listing are those of the events listed: the requests, the failures without the
-- client's cancellations, the cancellations, the failures under each status, and the refused
-- requests that the reject rows and the noise rows stand for.
pub summarise_counts :
    (es : List Event) (st : ℕ)
    → let s = (summarise es).sums in
      (s.requests ≡ sum_of (λ e. one_if (is_request e.kind)) es)
      × (s.failures ≡ sum_of (λ e. one_if (is_failure e)) es)
      × (s.canceled ≡ sum_of (λ e. one_if (was_canceled e)) es)
      × (status_count st s.by_status ≡ sum_of (λ e. one_if (is_failure e && (e.status == st))) es)
      × (s.rejects ≡ sum_of (λ e. if is_reject e.kind then weight e else 0) es)
      × (s.noises ≡ sum_of (λ e. if noise e then weight e else 0) es)
unfolding summarise
summarise_counts es st = (
  count_events-sum (λ s. s.requests) _ requests-step no_sums es ∙ omega arith,
  count_events-sum (λ s. s.failures) _ failures-step no_sums es ∙ omega arith,
  count_events-sum (λ s. s.canceled) _ canceled-step no_sums es ∙ omega arith,
  count_events-sum (λ s. status_count st s.by_status) _ (by_status-step st) no_sums es
      ∙ omega arith,
  count_events-sum (λ s. s.rejects) _ rejects-step no_sums es ∙ omega arith,
  count_events-sum (λ s. s.noises) _ noises-step no_sums es ∙ omega arith,
)
