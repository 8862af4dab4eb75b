-- ===== src/Metrics/History.antt =====
-- Health of metrics/health.go against the history of samples that it has seen.
use slimproxy.Base.{
  ℕ, suc, ◌-◌, ◌≤◌, ◌≡◌, refl, subst, Bool, true, false, Option, none, some, List, [], ◌∷◌, ltb,
  leb, if◌then◌else◌, is_some, arith, Bool-cases, inl, inr,
}
use slimproxy.Metrics.Sample.{Sample}
use slimproxy.Metrics.Health.{
  FailureClass, fine, same_class, is_fine, classify, is_alert_step, alert_steps, Event, degraded,
  recovered, Health, new, abandoned_after_answer, fold_class, observe_class, observe,
}

-- The samples that bear on the upstream's health, as their classes and times,
-- newest first.
abbrev pub history : List (Sample × ℕ) → List (FailureClass × ℕ) → List (FailureClass × ℕ)
history [] past = past
history ((s, now) ∷ later) past =
    if abandoned_after_answer s
    then history later past
    else history later ((classify s, now) ∷ past)

-- How many of the newest classes are `c`, without a break.
abbrev pub leading : FailureClass → List (FailureClass × ℕ) → ℕ
leading c [] = 0
leading c ((d, t) ∷ past) = let more = leading c past in if same_class d c then suc more else 0

-- The failure run that the history ends in: its class and its length.
abbrev pub run_class : List (FailureClass × ℕ) → FailureClass
run_class [] = fine
run_class ((c, t) ∷ past) = c

abbrev pub run_length : List (FailureClass × ℕ) → ℕ
run_length [] = 0
run_length ((c, t) ∷ past) = if is_fine c then 0 else suc (leading c past)

-- When it began: the time of the oldest of the newest samples of one class.
abbrev pub run_start : List (FailureClass × ℕ) → ℕ
run_start [] = 0
run_start ((c, t) ∷ past) =
    let before = run_start past in if same_class c (run_class past) then before else t

-- What the state says of the history.
pub record Tells (h : Health) (past : List (FailureClass × ℕ)) : Type 0 where
  pub streak_told : h.streak ≡ run_length past
  pub class_told : h.class ≡ run_class past
  pub since_told : is_fine (run_class past) ≡ false → h.since ≡ run_start past
  pub alerted_told : h.alerted ≡ leb 3 (run_length past)

-- The event that a sample of class `c` at time `now` deserves after such a history.
abbrev pub deserved : List (FailureClass × ℕ) → FailureClass → ℕ → Option Event
deserved past c now =
    if is_fine c
    then if leb 3 (run_length past)
      then some (recovered (run_class past) (run_length past) (now - run_start past))
      else none
    else if is_alert_step (run_length ((c, now) ∷ past))
    then some (degraded c (run_length ((c, now) ∷ past)))
    else none

abbrev pub observe_all : Health → List (Sample × ℕ) → Health
observe_all h [] = h
observe_all h ((s, now) ∷ later) = observe_all (observe h s now).0 later

same_class_eq : (a b : FailureClass) → same_class a b ≡ true → a ≡ b
same_class_eq a b h = ground arith

same_class_refl : (a : FailureClass) → same_class a a ≡ true
same_class_refl a = ground arith

-- The run after a class that is a failure.
run_length-cons :
    (h : Health) (past : List (FailureClass × ℕ)) (c : FailureClass) (now : ℕ)
    → Tells h past
    → is_fine c ≡ false
    → run_length ((c, now) ∷ past) ≡ (if same_class c h.class then suc h.streak else 1)
run_length-cons h [] c now t f = ground (arith, t)
run_length-cons h ((d, u) ∷ past) c now t f =
    ground (arith, t, same_class_eq d c, same_class_eq c d)

-- A run that is three long is of failures.
long_is_failing :
    (past : List (FailureClass × ℕ))
    → leb 3 (run_length past) ≡ true
    → is_fine (run_class past) ≡ false
long_is_failing [] h = absurd (cc h)
long_is_failing ((c, t) ∷ past) h = ground (arith, h)

-- A failure, with the length `n` of the run that it ends.
module _ (h : Health) (past : List (FailureClass × ℕ)) (c : FailureClass) (now : ℕ)
    (t : Tells h past) (f : is_fine c ≡ false) (n : ℕ)
    (e : n ≡ (if same_class c h.class then suc h.streak else 1)) where
  folded : ((fold_class h c now).streak ≡ n) × ((fold_class h c now).class ≡ c)
  unfolding fold_class
  folded = ground (arith, f, e, same_class_eq c h.class)

  folded_since : (fold_class h c now).since ≡ run_start ((c, now) ∷ past)
  unfolding fold_class
  folded_since = ground (arith, f, t, same_class_eq c h.class, same_class_eq c (run_class past))

  folded_alerted : (if is_alert_step n then true else (fold_class h c now).alerted) ≡ leb 3 n
  unfolding fold_class
  folded_alerted = ground (arith, f, e, t)

  failing_observed :
      observe_class h c now
      ≡ let g = fold_class h c now in
        if is_alert_step g.streak
        then (record g { alerted = true }, some (degraded g.class g.streak))
        else (g, none)
  unfolding observe_class
  failing_observed = ground (arith, f)

  module _ (m : run_length ((c, now) ∷ past) ≡ n) where
    failing-Tells : Tells (observe_class h c now).0 ((c, now) ∷ past)
    failing-Tells = rw failing_observed (ground (arith, folded, folded_since, folded_alerted, m))

    failing_event : (observe_class h c now).1 ≡ deserved past c now
    failing_event = rw failing_observed (ground (arith, folded, m, f))

observe_class-Tells :
    (h : Health) (past : List (FailureClass × ℕ)) (c : FailureClass) (now : ℕ)
    → Tells h past
    → Tells (observe_class h c now).0 ((c, now) ∷ past)
      × ((observe_class h c now).1 ≡ deserved past c now)
unfolding observe_class fold_class
observe_class-Tells h past c now t = elim (Bool-cases (is_fine c)) [
  | inl f ↦ (ground (arith, t, f, same_class_eq c fine), ground (arith, t, f, long_is_failing past))
  | inr f ↦ (
    failing-Tells h past c now t f (run_length ((c, now) ∷ past)) (run_length-cons h past c now t f)
        refl,
    failing_event h past c now t f (run_length ((c, now) ∷ past)) (run_length-cons h past c now t f)
        refl,
  )
]

-- The state after the samples, from a state that tells a past.
observe_all-Tells :
    (h : Health) (past : List (FailureClass × ℕ)) (samples : List (Sample × ℕ))
    → Tells h past
    → Tells (observe_all h samples) (history samples past)
unfolding observe
observe_all-Tells h past [] t = t
observe_all-Tells h past ((s, now) ∷ later) t = elim (Bool-cases (abandoned_after_answer s)) [
  | inl skip ↦ rw skip (observe_all-Tells h past later t)
  | inr seen ↦ rw seen (
      observe_all-Tells (observe_class h (classify s) now).0 ((classify s, now) ∷ past) later
        (observe_class-Tells h past (classify s) now t).0)
]

new-Tells : Tells new []
new-Tells = ground arith

-- After any samples the state tells the failure run that they end in, the abandoned ones left out:
-- its class, its length, when it began, and that it was announced exactly if it is three long or longer.
pub observe_all_lem :
    (samples : List (Sample × ℕ)) → Tells (observe_all new samples) (history samples [])
observe_all_lem samples = observe_all-Tells new [] samples new-Tells

-- The operator is told of the next sample exactly what it deserves by that history: a success ends a
-- run that was announced, with its class, its length, and the time since
-- its first failure; a failure is announced where its run
-- reaches a step of the ladder; an abandoned stream says nothing.
pub observe_event :
    (samples : List (Sample × ℕ)) (s : Sample) (now : ℕ)
    → let h = observe_all new samples in
      (observe h s now).1
      ≡ (if abandoned_after_answer s then none else deserved (history samples []) (classify s) now)
unfolding observe
observe_event samples s now = elim (Bool-cases (abandoned_after_answer s)) [
  | inl skip ↦ rw skip
  | inr seen ↦
      rw seen
        (observe_class-Tells (observe_all new samples) (history samples []) (classify s) now
          (observe_all_lem samples)).1
]

-- How many events a run of failures of one class makes, over the times of the failures.
abbrev pub announcements : Health → FailureClass → List ℕ → ℕ
announcements h c [] = 0
announcements h c (now ∷ times) =
    let rest = announcements (observe_class h c now).0 c times in
    if is_some (observe_class h c now).1 then suc rest else rest

-- The steps of the ladder above a length.
abbrev above : ℕ → List ℕ → ℕ
above n [] = 0
above n (s ∷ steps) = let rest = above n steps in if ltb n s then suc rest else rest

rungs_above : ℕ → ℕ
rungs_above n = above n alert_steps

climb :
    (n : ℕ)
    → (if is_alert_step (suc n) then suc (rungs_above (suc n)) else rungs_above (suc n))
      ≤ rungs_above n
unfolding rungs_above
climb n = ground arith

rungs_above-le : (n : ℕ) → rungs_above n ≤ 6
unfolding rungs_above
rungs_above-le n = ground arith

count_step :
    (a b : Bool) (x y z : ℕ)
    → a ≡ b
    → x ≤ y
    → (if b then suc y else y) ≤ z
    → (if a then suc x else x) ≤ z
count_step true true x y z e h k = omega arith
count_step false false x y z e h k = omega arith
count_step true false x y z e h k = cc
count_step false true x y z e h k = cc

continues :
    (h : Health) (c : FailureClass) (now : ℕ)
    → is_fine c ≡ false
    → h.class ≡ c
    → ((observe_class h c now).0.class ≡ c)
      × ((observe_class h c now).0.streak ≡ suc h.streak)
      × (is_some (observe_class h c now).1 ≡ is_alert_step (suc h.streak))
unfolding observe_class fold_class
continues h c now f e = ground (arith, f, e, same_class_refl c)

announcements-le :
    (h : Health) (c : FailureClass) (times : List ℕ)
    → is_fine c ≡ false
    → h.class ≡ c
    → announcements h c times ≤ rungs_above h.streak
announcements-le h c [] f e = omega arith
announcements-le h c (now ∷ times) f e =
    let (same, longer, says) = continues h c now f e in
    let g = (observe_class h c now).0 in
    count_step _ _ _ (rungs_above (suc h.streak)) _ says
      (subst (λ n. announcements g c times ≤ rungs_above n) longer
        (announcements-le g c times f same))
      (climb h.streak)

-- An outage is announced six times at most, however many requests it takes down: one run of
-- failures of one class makes no more events than the ladder has steps.
pub outage_quiet :
    (h : Health) (c : FailureClass) (times : List ℕ)
    → is_fine c ≡ false
    → h.class ≡ c
    → announcements h c times ≤ 6
outage_quiet h c times f e = omega (arith, announcements-le h c times f e, rungs_above-le h.streak)
