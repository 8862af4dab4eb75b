-- ===== src/Metrics/Health.antt =====
-- metrics/health.go: Health, which turns a stream of samples into the few statements worth making.
use slimproxy.Base.{
  ℕ, ◌+◌, ◌-◌, Bool, true, false, not, ◌&&◌, Option, none, some, List, [], ◌∷◌, ltb, ◌==◌,
  if◌then◌else◌, any,
}
use slimproxy.Cause.{Cause, healthy, dns, connect, tls, timeout, canceled, upstream, other}
use slimproxy.Metrics.Sample.{Sample}

-- FailureClass.
pub data FailureClass : Type 0 where
  fine unreachable quota_limited upstream_error : FailureClass

abbrev class_code : FailureClass → ℕ
class_code fine = 0
class_code unreachable = 1
class_code quota_limited = 2
class_code upstream_error = 3

abbrev pub same_class : FailureClass → FailureClass → Bool
same_class a b = class_code a == class_code b

abbrev pub is_fine : FailureClass → Bool
is_fine c = same_class c fine

-- classify.
unfoldable pub classify : Sample → FailureClass
classify s =
    if not s.failed
    then fine
    else if s.status == 0
    then unreachable
    else if s.status == 429
    then quota_limited
    else upstream_error

-- alertSteps and isAlertStep.
abbrev pub alert_steps : List ℕ
alert_steps = 3 ∷ 10 ∷ 30 ∷ 100 ∷ 300 ∷ 1000 ∷ []

abbrev pub is_alert_step : ℕ → Bool
is_alert_step n = any (λ s. n == s) alert_steps

-- HealthEvent: a degradation, or a recovery with how long the failures lasted.
pub data Event : Type 0 where
  degraded : FailureClass → ℕ → Event
  recovered : FailureClass → ℕ → ℕ → Event

-- Health, without the lock and the callback; `observe` returns the event that notify is called with.
pub record Health : Type 0 where
  pub streak : ℕ
  pub class : FailureClass
  pub since : ℕ
  pub alerted : Bool

-- NewHealth.
abbrev pub new : Health
new = record { streak = 0; class = fine; since = 0; alerted = false }

abbrev is_canceled : Cause → Bool
is_canceled canceled = true
is_canceled healthy = false
is_canceled dns = false
is_canceled connect = false
is_canceled tls = false
is_canceled timeout = false
is_canceled upstream = false
is_canceled other = false

-- abandonedAfterAnswer.
unfoldable pub abandoned_after_answer : Sample → Bool
abandoned_after_answer s = is_canceled s.cause && ltb 0 s.ttft

-- The switch of Observe on the state, for a sample of the class at time `now`.
unfoldable pub fold_class : Health → FailureClass → ℕ → Health
fold_class h class now =
    if is_fine class
    then record h { streak = 0; class = fine; alerted = false }
    else if not (same_class class h.class)
    then record { streak = 1; class = class; since = now; alerted = false }
    else record h { streak = h.streak + 1 }

-- The rest of Observe: the state with its alert raised, and the event.
announce : Health → Health → FailureClass → ℕ → Health × Option Event
announce before h class now =
    if is_fine class
    then (
      h,
      if before.alerted
          then some (recovered before.class before.streak (now - before.since))
          else none,
    )
    else if is_alert_step h.streak
    then (record h { alerted = true }, some (degraded h.class h.streak))
    else (h, none)

unfoldable pub observe_class : Health → FailureClass → ℕ → Health × Option Event
unfolding announce
observe_class h class now = announce h (fold_class h class now) class now

-- Observe, at time `now`.
unfoldable pub observe : Health → Sample → ℕ → Health × Option Event
observe h s now = if abandoned_after_answer s then (h, none) else observe_class h (classify s) now
