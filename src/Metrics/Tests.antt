-- ===== src/Metrics/Tests.antt =====
-- The theorems of metrics/ at concrete samples and requests.
use slimproxy.Base.{ℕ, ◌≡◌, refl, false, true, none, some, List, [], ◌∷◌, if◌then◌else◌}
use slimproxy.Text.{codes}
use slimproxy.Cause.{connect, healthy}
use slimproxy.Metrics.Sample.{Sample}
use slimproxy.Metrics.Health.{
  unreachable, classify, abandoned_after_answer, new, observe, observe_class, fold_class, degraded,
  recovered,
}
use slimproxy.Metrics.History.{history, deserved, observe_all, observe_event}

-- A request that could not reach the upstream, and one that was answered.
abbrev dead : Sample
dead = record {
  at = 0;
  account = [];
  target = [];
  model = codes "opus";
  ttft = 0;
  tokens = 0;
  failed = true;
  status = 0;
  cause = connect;
  latency = 5;
  upload = 0;
  write_block = 0;
  body_bytes = 10;
  auth = [];
  executor = [];
  cache_read = 0;
  cache_creation = 0;
  input_tokens = 0;
  quota = none;
}

abbrev alive : Sample
alive = record dead { failed = false; cause = healthy; status = 200; ttft = 3 }

abbrev outage : List (Sample × ℕ)
outage = (dead, 10) ∷ (dead, 20) ∷ (dead, 30) ∷ []

third_is_told :
    (observe (observe_all new ((dead, 10) ∷ (dead, 20) ∷ [])) dead 30).1
    ≡ some (degraded unreachable 3)
unfolding observe abandoned_after_answer observe_class classify fold_class
third_is_told = refl

recovery_is_told : (observe (observe_all new outage) alive 90).1 ≡ some (recovered unreachable 3 80)
unfolding observe abandoned_after_answer observe_class classify fold_class
recovery_is_told = refl

observe_event_example :
    let h = observe_all new outage in
    (observe h alive 90).1 ≡ (
      if abandoned_after_answer alive
      then none
      else deserved (history outage []) (classify alive) 90)
observe_event_example = observe_event outage alive 90
