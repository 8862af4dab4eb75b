-- ===== src/Metrics/Sample.antt =====
-- metrics/collector.go: Sample, one completed request.
use slimproxy.Base.{ℕ, Bool, Option, [], ◌∷◌, ◌++◌, is_some}
use slimproxy.Text.{Text, codes}
use slimproxy.Cause.{Cause}

-- Times and durations are in nanoseconds. Quota5h is in billionths, none where the source's float is
-- negative, which says that the upstream did not report it.
pub record Sample : Type 0 where
  pub at : ℕ
  pub account : Text
  pub target : Text
  pub model : Text
  pub ttft : ℕ
  pub tokens : ℕ
  pub failed : Bool
  pub status : ℕ
  pub cause : Cause
  pub latency : ℕ
  pub upload : ℕ
  pub write_block : ℕ
  pub body_bytes : ℕ
  pub auth : Text
  pub executor : Text
  pub cache_read : ℕ
  pub cache_creation : ℕ
  pub input_tokens : ℕ
  pub quota : Option ℕ

-- HasQuota.
abbrev pub has_quota : Sample → Bool
has_quota s = is_some s.quota

route_of : Text → Text → Text → Text
route_of model account [] = model
route_of model [] (c ∷ target) = c ∷ target
route_of model (a ∷ account) (c ∷ target) = (a ∷ account) ++ codes " @ " ++ c ∷ target

-- Route.
unfoldable pub route : Sample → Text
unfolding route_of
route s = route_of s.model s.account s.target
