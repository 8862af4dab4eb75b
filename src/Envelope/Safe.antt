-- ===== src/Envelope/Safe.antt =====
-- The fixed lines of proxy/errorenvelope.go under its own test, safeMessage.
use slimproxy.Base.{ℕ, ◌≡◌, refl, true, ◌==◌, ◌||◌, if-both}
use slimproxy.Text.{Text, codes}
use slimproxy.Cause.{Cause, dns, connect, tls, timeout, canceled, cause_from_text}
use slimproxy.Envelope.Message.{safe_message, line_for, classify_failure}

abbrev IsSafe : Text → Type 0
IsSafe s = safe_message s ≡ true

line_for-IsSafe : (c : Cause) (status : ℕ) → IsSafe (line_for c status)
unfolding line_for safe_message
line_for-IsSafe dns status = refl
line_for-IsSafe tls status = refl
line_for-IsSafe timeout status = refl
line_for-IsSafe canceled status = refl
line_for-IsSafe connect status = refl
line_for-IsSafe _ status = if-both IsSafe (status == 401) {x = codes "authentication failed"} refl (
    if-both IsSafe (status == 403) {x = codes "permission denied"} refl (
      if-both IsSafe (status == 404) {x = codes "not found"} refl (
        if-both IsSafe (status == 429) {x = codes "rate limited"} refl (
          if-both IsSafe (status == 502 || status == 503) {x = codes "upstream unavailable"}
            {y = codes "upstream request failed"} refl refl))))

-- Whatever the original text is, the line that stands in for it passes safeMessage.
pub classify_failure-IsSafe :
    (status : ℕ) (original : Text) → safe_message (classify_failure status original) ≡ true
unfolding classify_failure
classify_failure-IsSafe status original = line_for-IsSafe (cause_from_text original) status
