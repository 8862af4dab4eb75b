-- ===== src/Envelope/Tests.antt =====
-- The theorems of proxy/errorenvelope.go at concrete responses.
use slimproxy.Base.{◌≡◌, ◌++◌, refl, true, Option, some, [], ◌∷◌, arith}
use slimproxy.Text.{Text, codes, byte_len, trim_space, text_eq, to_lower, contains}
use slimproxy.Cause.{cause_from_text, contains_any}
use slimproxy.Wire.{get_header, Header}
use slimproxy.Envelope.Message.{safe_message, classify_failure, line_for}
use slimproxy.Envelope.Body.{ClaudeError, is_upstream_failure}
use slimproxy.Envelope.Writer.{fresh, finish, heads, writes, flushes, run, itoa}
use slimproxy.Envelope.Delivery.{GoesOut, failure_delivered}

-- A decoder that reads one body.
abbrev overloaded : ClaudeError
overloaded = record {
  kind = codes "error";
  error_type = codes "overloaded_error";
  message = codes "Overloaded";
}

abbrev one_json : Text → Option ClaudeError
one_json body = some overloaded

abbrev plain : Header
plain = (codes "Content-Type", codes "text/plain" ∷ []) ∷ []

abbrev dial_failure : Text
dial_failure = codes "dial tcp 10.0.0.7:443: connect: connection refused"

itoa_zero : itoa 0 ≡ codes "0"
unfolding itoa
itoa_zero = refl

itoa_502 : itoa 502 ≡ codes "502"
unfolding itoa
itoa_502 = refl

shows_claude : is_upstream_failure one_json (codes "{}") ≡ true
unfolding is_upstream_failure trim_space text_eq safe_message
shows_claude = refl

classify_dial : classify_failure 502 dial_failure ≡ codes "upstream unreachable: connection failed"
unfolding classify_failure cause_from_text line_for to_lower trim_space contains_any
classify_dial = refl

failure_delivered_example :
    GoesOut one_json 502
      (dial_failure ++ [])
      (finish one_json (run (fresh plain) (heads 502 ∷ writes dial_failure ∷ flushes ∷ []))).calls
unfolding byte_len contains get_header
failure_delivered_example =
    failure_delivered one_json plain 502 (writes dial_failure ∷ flushes ∷ []) (omega arith) refl
      (tt, (tt, tt)) (omega arith)
