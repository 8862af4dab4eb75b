-- ===== src/Envelope/Body.antt =====
-- proxy/errorenvelope.go: the JSON body of a failure, and the one that replaces it.
use slimproxy.Base.{
  ℕ, ◌-◌, ◌/◌, ◌%◌, ◌+◌, Bool, true, false, not, ◌||◌, Option, none, some, List, [], ◌∷◌, ◌++◌, ltb,
  ◌==◌, if◌then◌else◌, any,
}
use slimproxy.Text.{Text, codes, trim_space, text_eq}
use slimproxy.Envelope.Message.{safe_message, error_type_for, classify_failure}

-- claudeError, flattened: `Type`, `Error.Type` and `Error.Message`.
pub record ClaudeError : Type 0 where
  pub kind : Text
  pub error_type : Text
  pub message : Text

-- upstreamErrorTypes.
abbrev pub upstream_error_types : List Text
upstream_error_types =
    codes "invalid_request_error"
    ∷ codes "authentication_error"
    ∷ codes "permission_error"
    ∷ codes "not_found_error"
    ∷ codes "request_too_large"
    ∷ codes "rate_limit_error"
    ∷ codes "api_error"
    ∷ codes "overloaded_error"
    ∷ codes "billing_error"
    ∷ []

abbrev pub is_empty : Text → Bool
is_empty [] = true
is_empty (c ∷ s) = false

-- What isUpstreamFailure asks of a body that encoding/json could decode.
unfoldable pub shows_upstream : ClaudeError → Bool
shows_upstream ce =
    if not (text_eq ce.kind (codes "error"))
      || not (any (λ t. text_eq ce.error_type t) upstream_error_types)
    then false
    else safe_message ce.message

abbrev pub decoded_shows_upstream : Option ClaudeError → Bool
decoded_shows_upstream none = false
decoded_shows_upstream (some ce) = shows_upstream ce

-- The hexadecimal digits that encoding/json writes.
abbrev hex_digit : ℕ → ℕ
hex_digit d = if ltb d 10 then b'0' + d else b'a' + (d - 10)

-- json.Marshal of a string's character, with the HTML characters escaped.
marshal_char : ℕ → Text
marshal_char c =
    if (c == b'"') || (c == b'\\')
    then b'\\' ∷ c ∷ []
    else if c == 8
    then codes "\\b"
    else if c == 12
    then codes "\\f"
    else if c == 10
    then codes "\\n"
    else if c == 13
    then codes "\\r"
    else if c == 9
    then codes "\\t"
    else if ltb c 0x20 || (c == b'<') || (c == b'>') || (c == b'&')
    then codes "\\u00" ++ hex_digit (c / 16) ∷ hex_digit (c % 16) ∷ []
    else if c == 0x2028
    then codes "\\u2028"
    else if c == 0x2029
    then codes "\\u2029"
    else c ∷ []

marshal_chars : Text → Text
unfolding marshal_char
marshal_chars [] = []
marshal_chars (c ∷ s) = marshal_char c ++ marshal_chars s

-- json.Marshal of a claudeError.
unfoldable pub marshal : ClaudeError → Text
unfolding marshal_chars
marshal ce =
    codes "{\"type\":\""
    ++ marshal_chars ce.kind
    ++ codes "\",\"error\":{\"type\":\""
    ++ marshal_chars ce.error_type
    ++ codes "\",\"message\":\""
    ++ marshal_chars ce.message
    ++ codes "\"}}"

-- replacementEnvelope. json.Marshal does not fail on a struct of strings, so its error branch has no
-- counterpart.
abbrev pub replacement : ℕ → Text → ClaudeError
replacement status original = record {
  kind = codes "error";
  error_type = error_type_for status;
  message = classify_failure status original;
}

unfoldable pub replacement_envelope : ℕ → Text → Text
unfolding marshal
replacement_envelope status original = marshal (replacement status original)

-- `unmarshal` is json.Unmarshal into a claudeError: none where it returns an error.
module _ (unmarshal : Text → Option ClaudeError) where
  -- isUpstreamFailure.
  unfoldable pub is_upstream_failure : Text → Bool
  unfolding shows_upstream
  is_upstream_failure body =
      if is_empty (trim_space body)
      then false
      else decoded_shows_upstream (unmarshal (trim_space body))

  -- The body that the caller receives: its own where it may be shown, the fixed one otherwise.
  unfoldable pub shown_body : ℕ → Text → Text
  shown_body status body =
      if not (is_upstream_failure body) then replacement_envelope status body else body
