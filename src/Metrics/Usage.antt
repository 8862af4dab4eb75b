-- ===== src/Metrics/Usage.antt =====
-- metrics/collector.go: SampleFrom and what it calls, and metrics/nettimings.go: NetTimings.
use slimproxy.Base.{
  ℕ, zero, suc, ◌+◌, ◌-◌, ◌/◌, Bool, not, ◌&&◌, ◌||◌, Option, none, some, [], ◌∷◌, ◌++◌, ltb, leb,
  ◌==◌, if◌then◌else◌, any,
}
use slimproxy.Text.{Text, codes, trim_space, byte_len, rune_len}
use slimproxy.Text.Split.{is_filled}
use slimproxy.Cause.{Cause, healthy, cause_from}
use slimproxy.Metrics.Sample.{Sample}

-- NetTimings, in nanoseconds and bytes; a field that is 0 was not seen.
pub record NetTimings : Type 0 where
  pub started : ℕ
  pub body_done : ℕ
  pub write_block : ℕ
  pub body_bytes : ℕ

-- NewNetTimings.
unfoldable pub new_timings : ℕ → NetTimings
new_timings now = record { started = now; body_done = 0; write_block = 0; body_bytes = 0 }

-- MarkBodyDone: the first call wins, and no time is less than 1.
unfoldable pub mark_body_done : ℕ → NetTimings → NetTimings
mark_body_done now n =
    let ns = if ltb (now - n.started) 1 then 1 else now - n.started in
    if n.body_done == 0 then record n { body_done = ns } else n

-- AddWriteBlock.
unfoldable pub add_write_block : ℕ → NetTimings → NetTimings
add_write_block d n = if ltb 0 d then record n { write_block = n.write_block + d } else n

-- AddBodyBytes.
unfoldable pub add_body_bytes : ℕ → NetTimings → NetTimings
add_body_bytes b n = if ltb 0 b then record n { body_bytes = n.body_bytes + b } else n

-- The record of a finished request, as the third-party server publishes it: what SampleFrom reads of it. A
-- breakdown of tokens says whether it is valid, whether it is complete, and its total.
pub record Usage : Type 0 where
  pub requested_at : ℕ
  pub source : Text
  pub provider : Text
  pub model : Text
  pub ttft : ℕ
  pub latency : ℕ
  pub total_tokens : ℕ
  pub cache_read_tokens : ℕ
  pub cache_creation_tokens : ℕ
  pub is_valid : Bool
  pub is_complete : Bool
  pub input_total : ℕ
  pub failed : Bool
  pub fail_status : ℕ
  pub fail_body : Text
  pub auth_id : Text
  pub executor_type : Text
  pub quota_header : Option Text

-- trustedInputTokens.
unfoldable pub trusted_input_tokens : Usage → ℕ
trusted_input_tokens u = if not u.is_valid || not u.is_complete then 0 else u.input_total

-- causeOf.
unfoldable pub cause_of : Usage → Cause
cause_of u = if not u.failed then healthy else cause_from u.fail_status u.fail_body

-- strings.TrimSuffix of a percent sign.
unfoldable pub without_percent : Text → Text
without_percent [] = []
without_percent (c ∷ []) = if c == b'%' then [] else c ∷ []
without_percent (c ∷ d ∷ s) = c ∷ without_percent (d ∷ s)

-- A reading in billionths, of a whole where it is above it.
unfoldable pub clamp : ℕ → ℕ
clamp v =
    let w = if ltb 1000000000 v then v / 100 else v in if ltb 1000000000 w then 1000000000 else w

module _ (parse_float : Text → Option (Bool × ℕ)) where
  unfoldable pub of_parsed : Option (Bool × ℕ) → Option ℕ
  unfolding clamp
  of_parsed none = none
  of_parsed (some (negative, v)) = if negative && ltb 0 v then none else some (clamp v)

  -- quotaFromHeaders: strconv.ParseFloat, a sign and billionths, is a parameter.
  unfoldable pub quota_from_headers : Option Text → Option ℕ
  unfolding of_parsed without_percent
  quota_from_headers none = none
  quota_from_headers (some header) =
      let raw = trim_space header in
      if not (is_filled raw) then none else of_parsed (parse_float (without_percent raw))

-- The bytes of a rune that is cut, which are no text: a reader takes each for U+FFFD.
unfoldable pub broken_bytes : ℕ → Text
broken_bytes zero = []
broken_bytes (suc n) = 0xFFFD ∷ broken_bytes n

-- A slice s[:n] of a string.
unfoldable pub first_bytes : ℕ → Text → Text
unfolding broken_bytes
first_bytes n [] = []
first_bytes n (c ∷ s) =
    let rest = first_bytes (n - rune_len c) s in
    if leb (rune_len c) n then c ∷ rest else broken_bytes n

module _ (digest : Text → Text) where
  unfoldable pub redact_trimmed : Text → Text
  unfolding first_bytes
  redact_trimmed s =
      if not (is_filled s) || any (λ c. c == b'@') s
      then s
      else if leb (byte_len s) 4
      then codes "***" ++ digest s
      else first_bytes 4 s ++ (codes "***" ++ digest s)

  -- redactAccount: the four digits of the hash are a parameter.
  unfoldable pub redact_account : Text → Text
  unfolding redact_trimmed
  redact_account s = redact_trimmed (trim_space s)

-- SampleFrom, at the moment `now`.
unfoldable pub sample_from : (Text → Option (Bool × ℕ)) → (Text → Text) → ℕ → Usage → Sample
unfolding quota_from_headers redact_account cause_of trusted_input_tokens
sample_from parse_float digest now u = record {
  at = if u.requested_at == 0 then now else u.requested_at;
  account = redact_account digest u.source;
  target = u.provider;
  model = u.model;
  ttft = u.ttft;
  tokens = u.total_tokens;
  failed = u.failed;
  status = u.fail_status;
  cause = cause_of u;
  latency = u.latency;
  upload = 0;
  write_block = 0;
  body_bytes = 0;
  auth = u.auth_id;
  executor = u.executor_type;
  cache_read = u.cache_read_tokens;
  cache_creation = u.cache_creation_tokens;
  input_tokens = trusted_input_tokens u;
  quota = quota_from_headers parse_float u.quota_header;
}
