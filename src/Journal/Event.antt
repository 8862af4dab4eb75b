-- ===== src/Journal/Event.antt =====
-- journal/event.go: Event, one line of the journal, and what it counts as; and journal/writer.go's
-- FromSample, which makes one of a completed request.
use slimproxy.Base.{
  ℕ, ◌/◌, Bool, true, false, not, ◌&&◌, Option, none, some, List, [], ◌∷◌, ◌++◌, ltb, ◌==◌,
  if◌then◌else◌, length, take,
}
use slimproxy.Text.{Text}
use slimproxy.Cause.{Cause, healthy, canceled}
use slimproxy.Metrics.Sample.{Sample, route}

-- Kind.
pub data Kind : Type 0 where
  on_request on_reject on_proxy on_tunnel on_cred on_doctor on_fidelity on_health : Kind

-- Source; `unknown_source` is the empty string, an absent field.
pub data Source : Type 0 where
  unknown_source local tunnel remote : Source

-- Event. Times are in nanoseconds, 0 for the zero time, and a quota in billionths; a text or a number
-- that the line leaves out is empty or 0, and a pointer that it leaves out is none.
pub record Event : Type 0 where
  pub at : ℕ
  pub kind : Kind
  pub route : Text
  pub model : Text
  pub ok : Option Bool
  pub status : ℕ
  pub ttft_ms : ℕ
  pub latency_ms : ℕ
  pub upload_ms : ℕ
  pub write_block_ms : ℕ
  pub in_kb : ℕ
  pub tokens : ℕ
  pub cache_read : ℕ
  pub cache_creation : ℕ
  pub cause : Cause
  pub auth : Text
  pub exec : Text
  pub quota : Option ℕ
  pub path : Text
  pub method : Text
  pub count : ℕ
  pub src : Source
  pub ua_client : Text
  pub system_blocks : ℕ
  pub cache_controls : ℕ
  pub messages : ℕ
  pub tools : ℕ
  pub thinking : Bool
  pub stream : Bool
  pub body_kb : ℕ
  pub state : Text
  pub level : Text
  pub detail : Text

-- The event with nothing but its time and its kind.
abbrev pub bare : ℕ → Kind → Event
bare at kind = record {
  at = at;
  kind = kind;
  route = [];
  model = [];
  ok = none;
  status = 0;
  ttft_ms = 0;
  latency_ms = 0;
  upload_ms = 0;
  write_block_ms = 0;
  in_kb = 0;
  tokens = 0;
  cache_read = 0;
  cache_creation = 0;
  cause = healthy;
  auth = [];
  exec = [];
  quota = none;
  path = [];
  method = [];
  count = 0;
  src = unknown_source;
  ua_client = [];
  system_blocks = 0;
  cache_controls = 0;
  messages = 0;
  tools = 0;
  thinking = false;
  stream = false;
  body_kb = 0;
  state = [];
  level = [];
  detail = [];
}

abbrev pub is_request : Kind → Bool
is_request on_request = true
is_request _ = false

abbrev pub is_reject : Kind → Bool
is_reject on_reject = true
is_reject _ = false

abbrev pub is_local : Source → Bool
is_local local = true
is_local _ = false

abbrev pub is_canceled : Cause → Bool
is_canceled canceled = true
is_canceled _ = false

-- `e.OK != nil && !*e.OK`, and `e.OK != nil && *e.OK`.
abbrev pub says_failed : Option Bool → Bool
says_failed none = false
says_failed (some ok) = not ok

abbrev pub says_ok : Option Bool → Bool
says_ok none = false
says_ok (some ok) = ok

-- Failed.
unfoldable pub failed : Event → Bool
failed e = is_request e.kind && says_failed e.ok

-- Canceled.
unfoldable pub was_canceled : Event → Bool
unfolding failed
was_canceled e = failed e && is_canceled e.cause

-- Noise.
unfoldable pub noise : Event → Bool
noise e = is_reject e.kind && not (is_local e.src) && ltb e.status 500

-- The path without its query.
unfoldable pub strip_query : List ℕ → List ℕ
strip_query [] = []
strip_query (c ∷ p) = let rest = strip_query p in if c == b'?' then [] else c ∷ rest

-- The bytes of "…".
abbrev pub ellipsis : List ℕ
ellipsis = 0xe2 ∷ 0x80 ∷ 0xa6 ∷ []

abbrev pub max_path : ℕ
max_path = 120

-- normalisePath, on the path's bytes.
unfoldable pub normalise_path : List ℕ → List ℕ
unfolding strip_query
normalise_path p =
    let cut = strip_query p in
    if ltb max_path (length cut) then take max_path cut ++ ellipsis else cut

abbrev millisecond : ℕ
millisecond = 1_000_000

-- FromSample. A whole division of a duration that is 0 is 0, so the source's tests for positive
-- durations and sizes have no counterpart of their own.
unfoldable pub from_sample : Sample → Event
unfolding route
from_sample s = record (bare s.at on_request) {
  route = route s;
  model = s.model;
  ok = some (not s.failed);
  tokens = s.tokens;
  cache_read = s.cache_read;
  cache_creation = s.cache_creation;
  auth = s.auth;
  exec = s.executor;
  status = if s.failed then s.status else 0;
  cause = if s.failed then s.cause else healthy;
  ttft_ms = s.ttft / millisecond;
  latency_ms = s.latency / millisecond;
  upload_ms = s.upload / millisecond;
  write_block_ms = s.write_block / millisecond;
  in_kb = s.body_bytes / 1024;
  quota = s.quota;
}
