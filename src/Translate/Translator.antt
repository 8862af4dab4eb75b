-- ===== src/Translate/Translator.antt =====
-- translate/translate.go, translate/format.go and translate/stream.go: Format, Pair, Describe, New, Request,
-- NonStreamResponse, NewStream and Stream.Line.
use slimproxy.Base.{
  Bool, true, false, not, ◌&&◌, ◌||◌, Option, none, some, List, [], ◌∷◌, any, if◌then◌else◌,
}
use slimproxy.Text.{Text, codes, text_eq}

-- knownFormats.
abbrev pub known_formats : List Text
known_formats =
    codes "openai"
    ∷ codes "openai-response"
    ∷ codes "claude"
    ∷ codes "gemini"
    ∷ codes "interactions"
    ∷ codes "codex"
    ∷ codes "antigravity"
    ∷ []

-- Pair.
pub record Pair : Type 0 where
  pub client : Text
  pub provider : Text

unfoldable pub is_valid : Text → Bool
is_valid f = any (λ k. text_eq f k) known_formats

-- Capabilities; AnyResponse decides nothing.
pub record Capabilities : Type 0 where
  pub requests : Bool
  pub streams : Bool
  pub non_streams : Bool

pub record Options : Type 0 where
  pub allow_request_passthrough : Bool
  pub allow_response_passthrough : Bool

-- The third-party registry, a parameter: which transforms it has from a format to a format, and what they make of
-- a body, where a request's may be nil, and of a line of a stream, from a state. The model, the two requests
-- and the context are theirs alone.
pub record Registry (S : Type 0) : Type 0 where
  pub has_request : Text → Text → Bool
  pub has_stream : Text → Text → Bool
  pub has_non_stream : Text → Text → Bool
  pub translate_request : Text → Text → Text → Option Text
  pub translate_non_stream : Text → Text → Text → Text
  pub translate_stream : Text → Text → Text → Option S → List Text × Option S

pub record Translator : Type 0 where
  pub pair : Pair
  pub caps : Capabilities
  pub opts : Options

pub data Made : Type 0 where
  made : Translator → Made
  invalid_format : Made
  no_request_transform : Made
  no_response_transform : Made

pub data Outcome : Type 0 where
  body_out : Text → Outcome
  no_transformer : Outcome
  nil_result : Outcome

module _ {S : Type 0} (sdk : Registry S) where
  -- Describe.
  unfoldable pub describe : Pair → Capabilities
  describe p = record {
    requests = sdk.has_request p.client p.provider;
    streams = sdk.has_stream p.client p.provider;
    non_streams = sdk.has_non_stream p.client p.provider;
  }

  -- New, with Pair.Validate.
  unfoldable pub new : Pair → Options → Made
  unfolding is_valid describe
  new p o =
      let c = describe p in
      if not (is_valid p.client) || not (is_valid p.provider)
      then invalid_format
      else if not c.requests && not o.allow_request_passthrough
      then no_request_transform
      else if not c.streams && not c.non_streams && not o.allow_response_passthrough
      then no_response_transform
      else made (record { pair = p; caps = c; opts = o })

  unfoldable pub of_transform : Option Text → Outcome
  of_transform none = nil_result
  of_transform (some out) = body_out out

  -- Translator.Request.
  unfoldable pub request : Translator → Text → Outcome
  unfolding of_transform
  request t body =
      if not t.caps.requests
      then (if not t.opts.allow_request_passthrough then no_transformer else body_out body)
      else of_transform (sdk.translate_request t.pair.client t.pair.provider body)

  -- Translator.NonStreamResponse.
  unfoldable pub non_stream_response : Translator → Text → Outcome
  non_stream_response t body =
      if not t.caps.non_streams
      then (if not t.opts.allow_response_passthrough then no_transformer else body_out body)
      else body_out (sdk.translate_non_stream t.pair.provider t.pair.client body)

  -- Stream.
  pub record Stream : Type 0 where
    pub translator : Translator
    pub state : Option S
    pub done : Bool

  -- Translator.NewStream.
  unfoldable pub new_stream : Translator → Option Stream
  new_stream t =
      if not t.caps.streams && not t.opts.allow_response_passthrough
      then none
      else some (record { translator = t; state = none; done = false })

  -- Stream.Line: the frames, and the stream after it.
  unfoldable pub stream_line : Text → Stream → List Text × Stream
  stream_line line s =
      let t = s.translator in
      let out = sdk.translate_stream t.pair.provider t.pair.client line s.state in
      if s.done
      then ([], s)
      else if not t.caps.streams
      then (line ∷ [], s)
      else (out.0, record s { state = out.1 })

  -- Stream.Finish.
  unfoldable pub finish_stream : Stream → Stream
  finish_stream s = record s { done = true; state = none }
