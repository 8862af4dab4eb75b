-- ===== src/Translate/Tests.antt =====
-- The theorem of Translate/ at a concrete registry.
use slimproxy.Base.{◌≡◌, refl, true, false, none, some, [], ◌∷◌, ◌++◌}
use slimproxy.Text.{codes, text_eq}
use slimproxy.Translate.Translator.{
  Pair, Options, Registry, Translator, made, invalid_format, no_request_transform, describe, new,
  stream_line, finish_stream,
}
use slimproxy.Translate.Checked.{Serves, new-Serves}

abbrev claude_only : Registry Unit
claude_only = record {
  has_request = λ f g. text_eq f (codes "openai");
  has_stream = λ f g. true;
  has_non_stream = λ f g. false;
  translate_request = λ f g body. some (codes "<" ++ body);
  translate_non_stream = λ f g body. body;
  translate_stream = λ f g line s. (line ∷ line ∷ [], some tt);
}

abbrev strict : Options
strict = record { allow_request_passthrough = false; allow_response_passthrough = false }

abbrev to_claude : Pair
to_claude = record { client = codes "openai"; provider = codes "claude" }

abbrev translator : Translator
translator = record { pair = to_claude; caps = describe claude_only to_claude; opts = strict }

is_made : new claude_only to_claude strict ≡ made translator
unfolding new text_eq
is_made = refl

misspelt : new claude_only (record to_claude { client = codes "opnai" }) strict ≡ invalid_format
unfolding new text_eq
misspelt = refl

identity :
    new claude_only (record { client = codes "claude"; provider = codes "claude" }) strict
    ≡ no_request_transform
unfolding new text_eq
identity = refl

framed :
    (stream_line claude_only
      (codes "x")
      (record { translator = translator; state = none; done = false })).0
    ≡ codes "x" ∷ codes "x" ∷ []
unfolding stream_line describe
framed = refl

silent :
    (stream_line claude_only (codes "x") (
      finish_stream claude_only (record { translator = translator; state = none; done = false }))).0
    ≡ []
unfolding stream_line finish_stream
silent = refl

new-Serves_example : Serves claude_only to_claude strict translator
new-Serves_example = new-Serves claude_only to_claude strict translator is_made
