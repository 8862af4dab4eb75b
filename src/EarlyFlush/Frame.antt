-- ===== src/EarlyFlush/Frame.antt =====
-- proxy/earlyflush.go: the one event that ends a stream with an error.
use slimproxy.Base.{not, ◌||◌, ℕ, ◌++◌, Option, if◌then◌else◌}
use slimproxy.Text.{Text, codes, trim_space, contains_any_of}
use slimproxy.Envelope.Body.{ClaudeError, is_upstream_failure, replacement_envelope}

module _ (unmarshal : Text → Option ClaudeError) where
  -- The data line of sseErrorFrame.
  unfoldable pub frame_data : ℕ → Text → Text
  frame_data status body =
      if contains_any_of (trim_space body) (codes "\r\n")
        || not (is_upstream_failure unmarshal (trim_space body))
      then replacement_envelope status (trim_space body)
      else trim_space body

  -- sseErrorFrame.
  unfoldable pub sse_error_frame : ℕ → Text → Text
  unfolding frame_data
  sse_error_frame status body =
      codes "event: error\ndata: " ++ frame_data status body ++ codes "\n\n"
