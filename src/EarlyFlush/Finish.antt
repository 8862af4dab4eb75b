-- ===== src/EarlyFlush/Finish.antt =====
-- proxy/earlyflush.go: how a request ends.
use slimproxy.Base.{
  ℕ, Bool, true, false, not, ◌&&◌, ◌||◌, Option, none, some, [], ◌∷◌, ◌++◌, ◌==◌, if◌then◌else◌,
}
use slimproxy.Text.{Text}
use slimproxy.Wire.{bytes, flush}
use slimproxy.Envelope.Body.{ClaudeError}
use slimproxy.EarlyFlush.Frame.{sse_error_frame}
use slimproxy.EarlyFlush.Writer.{Writer, Note, translated, upload_cut, report}

-- The first critical section of finish, and its wait for the heartbeat.
unfoldable pub seal : Writer → Writer
seal w = record w { closed = true; armed = false; beating = false }

-- The status of the closing event.
abbrev pub closing_status : Writer → ℕ
closing_status w = if w.intended == 0 then 502 else w.intended

-- The report of the closing event: a broken upload is not an upstream failure.
unfoldable pub closing_note : Option (ℕ × ℕ) → ℕ → Note
closing_note (some (received, declared)) code = upload_cut received declared
closing_note none code = translated code

module _ (unmarshal : Text → Option ClaudeError) where
  -- The closing event of finish.
  conclude : Writer → Writer
  conclude w =
      report
        (record w {
          intended = closing_status w;
          calls =
              w.calls
              ++ bytes (sse_error_frame unmarshal (closing_status w) w.err_buf) ∷ flush ∷ [];
        })
        (closing_note w.upload_cut_at (closing_status w))

  -- The second critical section of finish. `gone` says that the request's context has ended.
  unfoldable pub close_stream : Writer → Bool → Writer
  unfolding conclude
  close_stream w gone =
      if not w.preflushed || w.terminated || w.streamed
      then w
      else if w.decided && not w.translating
      then w
      else if gone
      then w
      else conclude w

  -- finish.
  unfoldable pub finish : Writer → Bool → Writer
  unfolding seal close_stream
  finish w gone = close_stream (seal w) gone
