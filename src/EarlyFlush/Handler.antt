-- ===== src/EarlyFlush/Handler.antt =====
-- proxy/earlyflush.go: what the handler does through earlyFlushWriter.
use slimproxy.Base.{
  ℕ, ◌-◌, Bool, true, false, not, ◌&&◌, ◌||◌, List, ◌++◌, ltb, leb, ◌==◌, if◌then◌else◌, length,
  take,
}
use slimproxy.Text.{Text}
use slimproxy.Wire.{status, bytes, flush}
use slimproxy.Envelope.Writer.{max_envelope_body}
use slimproxy.EarlyFlush.Writer.{Writer, send, commit_shadow}

abbrev stop_timer : Writer → Writer
stop_timer w = record w { armed = false }

-- The handler's first word before the preamble: the headers go over.
abbrev decide : Writer → Writer
decide w = commit_shadow (record w { decided = true })

-- WriteHeader.
unfoldable pub write_header : Writer → ℕ → Writer
write_header v code =
    let w = stop_timer v in
    if not w.preflushed
    then send (decide w) (status code)
    else if w.terminated || w.closed
    then w
    else record w {
      decided = true;
      intended = code;
      translating = (leb 400 code && not w.streamed) || w.translating;
    }

-- The bytes of a failure body that the error buffer has room for.
unfoldable pub capture : Text → Text → Text
capture held b =
    if ltb (length held) max_envelope_body
    then held ++ take (max_envelope_body - length held) b
    else held

-- Write, and WriteString, which is Write of the string's bytes. A byte slice is a list of bytes.
unfoldable pub write : Writer → List ℕ → Writer
unfolding capture
write v b =
    let w = stop_timer v in
    if not w.preflushed
    then send (decide w) (bytes b)
    else if w.terminated || w.closed
    then w
    else if w.translating
    then record w { decided = true; err_buf = capture w.err_buf b }
    else send (record w { decided = true; streamed = true }) (bytes b)

-- Flush.
unfoldable pub flush_out : Writer → Writer
flush_out w =
    if not w.preflushed
    then send (decide (stop_timer w)) flush
    else if w.terminated || w.closed || w.translating
    then w
    else send (record w { decided = true }) flush

-- Written and Status, given the answers of the writer underneath.
unfoldable pub written : Writer → Bool → Bool
written w inner = if w.preflushed then true else inner

unfoldable pub status_of : Writer → ℕ → ℕ
status_of w inner = if not (w.intended == 0) then w.intended else inner
