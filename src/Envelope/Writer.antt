-- ===== src/Envelope/Writer.antt =====
-- proxy/errorenvelope.go: envelopeWriter, which holds a failure body back until the handler is done.
use slimproxy.Base.{
  ℕ, zero, suc, ◌+◌, ◌/◌, ◌%◌, Bool, true, false, not, ◌||◌, Option, List, [], ◌∷◌, ◌++◌, ltb, ◌==◌,
  if◌then◌else◌,
}
use slimproxy.Text.{Text, codes, contains, byte_len}
use slimproxy.Wire.{Call, status, bytes, flush, Header, get_header, set_header}
use slimproxy.Envelope.Body.{ClaudeError, shown_body}

-- maxEnvelopeBody.
abbrev pub max_envelope_body : ℕ
max_envelope_body = 65536

-- envelopeWriter. `calls` is what the writer underneath was told, and `header` its header map.
pub record Writer : Type 0 where
  pub calls : List Call
  pub header : Header
  pub status_code : ℕ
  pub buffering : Bool
  pub decided : Bool
  pub buf : Text
  pub overflowed : Bool

-- The writer that ErrorEnvelopeMiddleware installs.
abbrev pub fresh : Header → Writer
fresh h = record {
  calls = [];
  header = h;
  status_code = 0;
  buffering = false;
  decided = false;
  buf = [];
  overflowed = false;
}

abbrev send : Writer → Call → Writer
send w c = record w { calls = w.calls ++ c ∷ [] }

abbrev pub is_event_stream : Header → Bool
is_event_stream h = contains (get_header (codes "Content-Type") h) (codes "text/event-stream")

-- decide: once, before any byte is written.
unfoldable pub decide : Writer → ℕ → Writer
decide w code =
    if w.decided
    then w
    else if ltb code 400 || is_event_stream w.header
    then record w { decided = true; status_code = code }
    else record w { decided = true; status_code = code; buffering = true }

-- WriteHeader.
unfoldable pub write_header : Writer → ℕ → Writer
unfolding decide
write_header w code = let d = decide w code in if d.buffering then d else send d (status code)

-- The branch of Write past the bound: what was held goes out, then the new bytes.
unfoldable pub release : Writer → Text → Writer
release w b =
    let open_w = record w {
      buffering = false;
      overflowed = true;
      calls = w.calls ++ status w.status_code ∷ [];
    } in
    if ltb 0 (byte_len w.buf)
    then send (send (record open_w { buf = [] }) (bytes w.buf)) (bytes b)
    else send open_w (bytes b)

-- Write after its call of decide.
unfoldable pub write_decided : Writer → Text → Writer
unfolding release
write_decided w b =
    if not w.buffering
    then send w (bytes b)
    else if ltb max_envelope_body (byte_len w.buf + byte_len b)
    then release w b
    else record w { buf = w.buf ++ b }

-- Write, and WriteString, which is Write of the string's bytes.
unfoldable pub write : Writer → Text → Writer
unfolding decide write_decided
write w b = write_decided (decide w 200) b

-- Flush.
unfoldable pub flush_out : Writer → Writer
flush_out w = if w.buffering then w else send w flush

-- Written and Status, given the answers of the writer underneath.
unfoldable pub written : Writer → Bool → Bool
written w inner = if w.buffering then false else inner

unfoldable pub status_of : Writer → ℕ → ℕ
status_of w inner = if w.decided then w.status_code else inner

-- The loop of itoa, over the 20 bytes of its array from the end.
unfoldable pub itoa_loop : ℕ → ℕ → Text → Text
itoa_loop zero n acc = acc
itoa_loop (suc room) n acc =
    let more = itoa_loop room (n / 10) ((b'0' + n % 10) ∷ acc) in if ltb 0 n then more else acc

-- itoa.
unfoldable pub itoa : ℕ → Text
unfolding itoa_loop
itoa n = if n == 0 then codes "0" else itoa_loop 20 n []

module _ (unmarshal : Text → Option ClaudeError) where
  -- finish.
  unfoldable pub finish : Writer → Writer
  finish w =
      if not w.buffering || w.overflowed
      then w
      else let out = shown_body unmarshal w.status_code w.buf in
        record w {
          buffering = false;
          header =
              set_header (codes "Content-Length") (itoa (byte_len out))
                (set_header (codes "Content-Type") (codes "application/json") w.header);
          calls = w.calls ++ status w.status_code ∷ bytes out ∷ [];
        }

-- What a handler does to the writer.
pub data Op : Type 0 where
  heads : ℕ → Op
  writes : Text → Op
  flushes : Op
  sets : Text → Text → Op

unfoldable pub apply : Writer → Op → Writer
unfolding write_header write flush_out
apply w (heads code) = write_header w code
apply w (writes b) = write w b
apply w flushes = flush_out w
apply w (sets k v) = record w { header = set_header k v w.header }

unfoldable pub run : Writer → List Op → Writer
unfolding apply
run w [] = w
run w (op ∷ ops) = run (apply w op) ops
