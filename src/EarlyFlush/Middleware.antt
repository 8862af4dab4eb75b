-- ===== src/EarlyFlush/Middleware.antt =====
-- proxy/earlyflush.go: bodySniffer and EarlyFlushMiddleware, which decide whether a request gets the
-- early-flush writer at all.
use slimproxy.Base.{
  ℕ, ◌-◌, Bool, true, false, not, ◌&&◌, ◌||◌, Option, none, some, List, [], ◌∷◌, ◌++◌, ltb, leb,
  ◌==◌, if◌then◌else◌, length,
}
use slimproxy.Text.{Text, codes, text_eq}
use slimproxy.Envelope.Body.{ClaudeError}
use slimproxy.EarlyFlush.Writer.{
  Writer, Verdict, Field, absent, literal_false, present, sniff_stream_field, try_disarm,
  upload_failed, rearm,
}
use slimproxy.EarlyFlush.Timer.{flush_now}
use slimproxy.EarlyFlush.Finish.{finish}

-- earlyFlushMaxSniff.
abbrev pub max_sniff : ℕ
max_sniff = 33_554_432

-- What the reads of a body deliver: some bytes and more to come, the last bytes with EOF, or the
-- last bytes with another error.
pub data Reads : Type 0 where
  more : List ℕ → Reads → Reads
  last : List ℕ → Reads
  broken : List ℕ → Reads

-- bodySniffer.readAll from the buffer on: the buffer at the end, and whether the body is complete.
unfoldable pub read_all : List ℕ → Reads → List ℕ × Bool
read_all buf (more b r) = read_all (buf ++ b) r
read_all buf (last b) = (buf ++ b, true)
read_all buf (broken b) = (buf ++ b, false)

-- bodySniffer.verdict, where `field_of` is gjson's view of the field `stream`.
unfoldable pub verdict : (List ℕ → Field) → List ℕ → Verdict
unfolding sniff_stream_field
verdict field_of buf = sniff_stream_field (field_of buf)

-- What the middleware reads of a request. The length is none where it is not declared.
pub record Request : Type 0 where
  pub method : Text
  pub path : Text
  pub content_length : Option ℕ

abbrev fits_sniff : Option ℕ → Bool
fits_sniff none = false
fits_sniff (some cl) = ltb 0 cl && leb cl max_sniff

-- The two early returns of EarlyFlushMiddleware; `delay` is its threshold in nanoseconds.
unfoldable pub in_scope : ℕ → Request → Bool
in_scope delay r =
    if delay == 0
      || not (text_eq r.method (codes "POST"))
      || not (text_eq r.path (codes "/v1/messages"))
    then false
    else fits_sniff r.content_length

-- How the middleware goes on: the handler runs on the writer it had, the request is over, or the
-- handler runs on the early-flush writer, whose timer has so much time left.
pub data Course : Type 0 where
  passes : Course
  aborts : Writer → Course
  wraps : Writer → ℕ → Course

abbrev declared : Option ℕ → ℕ
declared none = 0
declared (some cl) = cl

-- The tail of the middleware: the timer gets what is left of the threshold.
install : Writer → ℕ → ℕ → Course
install w delay elapsed = wraps (rearm w) (delay - elapsed)

abbrev streams : Field → Bool
streams present = true
streams absent = false
streams literal_false = false

module _ (unmarshal : Text → Option ClaudeError) (field_of : List ℕ → Field) where
  -- The middleware after the body was read, `elapsed` after the request entered; `gone` says that
  -- the request's context has ended.
  unfoldable pub after_read : ℕ → Request → Writer → List ℕ × Bool → ℕ → Bool → Course
  unfolding install
  after_read delay r w (body, complete) elapsed gone =
      let (v, retired) = try_disarm w in
      if not complete
      then if retired
        then passes
        else aborts
            (finish unmarshal (upload_failed v (length body) (declared r.content_length)) gone)
      else if not (streams (field_of body)) && retired
      then passes
      else if not (streams (field_of body))
      then install v delay elapsed
      else install w delay elapsed

-- The desperation timer during the upload: it fires at some times, each with the prefix it sees.
unfoldable pub uploading : (List ℕ → Field) → Writer → List (List ℕ × ℕ) → Writer
unfolding verdict
uploading field_of w [] = w
uploading field_of w ((prefix, now) ∷ firings) =
    uploading field_of (flush_now w (verdict field_of prefix) now) firings
