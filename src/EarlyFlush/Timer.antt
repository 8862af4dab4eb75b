-- ===== src/EarlyFlush/Timer.antt =====
-- proxy/earlyflush.go: the timer that commits the preamble, and the heartbeat after it.
use slimproxy.Base.{
  ℕ, ◌+◌, ◌-◌, ◌*◌, Bool, true, false, not, ◌||◌, Option, [], ◌∷◌, ◌++◌, ltb, if◌then◌else◌,
}
use slimproxy.Text.{Text, codes}
use slimproxy.Wire.{Header, status, bytes, flush, set_header}
use slimproxy.Envelope.Body.{ClaudeError}
use slimproxy.EarlyFlush.Frame.{sse_error_frame}
use slimproxy.EarlyFlush.Writer.{
  Writer, Verdict, unknown, streaming, non_streaming, flushed, desperation_held, timed_out, report,
}

-- earlyFlushMaxSilence, in nanoseconds.
abbrev pub max_silence : ℕ
max_silence = 240 * 1_000_000_000

-- earlyFlushKeepAlive.
abbrev pub keep_alive : Text
keep_alive = codes ": keep-alive\n\n"

abbrev is_non_streaming : Verdict → Bool
is_non_streaming non_streaming = true
is_non_streaming unknown = false
is_non_streaming streaming = false

-- The headers of the preamble.
unfoldable pub preamble_header : Header → Header
preamble_header h = set_header (codes "X-Accel-Buffering") (codes "no") (
    set_header (codes "Connection") (codes "keep-alive") (
      set_header (codes "Cache-Control") (codes "no-cache")
        (set_header (codes "Content-Type") (codes "text/event-stream") h)))

-- The part of flushNow that commits the preamble and starts the heartbeat.
commit_preamble : Writer → Verdict → ℕ → Writer
commit_preamble w verdict now =
    let sent = record w {
      preflushed = true;
      committed = true;
      header = preamble_header w.header;
      calls = w.calls ++ status 200 ∷ flush ∷ [];
    } in
    record (report sent (flushed (now - w.started) verdict)) {
      beating = true;
      deadline = now + max_silence;
    }

-- flushNow at time `now`, where sniffVerdict, if it is set, answers `said`.
unfoldable pub flush_now : Writer → Verdict → ℕ → Writer
unfolding commit_preamble
flush_now w said now =
    if w.closed || w.decided || w.preflushed
    then w
    else let verdict = if w.sniffing then said else streaming in
      if is_non_streaming verdict
      then report w (desperation_held (now - w.started))
      else commit_preamble w verdict now

module _ (unmarshal : Text → Option ClaudeError) where
  -- The branch of heartbeat past its deadline, with the cancel and the report that follow it outside
  -- the lock.
  terminate : Writer → Writer
  terminate w =
      report
        (record w {
          terminated = true;
          intended = 504;
          calls = w.calls ++ bytes (sse_error_frame unmarshal 504 []) ∷ flush ∷ [];
          canceled = true;
          beating = false;
        })
        (timed_out max_silence)

  -- One tick of heartbeat at time `now`.
  unfoldable pub tick : Writer → ℕ → Writer
  unfolding terminate
  tick w now =
      if not w.beating
      then w
      else if w.closed || w.decided || w.terminated
      then record w { beating = false }
      else if ltb w.deadline now
      then terminate w
      else record w { calls = w.calls ++ bytes keep_alive ∷ flush ∷ [] }
