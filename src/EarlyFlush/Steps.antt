-- ===== src/EarlyFlush/Steps.antt =====
-- proxy/earlyflush.go: the interleavings of one request. The handler, the timer and the heartbeat
-- take the writer's lock in any order; each step is one critical section.
use slimproxy.Base.{ℕ, ◌≡◌, Bool, false, Option, List}
use slimproxy.Text.{Text}
use slimproxy.Envelope.Body.{ClaudeError}
use slimproxy.EarlyFlush.Writer.{Writer, Verdict, set_shadow, upload_failed, rearm}
use slimproxy.EarlyFlush.Handler.{write_header, write, flush_out}
use slimproxy.EarlyFlush.Timer.{flush_now, tick}
use slimproxy.EarlyFlush.Finish.{finish}

-- A timer callback may be on its way whatever Stop did, and the recovery handler may write after
-- finish, so neither has a premise. finish runs once, and an upload fails before the handler runs.
pub data Step (unmarshal : Text → Option ClaudeError) : Writer → Writer → Type 0 where
  sets : {w : Writer} (k : Text) (vs : List Text) → Step unmarshal w (set_shadow w k vs)
  heads : {w : Writer} (code : ℕ) → Step unmarshal w (write_header w code)
  writes : {w : Writer} (b : List ℕ) → Step unmarshal w (write w b)
  flushes : {w : Writer} → Step unmarshal w (flush_out w)
  rearms : {w : Writer} → Step unmarshal w (rearm w)
  fires : {w : Writer} (said : Verdict) (now : ℕ) → Step unmarshal w (flush_now w said now)
  ticks : {w : Writer} (now : ℕ) → Step unmarshal w (tick unmarshal w now)
  cuts :
      {w : Writer} (received declared : ℕ)
      → w.decided ≡ false
      → w.closed ≡ false
      → Step unmarshal w (upload_failed w received declared)
  ends : {w : Writer} (gone : Bool) → w.closed ≡ false → Step unmarshal w (finish unmarshal w gone)

pub data Reach (unmarshal : Text → Option ClaudeError) (w : Writer) : Writer → Type 0 where
  here : Reach unmarshal w w
  next : {u v : Writer} → Reach unmarshal w u → Step unmarshal u v → Reach unmarshal w v
