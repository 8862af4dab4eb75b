-- ===== src/EarlyFlush/Invariant.antt =====
-- What holds of earlyFlushWriter between any two critical sections.
use slimproxy.Base.{
  ℕ, ◌-◌, ◌≤◌, ◌≡◌, Bool, true, false, Option, length, take, length-append, length-take, arith,
}
use slimproxy.Text.{Text}
use slimproxy.Wire.{Header}
use slimproxy.Envelope.Body.{ClaudeError}
use slimproxy.Envelope.Writer.{max_envelope_body}
use slimproxy.EarlyFlush.Writer.{
  Writer, NoteKind, fresh, set_shadow, upload_failed, rearm, commit_shadow,
}
use slimproxy.EarlyFlush.Handler.{write_header, write, flush_out, capture}
use slimproxy.EarlyFlush.Timer.{flush_now, tick}
use slimproxy.EarlyFlush.Finish.{finish}
use slimproxy.EarlyFlush.Steps.{
  Step, sets, heads, writes, flushes, rearms, fires, ticks, cuts, ends, Reach, here, next,
}

-- How the flags of the writer go together.
pub record Flags (w : Writer) : Type 0 where
  pub preflushed_committed : w.preflushed ≡ true → w.committed ≡ true
  pub streamed_after : w.streamed ≡ true → (w.preflushed ≡ true) × (w.decided ≡ true)
  pub translating_after :
      w.translating ≡ true → (w.preflushed ≡ true) × (w.decided ≡ true) × (w.streamed ≡ false)
  pub terminated_after : w.terminated ≡ true → (w.preflushed ≡ true) × (w.decided ≡ false)
  pub beating_after : w.beating ≡ true → w.preflushed ≡ true
  pub intended_after : w.preflushed ≡ false → w.intended ≡ 0
  pub bounded : length w.err_buf ≤ max_envelope_body

length-capture :
    (held b : Text) → length held ≤ max_envelope_body → length (capture held b) ≤ max_envelope_body
unfolding capture
length-capture held b h = ground (
  arith,
  length-append held (take (max_envelope_body - length held) b),
  length-take (max_envelope_body - length held) b,
)

pub fresh-Flags : (h : Header) (wants : NoteKind → Bool) (now : ℕ) → Flags (fresh h wants now)
fresh-Flags h wants now = ground arith

pub Step-Flags :
    {unmarshal : Text → Option ClaudeError} {w v : Writer} → Step unmarshal w v → Flags w → Flags v
unfolding set_shadow write_header write flush_out rearm flush_now tick upload_failed finish
    commit_shadow
Step-Flags (sets k vs) i = ground arith
Step-Flags (heads code) i = ground arith
Step-Flags {w} (writes b) i = ground (arith, length-capture w.err_buf b)
Step-Flags flushes i = ground arith
Step-Flags rearms i = ground arith
Step-Flags (fires said now) i = ground arith
Step-Flags (ticks now) i = ground arith
Step-Flags (cuts r d e f) i = ground arith
Step-Flags (ends gone e) i = ground arith

module _ {unmarshal : Text → Option ClaudeError} {h : Header} {wants : NoteKind → Bool}
    {now : ℕ} where
  -- In every interleaving of the handler, the timer and the heartbeat the writer's flags go together:
  -- handler bytes, translation, termination and the heartbeat all need the preamble, translation and
  -- handler bytes exclude one another, a terminated stream was never the handler's, and what is
  -- captured of a failure body stays within the bound.
  pub Reach-Flags : {w : Writer} → Reach unmarshal (fresh h wants now) w → Flags w
  Reach-Flags here = fresh-Flags h wants now
  Reach-Flags (next r st) = Step-Flags st (Reach-Flags r)
