-- ===== src/EarlyFlush/Statuses.antt =====
-- The status line of a response that earlyFlushWriter may have opened early.
use slimproxy.Base.{
  ℕ, ◌≡◌, refl, ap, ◌∙◌, Bool, true, false, Option, List, [], ◌∷◌, ◌++◌, append-nil, arith,
}
use slimproxy.Text.{Text}
use slimproxy.Wire.{Call, bytes, flush, Header, statuses, statuses-append}
use slimproxy.Envelope.Body.{ClaudeError}
use slimproxy.EarlyFlush.Frame.{sse_error_frame}
use slimproxy.EarlyFlush.Writer.{
  Writer, NoteKind, fresh, set_shadow, upload_failed, rearm, commit_shadow,
}
use slimproxy.EarlyFlush.Handler.{write_header, write, flush_out}
use slimproxy.EarlyFlush.Timer.{flush_now, tick, keep_alive}
use slimproxy.EarlyFlush.Finish.{finish, closing_status}
use slimproxy.EarlyFlush.Steps.{
  Step, sets, heads, writes, flushes, rearms, fires, ticks, cuts, ends, Reach, here, next,
}
use slimproxy.EarlyFlush.Invariant.{Flags, Step-Flags, fresh-Flags}

-- What the writer underneath has been told about the status.
record Told (w : Writer) : Type 0 where
  flags : Flags w
  silent : w.preflushed ≡ false → w.decided ≡ false → w.calls ≡ []
  once : w.preflushed ≡ true → statuses w.calls ≡ 200 ∷ []

statuses-quiet : (cs ds : List Call) → statuses ds ≡ [] → statuses (cs ++ ds) ≡ statuses cs
statuses-quiet cs ds e =
    statuses-append cs ds ∙ ap (◌++◌ (statuses cs)) e ∙ append-nil (statuses cs)

-- A write and a flush.
statuses-event : (cs : List Call) (b : Text) → statuses (cs ++ bytes b ∷ flush ∷ []) ≡ statuses cs
statuses-event cs b = statuses-quiet cs (bytes b ∷ flush ∷ []) refl

Step-Told :
    {unmarshal : Text → Option ClaudeError} {w v : Writer} → Step unmarshal w v → Told w → Told v
unfolding set_shadow write_header write flush_out rearm flush_now tick upload_failed finish
    commit_shadow
Step-Told {unmarshal} (sets k vs) i = ground (arith, i)
Step-Told {unmarshal} (heads code) i = record {
  flags = Step-Flags {unmarshal = unmarshal} (heads code) i.flags;
  silent = ground (arith, i);
  once = ground (arith, i);
}
Step-Told {unmarshal} {w} (writes b) i = record {
  flags = Step-Flags {unmarshal = unmarshal} (writes b) i.flags;
  silent = ground (arith, i);
  once = ground (arith, i, statuses-quiet w.calls (bytes b ∷ []) refl);
}
Step-Told {unmarshal} {w} flushes i = record {
  flags = Step-Flags {unmarshal = unmarshal} flushes i.flags;
  silent = ground (arith, i);
  once = ground (arith, i, statuses-quiet w.calls (flush ∷ []) refl);
}
Step-Told rearms i = ground (arith, i)
Step-Told {unmarshal} (fires said now) i = record {
  flags = Step-Flags {unmarshal = unmarshal} (fires said now) i.flags;
  silent = ground (arith, i);
  once = ground (arith, i);
}
Step-Told {unmarshal} {w} (ticks now) i = record {
  flags = Step-Flags {unmarshal = unmarshal} (ticks now) i.flags;
  silent = ground (arith, i);
  once = ground (
    arith,
    i,
    statuses-event w.calls (sse_error_frame unmarshal 504 []),
    statuses-event w.calls keep_alive,
  );
}
Step-Told {unmarshal} (cuts r d e f) i = ground (arith, i)
Step-Told {unmarshal} {w} (ends gone e) i = record {
  flags = Step-Flags {unmarshal = unmarshal} (ends gone e) i.flags;
  silent = ground (arith, i);
  once =
      ground
        (arith, i, statuses-event w.calls (sse_error_frame unmarshal (closing_status w) w.err_buf));
}

module _ {unmarshal : Text → Option ClaudeError} {h : Header} {wants : NoteKind → Bool}
    {now : ℕ} where
  Reach-Told : {w : Writer} → Reach unmarshal (fresh h wants now) w → Told w
  Reach-Told here = record {
    flags = fresh-Flags h wants now;
    silent = λ _ _. refl;
    once = ground arith;
  }
  Reach-Told (next r st) = Step-Told st (Reach-Told r)

  -- Once the preamble is out, the writer underneath has been told one status, and it is 200: neither
  -- the handler nor the end of the request ever sends a second status line.
  pub one_status :
      {w : Writer}
      → Reach unmarshal (fresh h wants now) w
      → w.preflushed ≡ true
      → statuses w.calls ≡ 200 ∷ []
  one_status r = (Reach-Told r).once
