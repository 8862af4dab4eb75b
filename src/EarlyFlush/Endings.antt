-- ===== src/EarlyFlush/Endings.antt =====
-- How often earlyFlushWriter ends a stream with an error event.
use slimproxy.Base.{
  ℕ, suc, ◌+◌, ◌-◌, ◌≤◌, ◌≡◌, refl, Bool, true, false, Option, none, some, List, [], ◌∷◌, ◌++◌,
  arith,
}
use slimproxy.Text.{Text}
use slimproxy.Wire.{Header}
use slimproxy.Envelope.Body.{ClaudeError}
use slimproxy.EarlyFlush.Writer.{
  Writer, Note, NoteKind, on_timed_out, streaming, flushed, desperation_held, translated, timed_out,
  upload_cut, fresh, set_shadow, upload_failed, rearm, commit_shadow,
}
use slimproxy.EarlyFlush.Handler.{write_header, write, flush_out}
use slimproxy.EarlyFlush.Timer.{flush_now, tick, max_silence}
use slimproxy.EarlyFlush.Finish.{finish, closing_status, closing_note}
use slimproxy.EarlyFlush.Steps.{
  Step, sets, heads, writes, flushes, rearms, fires, ticks, cuts, ends, Reach, here, next,
}
use slimproxy.EarlyFlush.Invariant.{Flags, Step-Flags, fresh-Flags}

-- The reports that a stream was ended with an error event.
abbrev pub endings : List Note → ℕ
endings [] = 0
endings (flushed wait v ∷ ns) = endings ns
endings (desperation_held wait ∷ ns) = endings ns
endings (translated code ∷ ns) = suc (endings ns)
endings (timed_out silence ∷ ns) = suc (endings ns)
endings (upload_cut r d ∷ ns) = suc (endings ns)

pub endings-append :
    (ns : List Note) (ms : List Note) → endings (ns ++ ms) ≡ endings ns + endings ms
endings-append [] ms = omega arith
endings-append (flushed wait v ∷ ns) ms = endings-append ns ms
endings-append (desperation_held wait ∷ ns) ms = endings-append ns ms
endings-append (translated code ∷ ns) ms = omega (arith, endings-append ns ms)
endings-append (timed_out silence ∷ ns) ms = omega (arith, endings-append ns ms)
endings-append (upload_cut r d ∷ ns) ms = omega (arith, endings-append ns ms)

pub endings-closing : (o : Option (ℕ × ℕ)) (code : ℕ) → endings (closing_note o code ∷ []) ≡ 1
unfolding closing_note
endings-closing none code = refl
endings-closing (some (r, d)) code = refl

-- The error events that were reported, before and after the end of the request.
pub record Ended (w : Writer) : Type 0 where
  pub flags : Flags w
  pub open_none : w.closed ≡ false → w.terminated ≡ false → endings w.reports ≡ 0
  pub at_most : endings w.reports ≤ 1
  pub watched : w.terminated ≡ true → w.wants on_timed_out ≡ true → endings w.reports ≡ 1

-- A step that reports no ending and changes neither the end of the request nor the watchdog's.
quiet-Ended :
    (w v : Writer)
    → v.reports ≡ w.reports
    → v.wants ≡ w.wants
    → v.closed ≡ w.closed
    → v.terminated ≡ w.terminated
    → Flags v
    → Ended w
    → Ended v
quiet-Ended w v e f g t flags i = record {
  flags = flags;
  open_none = rw (e, g, t) i.open_none;
  at_most = rw e i.at_most;
  watched = rw (e, f, t) i.watched;
}

Step-Ended :
    {unmarshal : Text → Option ClaudeError} {w v : Writer} → Step unmarshal w v → Ended w → Ended v
unfolding set_shadow write_header write flush_out rearm flush_now tick upload_failed finish
    commit_shadow
Step-Ended {unmarshal} {w} {v} (sets k vs) i =
    quiet-Ended w v refl refl refl refl (Step-Flags {unmarshal = unmarshal} (sets k vs) i.flags) i
Step-Ended {unmarshal} {w} {v} (heads code) i =
    quiet-Ended w v (ground arith) (ground arith) (ground arith) (ground arith)
      (Step-Flags {unmarshal = unmarshal} (heads code) i.flags) i
Step-Ended {unmarshal} {w} {v} (writes b) i =
    quiet-Ended w v (ground arith) (ground arith) (ground arith) (ground arith)
      (Step-Flags {unmarshal = unmarshal} (writes b) i.flags) i
Step-Ended {unmarshal} {w} {v} flushes i =
    quiet-Ended w v (ground arith) (ground arith) (ground arith) (ground arith)
      (Step-Flags {unmarshal = unmarshal} flushes i.flags) i
Step-Ended {unmarshal} {w} {v} rearms i =
    quiet-Ended w v (ground arith) (ground arith) (ground arith) (ground arith)
      (Step-Flags {unmarshal = unmarshal} rearms i.flags) i
Step-Ended {unmarshal} {w} {v} (cuts r d e f) i =
    quiet-Ended w v refl refl refl refl (Step-Flags {unmarshal = unmarshal} (cuts r d e f) i.flags)
      i
Step-Ended {unmarshal} {w} (fires said now) i = record {
  flags = Step-Flags {unmarshal = unmarshal} (fires said now) i.flags;
  open_none = ground (
    arith,
    i,
    endings-append w.reports (flushed (now - w.started) streaming ∷ []),
    endings-append w.reports (flushed (now - w.started) said ∷ []),
    endings-append w.reports (desperation_held (now - w.started) ∷ []),
  );
  at_most = ground (
    arith,
    i,
    endings-append w.reports (flushed (now - w.started) streaming ∷ []),
    endings-append w.reports (flushed (now - w.started) said ∷ []),
    endings-append w.reports (desperation_held (now - w.started) ∷ []),
  );
  watched = ground (arith, i);
}
Step-Ended {unmarshal} {w} (ticks now) i = record {
  flags = Step-Flags {unmarshal = unmarshal} (ticks now) i.flags;
  open_none = ground (arith, i, endings-append w.reports (timed_out max_silence ∷ []));
  at_most = ground (arith, i, endings-append w.reports (timed_out max_silence ∷ []));
  watched = ground (arith, i, endings-append w.reports (timed_out max_silence ∷ []));
}
Step-Ended {unmarshal} {w} (ends gone e) i = record {
  flags = Step-Flags {unmarshal = unmarshal} (ends gone e) i.flags;
  open_none = ground (arith, i);
  at_most = ground (
    arith,
    i,
    endings-append w.reports (closing_note w.upload_cut_at (closing_status w) ∷ []),
    endings-closing w.upload_cut_at (closing_status w),
  );
  watched = ground (arith, i);
}

module _ {unmarshal : Text → Option ClaudeError} {h : Header} {wants : NoteKind → Bool}
    {now : ℕ} where
  pub Reach-Ended : {w : Writer} → Reach unmarshal (fresh h wants now) w → Ended w
  Reach-Ended here = record {
    flags = fresh-Flags h wants now;
    open_none = λ _ _. refl;
    at_most = ground arith;
    watched = ground arith;
  }
  Reach-Ended (next r st) = Step-Ended st (Reach-Ended r)

  -- However the handler, the timer and the heartbeat interleave, at most one of the reports of a
  -- request says that its stream was ended with an error event.
  pub one_ending : {w : Writer} → Reach unmarshal (fresh h wants now) w → endings w.reports ≤ 1
  one_ending r = (Reach-Ended r).at_most
