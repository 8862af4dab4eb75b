-- ===== src/EarlyFlush/Late.antt =====
-- What becomes of a request after the preamble, and of one that must not get it.
use slimproxy.Base.{
  ℕ, zero, suc, ◌-◌, ◌≤◌, ◌≡◌, refl, ap, ◌∙◌, Bool, true, false, Option, none, List, [], ◌∷◌, ◌++◌,
  append-nil, append_assoc, arith, length, take, take-all, take-append, length-take, if◌then◌else◌,
  ltb,
}
use slimproxy.Text.{Text}
use slimproxy.Wire.{Call, bytes, flush}
use slimproxy.Envelope.Body.{ClaudeError}
use slimproxy.Envelope.Writer.{max_envelope_body}
use slimproxy.EarlyFlush.Frame.{sse_error_frame}
use slimproxy.EarlyFlush.Writer.{
  Writer, NoteKind, on_translated, translated, set_shadow, upload_failed, rearm, commit_shadow,
}
use slimproxy.EarlyFlush.Handler.{write_header, write, flush_out, capture, status_of}
use slimproxy.EarlyFlush.Timer.{flush_now, tick}
use slimproxy.EarlyFlush.Finish.{finish, closing_note}
use slimproxy.EarlyFlush.Steps.{
  Step, sets, heads, writes, flushes, rearms, fires, ticks, cuts, ends, Reach, here, next,
}

module _ {unmarshal : Text → Option ClaudeError} where
  Step-closed :
      {w v : Writer}
      → Step unmarshal w v
      → w.closed ≡ true
      → (v.closed ≡ true)
        × (v.preflushed ≡ w.preflushed)
        × (w.preflushed ≡ true → (v.calls ≡ w.calls) × (v.reports ≡ w.reports))
  unfolding set_shadow write_header write flush_out rearm flush_now tick upload_failed finish
      commit_shadow
  Step-closed (sets k vs) c = ground arith
  Step-closed (heads code) c = ground arith
  Step-closed (writes b) c = ground arith
  Step-closed flushes c = ground arith
  Step-closed rearms c = ground arith
  Step-closed (fires said now) c = ground arith
  Step-closed (ticks now) c = ground arith
  Step-closed (cuts r d e f) c = cc
  Step-closed (ends gone e) c = cc

  closed_lem :
      {w v : Writer}
      → w.closed ≡ true
      → Reach unmarshal w v
      → (v.closed ≡ true)
        × (v.preflushed ≡ w.preflushed)
        × (w.preflushed ≡ true → (v.calls ≡ w.calls) × (v.reports ≡ w.reports))
  closed_lem c here = (c, refl, λ p. (refl, refl))
  closed_lem c (next r st) =
      let (c', p', s') = closed_lem c r in
      let (c'', p'', s'') = Step-closed st c' in
      (c'', p'' ∙ p', λ p. ((s'' (p' ∙ p)).0 ∙ (s' p).0, (s'' (p' ∙ p)).1 ∙ (s' p).1))

  -- finish leaves a tombstone: whatever still runs after it, the request stays ended and no timer
  -- callback commits a preamble any more.
  pub closed_stays :
      {w v : Writer}
      → w.closed ≡ true
      → Reach unmarshal w v
      → (v.closed ≡ true) × (v.preflushed ≡ w.preflushed)
  closed_stays c r = let (c', p', s') = closed_lem c r in (c', p')

  -- A request that ended with its preamble out sends and reports nothing more, whatever still runs:
  -- no heartbeat, no second error event and no note.
  pub closed_silent :
      {w v : Writer}
      → w.closed ≡ true
      → w.preflushed ≡ true
      → Reach unmarshal w v
      → (v.calls ≡ w.calls) × (v.reports ≡ w.reports)
  closed_silent c p r = let (c', p', s') = closed_lem c r in s' p

-- All the bytes of a handler's writes.
abbrev pub concat : List (List ℕ) → List ℕ
concat [] = []
concat (b ∷ bs) = b ++ concat bs

abbrev pub write_all : Writer → List (List ℕ) → Writer
write_all w [] = w
write_all w (b ∷ bs) = write_all (write w b) bs

capture_take :
    (m : ℕ) (held b : List ℕ)
    → length held ≤ m
    → (if ltb (length held) m then held ++ take (m - length held) b else held) ≡ take m (held ++ b)
capture_take m held b h = ground (arith, take-append m held b, take-all m held h, append-nil held)

take-take_append : (m : ℕ) (s b : List ℕ) → take m (take m s ++ b) ≡ take m (s ++ b)
take-take_append zero s b = refl
take-take_append (suc m) [] b = refl
take-take_append (suc m) (x ∷ s) b = ap (◌∷◌ x) (take-take_append m s b)

capture_lem :
    (s b : List ℕ) → capture (take max_envelope_body s) b ≡ take max_envelope_body (s ++ b)
unfolding capture
capture_lem s b =
    capture_take max_envelope_body (take max_envelope_body s) b
      (omega (arith, length-take max_envelope_body s))
    ∙ take-take_append max_envelope_body s b

-- A writer that captures a failure body.
record IsCapturing (w : Writer) (code : ℕ) (calls : List Call) (seen : List ℕ) : Type 0 where
  out : w.preflushed ≡ true
  translates : w.translating ≡ true
  speaks : w.decided ≡ true
  live : w.terminated ≡ false
  running : w.closed ≡ false
  unstreamed : w.streamed ≡ false
  coded : w.intended ≡ code
  quiet : w.calls ≡ calls
  captured : w.err_buf ≡ take max_envelope_body seen

write-IsCapturing :
    (w : Writer) (code : ℕ) (calls : List Call) (seen b : List ℕ)
    → IsCapturing w code calls seen
    → IsCapturing (write w b) code calls (seen ++ b)
      × ((write w b).reports ≡ w.reports)
      × ((write w b).wants ≡ w.wants)
      × ((write w b).upload_cut_at ≡ w.upload_cut_at)
unfolding write
write-IsCapturing w code calls seen b i = ground (arith, i, capture_lem seen b)

-- What the end of the request reads beside the captured body.
record SameBooks (v w : Writer) : Type 0 where
  reported : v.reports ≡ w.reports
  wanted : v.wants ≡ w.wants
  uploaded : v.upload_cut_at ≡ w.upload_cut_at

write_all-IsCapturing :
    (w : Writer) (code : ℕ) (calls : List Call) (seen : List ℕ) (bs : List (List ℕ))
    → IsCapturing w code calls seen
    → IsCapturing (write_all w bs) code calls (seen ++ concat bs) × SameBooks (write_all w bs) w
write_all-IsCapturing w code calls seen [] i =
    (rw (append-nil seen) i, record { reported = refl; wanted = refl; uploaded = refl })
write_all-IsCapturing w code calls seen (b ∷ bs) i =
    let (j, r, n, u) = write-IsCapturing w code calls seen b i in
    let (k, s) = write_all-IsCapturing (write w b) code calls (seen ++ b) bs j in
    (
      rw (← append_assoc seen b (concat bs)) k,
      record { reported = s.reported ∙ r; wanted = s.wanted ∙ n; uploaded = s.uploaded ∙ u },
    )

-- A writer whose preamble is out and whose handler has not spoken yet.
pub record IsWaiting (w : Writer) : Type 0 where
  pub out : w.preflushed ≡ true
  pub undecided : w.decided ≡ false
  pub untranslated : w.translating ≡ false
  pub live : w.terminated ≡ false
  pub running : w.closed ≡ false
  pub unstreamed : w.streamed ≡ false
  pub nothing_held : w.err_buf ≡ []
  pub whole_upload : w.upload_cut_at ≡ none

heads-IsCapturing :
    (w : Writer) (code : ℕ)
    → 400 ≤ code
    → IsWaiting w
    → IsCapturing (write_header w code) code w.calls [] × SameBooks (write_header w code) w
unfolding write_header
heads-IsCapturing w code large i = (ground (arith, i), ground (arith, i))

finish-IsCapturing :
    (unmarshal : Text → Option ClaudeError) (w : Writer) (code inner : ℕ) (calls : List Call)
    (seen : List ℕ)
    → 400 ≤ code
    → w.wants on_translated ≡ true
    → w.upload_cut_at ≡ none
    → IsCapturing w code calls seen
    → let v = finish unmarshal w false in
      (v.calls
        ≡ calls
          ++ bytes (sse_error_frame unmarshal code (take max_envelope_body seen)) ∷ flush ∷ [])
      × (v.reports ≡ w.reports ++ translated code ∷ [])
      × (status_of v inner ≡ code)
unfolding finish closing_note status_of
finish-IsCapturing unmarshal w code inner calls seen large all whole i = ground (arith, i)

-- A failure that comes after the preamble, in any number of writes, reaches the client as exactly
-- one event that carries the status and the first 64 KiB of the body, is reported as that failure,
-- and Status answers with the handler's code rather than the 200 on the wire.
pub late_failure_translated :
    (unmarshal : Text → Option ClaudeError) (w : Writer) (code inner : ℕ) (bs : List (List ℕ))
    → 400 ≤ code
    → w.wants on_translated ≡ true
    → IsWaiting w
    → let v = finish unmarshal (write_all (write_header w code) bs) false in
      (v.calls
        ≡ w.calls
          ++ bytes (sse_error_frame unmarshal code (take max_envelope_body (concat bs)))
            ∷ flush
            ∷ [])
      × (v.reports ≡ w.reports ++ translated code ∷ [])
      × (status_of v inner ≡ code)
late_failure_translated unmarshal w code inner bs large all i =
    let (j, s) = heads-IsCapturing w code large i in
    let (k, t) = write_all-IsCapturing (write_header w code) code w.calls [] bs j in
    let (c, r, a) =
      finish-IsCapturing unmarshal _ code inner w.calls (concat bs) large
        (ap (λ (f : NoteKind → Bool). f on_translated) (t.wanted ∙ s.wanted) ∙ all)
        (t.uploaded ∙ s.uploaded ∙ i.whole_upload) k in
    (c, r ∙ ap (λ ns. ns ++ translated code ∷ []) (t.reported ∙ s.reported), a)
