-- ===== src/EarlyFlush/Heard.antt =====
-- What of the calls of earlyFlushWriter its flags stand for.
use slimproxy.Base.{
  ℕ, ◌≡◌, ◌<◌, refl, sym, subst, ◌⊎◌, inl, inr, Bool, true, false, Option, List, [], ◌∷◌, ◌++◌,
  Among, arith, leb, Bool-cases,
}
use slimproxy.Text.{Text}
use slimproxy.Wire.{Call, Header, bytes, flush, status}
use slimproxy.Envelope.Body.{ClaudeError}
use slimproxy.EarlyFlush.Frame.{sse_error_frame}
use slimproxy.EarlyFlush.Writer.{
  Writer, NoteKind, fresh, set_shadow, upload_failed, rearm, commit_shadow,
}
use slimproxy.EarlyFlush.Handler.{write_header, write, flush_out}
use slimproxy.EarlyFlush.Timer.{flush_now, tick, keep_alive}
use slimproxy.EarlyFlush.Finish.{finish, closing_status}
use slimproxy.EarlyFlush.Steps.{
  Step, sets, heads, writes, flushes, rearms, fires, ticks, cuts, ends, Reach, here, next,
}
use slimproxy.EarlyFlush.Invariant.{Flags, Reach-Flags}

module _ {unmarshal : Text → Option ClaudeError} {u : Writer} where
  -- What the handler wrote, the last first.
  abbrev pub words : {w : Writer} → Reach unmarshal u w → List (List ℕ)
  words here = []
  words (next r (writes b)) = b ∷ words r
  words (next r (sets k vs)) = words r
  words (next r (heads code)) = words r
  words (next r flushes) = words r
  words (next r rearms) = words r
  words (next r (fires said now)) = words r
  words (next r (ticks now)) = words r
  words (next r (cuts received declared d c)) = words r
  words (next r (ends gone c)) = words r

  -- The handler gave a status below 400, or flushed.
  abbrev pub Concluded : {w : Writer} → Reach unmarshal u w → Type 0
  Concluded here = ⊥
  Concluded (next r (heads code)) = (code < 400) ⊎ Concluded r
  Concluded (next r flushes) = Unit
  Concluded (next r (writes b)) = Concluded r
  Concluded (next r (sets k vs)) = Concluded r
  Concluded (next r rearms) = Concluded r
  Concluded (next r (fires said now)) = Concluded r
  Concluded (next r (ticks now)) = Concluded r
  Concluded (next r (cuts received declared d c)) = Concluded r
  Concluded (next r (ends gone c)) = Concluded r

Among-append : {A : Type 0} (a : A) (xs ys : List A) → Among a xs → Among a (xs ++ ys)
Among-append a [] ys m = absurd m
Among-append a (x ∷ xs) ys (inl e) = inl e
Among-append a (x ∷ xs) ys (inr m) = inr (Among-append a xs ys m)

Among-last : {A : Type 0} (a : A) (xs ys : List A) → Among a (xs ++ a ∷ ys)
Among-last a [] ys = inl refl
Among-last a (x ∷ xs) ys = inr (Among-last a xs ys)

-- Nothing that was sent is taken back.
pub Step-keeps :
    {unmarshal : Text → Option ClaudeError} {w v : Writer} (c : Call)
    → Step unmarshal w v
    → Among c w.calls
    → Among c v.calls
unfolding set_shadow write_header write flush_out rearm flush_now tick upload_failed finish
    commit_shadow
Step-keeps c (sets k vs) m = m
Step-keeps {w} c (heads code) m = ground (arith, m, Among-append c w.calls (status code ∷ []) m)
Step-keeps {w} c (writes b) m = ground (arith, m, Among-append c w.calls (bytes b ∷ []) m)
Step-keeps {w} c flushes m = ground (arith, m, Among-append c w.calls (flush ∷ []) m)
Step-keeps c rearms m = ground (arith, m)
Step-keeps {w} c (fires said now) m =
    ground (arith, m, Among-append c w.calls (status 200 ∷ flush ∷ []) m)
Step-keeps {unmarshal} {w} c (ticks now) m = ground (
  arith,
  m,
  Among-append c w.calls (bytes (sse_error_frame unmarshal 504 []) ∷ flush ∷ []) m,
  Among-append c w.calls (bytes keep_alive ∷ flush ∷ []) m,
)
Step-keeps c (cuts received declared d o) m = m
Step-keeps {unmarshal} {w} c (ends gone o) m = ground (
  arith,
  m,
  Among-append c w.calls
      (bytes (sse_error_frame unmarshal (closing_status w) w.err_buf) ∷ flush ∷ []) m,
)

-- What was heard before a step is heard after it.
module _ {unmarshal : Text → Option ClaudeError} {u : Writer} where
  words-next :
      {w v : Writer} (c : List ℕ) (r : Reach unmarshal u w) (st : Step unmarshal w v)
      → Among c (words r)
      → Among c (words (next r st))
  words-next c r (sets k vs) m = m
  words-next c r (heads code) m = m
  words-next c r (writes b) m = inr m
  words-next c r flushes m = m
  words-next c r rearms m = m
  words-next c r (fires said now) m = m
  words-next c r (ticks now) m = m
  words-next c r (cuts received declared d o) m = m
  words-next c r (ends gone o) m = m

  Concluded-next :
      {w v : Writer} (r : Reach unmarshal u w) (st : Step unmarshal w v)
      → Concluded r
      → Concluded (next r st)
  Concluded-next r (sets k vs) c = c
  Concluded-next r (heads code) c = inr c
  Concluded-next r (writes b) c = c
  Concluded-next r flushes c = tt
  Concluded-next r rearms c = c
  Concluded-next r (fires said now) c = c
  Concluded-next r (ticks now) c = c
  Concluded-next r (cuts received declared d o) c = c
  Concluded-next r (ends gone o) c = c

first_word :
    (w : Writer) (b : List ℕ)
    → (write w b).streamed ≡ true
    → w.streamed ≡ false
    → Flags w
    → (write w b).calls ≡ w.calls ++ bytes b ∷ []
unfolding write commit_shadow
first_word w b s n f = ground (arith, s, n, f)

last_word :
    (unmarshal : Text → Option ClaudeError) (w : Writer) (now : ℕ)
    → (tick unmarshal w now).terminated ≡ true
    → w.terminated ≡ false
    → (tick unmarshal w now).calls
      ≡ w.calls ++ bytes (sse_error_frame unmarshal 504 []) ∷ flush ∷ []
unfolding tick
last_word unmarshal w now s n = ground (arith, s, n)

-- The handler has had its say, and nothing of it is on the wire.
unfoldable pub Mute : Writer → Type 0
Mute w = (w.preflushed ≡ true) × (w.decided ≡ true) × (w.streamed ≡ false) × (w.translating ≡ false)

module _ {unmarshal : Text → Option ClaudeError} {h : Header} {wants : NoteKind → Bool}
    {now : ℕ} where
  -- A step by which the handler streams for the first time sends what it wrote.
  unfoldable pub Spoken : {w : Writer} → Reach unmarshal (fresh h wants now) w → Type 0
  Spoken {w} r = (b : List ℕ) × Among b (words r) × Among (bytes b) w.calls

  -- Where the flags say so, the calls bear them out.
  pub record Heard {w : Writer} (r : Reach unmarshal (fresh h wants now) w) : Type 0 where
    pub handler : w.streamed ≡ true → Spoken r
    pub watchdog : w.terminated ≡ true → Among (bytes (sse_error_frame unmarshal 504 [])) w.calls
    pub chosen : Mute w → Concluded r

  kept_Spoken :
      {w v : Writer} (r : Reach unmarshal (fresh h wants now) w) (st : Step unmarshal w v)
      → Spoken r
      → Spoken (next r st)
  unfolding Spoken
  kept_Spoken r st (b, m, c) = (b, words-next b r st m, Step-keeps (bytes b) st c)

  new_Spoken :
      {w v : Writer} (b : List ℕ) (r : Reach unmarshal (fresh h wants now) w)
      (st : Step unmarshal w v)
      → Among b (words (next r st))
      → v.calls ≡ w.calls ++ bytes b ∷ []
      → Spoken (next r st)
  unfolding Spoken
  new_Spoken {w} b r st m e =
      (b, m, subst (Among (bytes b)) (sym e) (Among-last (bytes b) w.calls []))

  Step-handler :
      {w v : Writer} (r : Reach unmarshal (fresh h wants now) w) (st : Step unmarshal w v)
      → Flags w
      → Heard r
      → v.streamed ≡ true
      → Spoken (next r st)
  unfolding set_shadow write_header flush_out rearm flush_now tick upload_failed finish
      commit_shadow
  Step-handler r (sets k vs) f i e = kept_Spoken r (sets k vs) (i.handler e)
  Step-handler r (heads code) f i e = kept_Spoken r (heads code) (i.handler (ground (arith, e)))
  Step-handler {w} r (writes b) f i e = elim (Bool-cases w.streamed) [
    | inl y ↦ kept_Spoken r (writes b) (i.handler y)
    | inr n ↦ new_Spoken b r (writes b) (inl refl) (first_word w b e n f)
  ]
  Step-handler r flushes f i e = kept_Spoken r flushes (i.handler (ground (arith, e)))
  Step-handler r rearms f i e = kept_Spoken r rearms (i.handler (ground (arith, e)))
  Step-handler r (fires said now) f i e =
      kept_Spoken r (fires said now) (i.handler (ground (arith, e)))
  Step-handler r (ticks now) f i e = kept_Spoken r (ticks now) (i.handler (ground (arith, e)))
  Step-handler r (cuts received declared d o) f i e =
      kept_Spoken r (cuts received declared d o) (i.handler e)
  Step-handler r (ends gone o) f i e = kept_Spoken r (ends gone o) (i.handler (ground (arith, e)))

  Step-watchdog :
      {w v : Writer} (r : Reach unmarshal (fresh h wants now) w) (st : Step unmarshal w v)
      → Heard r
      → v.terminated ≡ true
      → Among (bytes (sse_error_frame unmarshal 504 [])) v.calls
  unfolding set_shadow write_header write flush_out rearm flush_now upload_failed finish
      commit_shadow
  Step-watchdog {w} {v} r (sets k vs) i e =
      Step-keeps {unmarshal = unmarshal} {w = w} {v = v} _ (sets k vs) (i.watchdog e)
  Step-watchdog {w} {v} r (heads code) i e =
      Step-keeps {unmarshal = unmarshal} {w = w} {v = v} _ (heads code)
        (i.watchdog (ground (arith, e)))
  Step-watchdog {w} {v} r (writes b) i e =
      Step-keeps {unmarshal = unmarshal} {w = w} {v = v} _ (writes b)
        (i.watchdog (ground (arith, e)))
  Step-watchdog {w} {v} r flushes i e =
      Step-keeps {unmarshal = unmarshal} {w = w} {v = v} _ flushes (i.watchdog (ground (arith, e)))
  Step-watchdog {w} {v} r rearms i e =
      Step-keeps {unmarshal = unmarshal} {w = w} {v = v} _ rearms (i.watchdog (ground (arith, e)))
  Step-watchdog {w} {v} r (fires said now) i e =
      Step-keeps {unmarshal = unmarshal} {w = w} {v = v} _ (fires said now)
        (i.watchdog (ground (arith, e)))
  Step-watchdog {w} {v} r (ticks at) i e = elim (Bool-cases w.terminated) [
    | inl y ↦ Step-keeps {unmarshal = unmarshal} {w = w} {v = v} _ (ticks at) (i.watchdog y)
    | inr n ↦
        subst (Among (bytes (sse_error_frame unmarshal 504 [])))
          (sym (last_word unmarshal w at e n)) (Among-last _ w.calls (flush ∷ []))
  ]
  Step-watchdog {w} {v} r (cuts received declared d o) i e =
      Step-keeps {unmarshal = unmarshal} {w = w} {v = v} _ (cuts received declared d o)
        (i.watchdog e)
  Step-watchdog {w} {v} r (ends gone o) i e =
      Step-keeps {unmarshal = unmarshal} {w = w} {v = v} _ (ends gone o)
        (i.watchdog (ground (arith, e)))

  Step-chosen :
      {w v : Writer} (r : Reach unmarshal (fresh h wants now) w) (st : Step unmarshal w v)
      → Flags w
      → (Mute w → Concluded r)
      → Mute v
      → Concluded (next r st)
  unfolding set_shadow write_header write flush_out rearm flush_now tick upload_failed finish
      commit_shadow Mute
  Step-chosen r (sets k vs) f i m = i (ground (arith, m, f))
  Step-chosen r (heads code) f i m = elim (Bool-cases (leb 400 code)) [
    | inl y ↦ inr (i (ground (arith, y, m, f)))
    | inr n ↦ inl (ground (arith, n))
  ]
  Step-chosen r (writes b) f i m = i (ground (arith, m, f))
  Step-chosen r flushes f i m = tt
  Step-chosen r rearms f i m = i (ground (arith, m, f))
  Step-chosen r (fires said now) f i m = i (ground (arith, m, f))
  Step-chosen r (ticks now) f i m = i (ground (arith, m, f))
  Step-chosen r (cuts received declared d o) f i m = i (ground (arith, m, f))
  Step-chosen r (ends gone o) f i m = i (ground (arith, m, f))

  pub Reach-Heard : {w : Writer} (r : Reach unmarshal (fresh h wants now) w) → Heard r
  unfolding Mute
  Reach-Heard here = record {
    handler = λ e. absurd (cc e);
    watchdog = λ e. absurd (cc e);
    chosen = λ m. absurd (cc m.0);
  }
  Reach-Heard (next r st) =
      let f = Reach-Flags r in
      let i = Reach-Heard r in
      record {
        handler = Step-handler r st f i;
        watchdog = Step-watchdog r st i;
        chosen = Step-chosen r st f i.chosen;
      }
