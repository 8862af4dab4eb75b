-- ===== src/EarlyFlush/Untouched.antt =====
-- earlyFlushWriter of proxy/earlyflush.go on a request that is answered inside the threshold.
use slimproxy.Base.{
  ℕ, ◌≡◌, refl, sym, ap, ◌∙◌, true, false, Option, List, [], ◌∷◌, ◌++◌, append-nil, append_assoc,
  arith,
}
use slimproxy.Text.{Text}
use slimproxy.Wire.{Call, status, bytes, flush, lookup}
use slimproxy.Envelope.Body.{ClaudeError}
use slimproxy.EarlyFlush.Writer.{Writer, Verdict, set_shadow, commit_shadow, committed_header}
use slimproxy.EarlyFlush.Handler.{write_header, write, flush_out}
use slimproxy.EarlyFlush.Timer.{flush_now, tick}
use slimproxy.EarlyFlush.Shadow.{lookup-committed_header}

-- What the handler says, and what happens beside it.
pub data Word : Type 0 where
  heads : ℕ → Word
  writes : List ℕ → Word
  flushes : Word

pub data Act : Type 0 where
  says : Word → Act
  sets : Text → List Text → Act
  fires : Verdict → ℕ → Act
  ticks : ℕ → Act

abbrev pub say : Writer → Word → Writer
say w (heads code) = write_header w code
say w (writes b) = write w b
say w flushes = flush_out w

-- The calls of a handler that has the writer underneath to itself.
abbrev pub forward : Word → Call
forward (heads code) = status code
forward (writes b) = bytes b
forward flushes = flush

abbrev pub forwards : List Act → List Call
forwards [] = []
forwards (says m ∷ acts) = forward m ∷ forwards acts
forwards (sets k vs ∷ acts) = forwards acts
forwards (fires said now ∷ acts) = forwards acts
forwards (ticks now ∷ acts) = forwards acts

forwards-cons :
    (a : Act) (acts : List Act) → forwards (a ∷ acts) ≡ forwards (a ∷ []) ++ forwards acts
forwards-cons (says m) acts = refl
forwards-cons (sets k vs) acts = refl
forwards-cons (fires said now) acts = refl
forwards-cons (ticks now) acts = refl

module _ (unmarshal : Text → Option ClaudeError) where
  abbrev pub act : Writer → Act → Writer
  act w (says m) = say w m
  act w (sets k vs) = set_shadow w k vs
  act w (fires said now) = flush_now w said now
  act w (ticks now) = tick unmarshal w now

  abbrev pub run : Writer → List Act → Writer
  run w [] = w
  run w (a ∷ acts) = run (act w a) acts

  -- The handler spoke first.
  record IsAnswered (w : Writer) : Type 0 where
    spoke : w.decided ≡ true
    first : w.preflushed ≡ false
    moved : w.committed ≡ true
    still : w.beating ≡ false

  say-IsAnswered :
      (w : Writer) (m : Word)
      → IsAnswered w
      → IsAnswered (say w m)
        × ((say w m).calls ≡ w.calls ++ forward m ∷ [])
        × ((say w m).header ≡ w.header)
  unfolding write_header write flush_out commit_shadow
  say-IsAnswered w (heads code) i = ground (arith, i)
  say-IsAnswered w (writes b) i = ground (arith, i)
  say-IsAnswered w flushes i = ground (arith, i)

  act-IsAnswered :
      (w : Writer) (a : Act)
      → IsAnswered w
      → IsAnswered (act w a)
        × ((act w a).calls ≡ w.calls ++ forwards (a ∷ []))
        × ((act w a).header ≡ w.header)
  unfolding set_shadow flush_now tick
  act-IsAnswered w (says m) i = say-IsAnswered w m i
  act-IsAnswered w (sets k vs) i = ground (arith, i, append-nil w.calls)
  act-IsAnswered w (fires said now) i = ground (arith, i, append-nil w.calls)
  act-IsAnswered w (ticks now) i = ground (arith, i, append-nil w.calls)

  run-IsAnswered :
      (w : Writer) (acts : List Act)
      → IsAnswered w
      → ((run w acts).calls ≡ w.calls ++ forwards acts) × ((run w acts).header ≡ w.header)
  run-IsAnswered w [] i = (sym (append-nil w.calls), refl)
  run-IsAnswered w (a ∷ acts) i =
      let (j, told, kept) = act-IsAnswered w a i in
      let (calls, header) = run-IsAnswered (act w a) acts j in
      (
        calls
            ∙ ap (λ cs. cs ++ forwards acts) told
            ∙ append_assoc w.calls (forwards (a ∷ [])) (forwards acts)
            ∙ ap (◌++◌ w.calls) (sym (forwards-cons a acts)),
        header ∙ kept,
      )

  first_word :
      (w : Writer) (m : Word)
      → w.calls ≡ []
      → w.preflushed ≡ false
      → w.committed ≡ false
      → w.beating ≡ false
      → IsAnswered (say w m)
        × ((say w m).calls ≡ forward m ∷ [])
        × ((say w m).header ≡ committed_header w.shadow w.header)
  unfolding write_header write flush_out commit_shadow
  first_word w (heads code) c p k b = ground arith
  first_word w (writes bs) c p k b = ground arith
  first_word w flushes c p k b = ground arith

  -- Where the handler's first word comes before the timer fires, the writer underneath is told what
  -- the handler says, word for word and in order, whatever the timer and the heartbeat do meanwhile,
  -- and its header map has, key by key, what the handler's had at that first word.
  pub answered_in_time :
      (w : Writer) (m : Word) (acts : List Act)
      → w.calls ≡ []
      → w.preflushed ≡ false
      → w.committed ≡ false
      → w.beating ≡ false
      → ((run w (says m ∷ acts)).calls ≡ forwards (says m ∷ acts))
        × ((k : Text) → lookup k (run w (says m ∷ acts)).header ≡ lookup k w.shadow)
  answered_in_time w m acts c p k b =
      let (i, told, header) = first_word w m c p k b in
      let (calls, kept) = run-IsAnswered (say w m) acts i in
      (
        calls ∙ ap (λ cs. cs ++ forwards acts) told,
        λ key. ap (lookup key) (kept ∙ header) ∙ lookup-committed_header key w.shadow w.header,
      )
