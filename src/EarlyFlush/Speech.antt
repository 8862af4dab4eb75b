-- ===== src/EarlyFlush/Speech.antt =====
-- What the client of earlyFlushWriter is sent before its request ends.
use slimproxy.Base.{
  ℕ, ◌≡◌, inl, inr, Bool, true, false, not, ◌&&◌, Option, List, [], ◌∷◌, ◌++◌, Among, arith,
  Bool-cases,
}
use slimproxy.Text.{Text}
use slimproxy.Wire.{Header, bytes, flush}
use slimproxy.Envelope.Body.{ClaudeError}
use slimproxy.EarlyFlush.Frame.{sse_error_frame}
use slimproxy.EarlyFlush.Writer.{Writer, NoteKind, kind_of, on_timed_out, fresh}
use slimproxy.EarlyFlush.Finish.{finish, closing_status, closing_note}
use slimproxy.EarlyFlush.Steps.{Step, ends, Reach}
use slimproxy.EarlyFlush.Heard.{words, Concluded, Step-keeps, Spoken, Mute, Reach-Heard}
use slimproxy.EarlyFlush.Endings.{Ended, Reach-Ended, endings, endings-append, endings-closing}

-- What a client is sent of a request: some word of the handler; the watchdog's event, after which
-- finish sends nothing; or finish's own event, flushed, with one report of it. Only where the handler itself
-- gave a status below 400, or flushed, may nothing of this be sent.
pub data Speech {unmarshal : Text → Option ClaudeError} {u w : Writer} (r : Reach unmarshal u w)
    (v : Writer) : Type 0 where
  by_handler : (b : List ℕ) → Among b (words r) → Among (bytes b) v.calls → Speech r v
  by_watchdog :
      Among (bytes (sse_error_frame unmarshal 504 [])) v.calls
      → v.calls ≡ w.calls
      → endings v.reports ≡ 1
      → Speech r v
  by_finish :
      v.calls
        ≡ w.calls ++ bytes (sse_error_frame unmarshal (closing_status w) w.err_buf) ∷ flush ∷ []
      → v.reports ≡ w.reports ++ closing_note w.upload_cut_at (closing_status w) ∷ []
      → endings v.reports ≡ 1
      → Speech r v
  by_choice : Concluded r → Speech r v

silenced :
    (unmarshal : Text → Option ClaudeError) (w : Writer)
    → Ended w
    → ((k : NoteKind) → w.wants k ≡ true)
    → w.terminated ≡ true
    → ((finish unmarshal w false).calls ≡ w.calls)
      × (endings (finish unmarshal w false).reports ≡ 1)
unfolding finish
silenced unmarshal w i all t = ground (arith, t, i, all on_timed_out)

spoken_out :
    (unmarshal : Text → Option ClaudeError) (w : Writer)
    → Ended w
    → ((k : NoteKind) → w.wants k ≡ true)
    → w.closed ≡ false
    → w.preflushed ≡ true
    → w.streamed ≡ false
    → w.terminated ≡ false
    → w.decided && not w.translating ≡ false
    → let v = finish unmarshal w false in
      (v.calls
        ≡ w.calls ++ bytes (sse_error_frame unmarshal (closing_status w) w.err_buf) ∷ flush ∷ [])
      × (v.reports ≡ w.reports ++ closing_note w.upload_cut_at (closing_status w) ∷ [])
      × (endings v.reports ≡ 1)
unfolding finish
spoken_out unmarshal w i all o p s t d =
    let note = closing_note w.upload_cut_at (closing_status w) in
    ground (
      arith,
      o,
      p,
      s,
      t,
      d,
      i,
      all (kind_of note),
      endings-append w.reports (note ∷ []),
      endings-closing w.upload_cut_at (closing_status w),
    )

module _ {unmarshal : Text → Option ClaudeError} {h : Header} {wants : NoteKind → Bool}
    {now : ℕ} where
  -- A request whose preamble is out does not end in silence: when finish runs with every callback
  -- set and the client still there, either a word of the handler is among the calls of the writer
  -- underneath; or the watchdog's event is, finish adds no call and the one report of an ending is the
  -- watchdog's; or finish sends its own event, with the status and the captured body, and a flush, and
  -- reports it, once; or the handler gave a status below 400, or flushed.
  pub finish_speaks :
      {w : Writer} (r : Reach unmarshal (fresh h wants now) w)
      → ((k : NoteKind) → w.wants k ≡ true)
      → w.closed ≡ false
      → w.preflushed ≡ true
      → Speech r (finish unmarshal w false)
  unfolding Spoken Mute
  finish_speaks {w} r all o p =
      let i = Reach-Heard r in
      let st : Step unmarshal w (finish unmarshal w false) = ends false o in
      elim (Bool-cases w.streamed) [
        | inl s ↦ let (b, m, c) = i.handler s in by_handler b m (Step-keeps (bytes b) st c)
        | inr n ↦ elim (Bool-cases w.terminated) [
          | inl t ↦
              let q = silenced unmarshal w (Reach-Ended r) all t in
              by_watchdog (Step-keeps _ st (i.watchdog t)) q.0 q.1
          | inr l ↦ elim (Bool-cases (w.decided && not w.translating)) [
            | inl d ↦ by_choice (i.chosen (p, ground (arith, d), n, ground (arith, d)))
            | inr d ↦
                let q = spoken_out unmarshal w (Reach-Ended r) all o p n l d in
                by_finish q.0 q.1 q.2
          ]
        ]
      ]
