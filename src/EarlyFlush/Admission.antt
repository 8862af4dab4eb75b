-- ===== src/EarlyFlush/Admission.antt =====
-- Which requests EarlyFlushMiddleware leaves alone, and which it does not let go of.
use slimproxy.Base.{
  ℕ, ◌≡◌, refl, ap, ◌∙◌, Bool, true, false, Option, some, List, [], ◌∷◌, ◌++◌, append_assoc, arith,
  length, All,
}
use slimproxy.Text.{Text}
use slimproxy.Wire.{bytes, flush, Header}
use slimproxy.Envelope.Body.{ClaudeError}
use slimproxy.EarlyFlush.Frame.{sse_error_frame}
use slimproxy.EarlyFlush.Writer.{
  Writer, NoteKind, on_upload_cut, upload_cut, Field, literal_false, fresh, try_disarm,
  upload_failed,
}
use slimproxy.EarlyFlush.Timer.{flush_now}
use slimproxy.EarlyFlush.Finish.{finish, closing_note}
use slimproxy.EarlyFlush.Middleware.{
  Reads, more, last, broken, read_all, Request, passes, aborts, after_read, uploading, verdict,
}
use slimproxy.EarlyFlush.Late.{IsWaiting}

-- All the bytes that the reads deliver, and whether they end with EOF.
abbrev pub delivered : Reads → List ℕ
delivered (more b r) = b ++ delivered r
delivered (last b) = b
delivered (broken b) = b

abbrev pub ends_well : Reads → Bool
ends_well (more b r) = ends_well r
ends_well (last b) = true
ends_well (broken b) = false

-- The sniffer keeps every byte that was delivered, in order and also when the upload breaks off, and
-- calls the body complete exactly when it ended with EOF.
pub read_all_lem : (buf : List ℕ) (r : Reads) → read_all buf r ≡ (buf ++ delivered r, ends_well r)
unfolding read_all
read_all_lem buf (more b r) =
    read_all_lem (buf ++ b) r ∙ ap (λ s. (s, ends_well r)) (append_assoc buf b (delivered r))
read_all_lem buf (last b) = refl
read_all_lem buf (broken b) = refl

cut_ends :
    (unmarshal : Text → Option ClaudeError) (w : Writer) (received declared : ℕ)
    → IsWaiting w
    → w.intended ≡ 0
    → w.wants on_upload_cut ≡ true
    → let v = finish unmarshal (upload_failed w received declared) false in
      (v.calls ≡ w.calls ++ bytes (sse_error_frame unmarshal 502 []) ∷ flush ∷ [])
      × (v.reports ≡ w.reports ++ upload_cut received declared ∷ [])
unfolding finish upload_failed closing_note
cut_ends unmarshal w received declared i n all = ground (arith, i)

module _ (unmarshal : Text → Option ClaudeError) (field_of : List ℕ → Field) where
  -- No firing saw a prefix that lacks a literal `stream: false`.
  abbrev pub SaysFalse : List ℕ × ℕ → Type 0
  SaysFalse (prefix, now) = field_of prefix ≡ literal_false

  holds_fire :
      (w : Writer) (prefix : List ℕ) (now : ℕ)
      → field_of prefix ≡ literal_false
      → w.preflushed ≡ false
      → w.sniffing ≡ true
      → let v = flush_now w (verdict field_of prefix) now in
        (v.preflushed ≡ false) × (v.sniffing ≡ true) × (v.calls ≡ w.calls) × (v.header ≡ w.header)
  unfolding flush_now verdict
  holds_fire w prefix now e p s = ground (arith, e)

  held :
      (w : Writer) (firings : List (List ℕ × ℕ))
      → All SaysFalse firings
      → w.preflushed ≡ false
      → w.sniffing ≡ true
      → let v = uploading field_of w firings in
        (v.preflushed ≡ false) × (v.calls ≡ w.calls) × (v.header ≡ w.header)
  unfolding uploading
  held w [] ok p s = (p, refl, refl)
  held w ((prefix, now) ∷ firings) ok p s =
      let (q, t, c, h) = holds_fire w prefix now ok.0 p s in
      let (a, b, d) = held (flush_now w (verdict field_of prefix) now) firings ok.1 q t in
      (a, b ∙ c, d ∙ h)

  -- A request that says `stream: false` in every prefix that the desperation timer saw, and in its
  -- complete body, is handed on with the writer it came with: no event-stream header reaches it.
  pub non_streaming_passes :
      (h : Header) (wants : NoteKind → Bool) (now delay elapsed : ℕ) (r : Request) (gone : Bool)
      (firings : List (List ℕ × ℕ)) (body : List ℕ)
      → All SaysFalse firings
      → field_of body ≡ literal_false
      → let w = uploading field_of (fresh h wants now) firings in
        (after_read unmarshal field_of delay r w (body, true) elapsed gone ≡ passes)
        × (w.calls ≡ [])
        × (w.header ≡ h)
  unfolding after_read try_disarm
  non_streaming_passes h wants now delay elapsed r gone firings body ok e =
      let (p, c, d) = held (fresh h wants now) firings ok refl refl in (ground (arith, e, p), c, d)

  -- An upload that breaks off behind the preamble, with the client still there, ends the request with
  -- one event under status 502, and is reported as a cut upload, with the bytes that came and those
  -- that were declared, and not as an upstream failure.
  pub broken_upload_ends :
      (w : Writer) (delay elapsed declared : ℕ) (r : Request) (body : List ℕ)
      → IsWaiting w
      → w.intended ≡ 0
      → w.wants on_upload_cut ≡ true
      → r.content_length ≡ some declared
      → let v = finish unmarshal (upload_failed w (length body) declared) false in
        (after_read unmarshal field_of delay r w (body, false) elapsed false ≡ aborts v)
        × (v.calls ≡ w.calls ++ bytes (sse_error_frame unmarshal 502 []) ∷ flush ∷ [])
        × (v.reports ≡ w.reports ++ upload_cut (length body) declared ∷ [])
  unfolding after_read try_disarm
  broken_upload_ends w delay elapsed declared r body i n all cl =
      let (c, n') = cut_ends unmarshal w (length body) declared i n all in
      (ground (arith, i, cl), c, n')
