-- ===== src/Envelope/Delivery.antt =====
-- What envelopeWriter of proxy/errorenvelope.go delivers of a success and of a failure.
use slimproxy.Base.{
  ◌≢◌, refl, none, some, Among, Bool-cases, inl, inr, if◌then◌else◌, false, ℕ, ◌+◌, ◌≤◌, ◌<◌, ◌≡◌,
  sym, ap, ◌∙◌, true, false, Option, List, [], ◌∷◌, ◌++◌, append-nil, append_assoc, arith, All,
}
use slimproxy.Text.{
  Text, codes, trim_space, text_eq_sound, text_eq_refl, byte_len, byte_len-append, byte_len-nil,
}
use slimproxy.Wire.{Call, status, bytes, flush, Header}
use slimproxy.Text.Among.{any-Among, Among-any}
use slimproxy.Envelope.Body.{
  ClaudeError, is_empty, decoded_shows_upstream, upstream_error_types, shows_upstream,
  is_upstream_failure, replacement_envelope, shown_body,
}
use slimproxy.Envelope.Message.{safe_message}
use slimproxy.Envelope.Writer.{
  Writer, fresh, is_event_stream, max_envelope_body, finish, Op, heads, writes, flushes, sets,
  apply, run, write, flush_out,
}

-- The calls that reach the network when the wrapper stays out of the way, and the bytes among them.
abbrev pub forward : Op → List Call
forward (heads code) = status code ∷ []
forward (writes b) = bytes b ∷ []
forward flushes = flush ∷ []
forward (sets k v) = []

abbrev pub forwards : List Op → List Call
forwards [] = []
forwards (op ∷ ops) = forward op ++ forwards ops

abbrev pub body_of : List Op → Text
body_of [] = []
body_of (writes b ∷ ops) = b ++ body_of ops
body_of (heads code ∷ ops) = body_of ops
body_of (flushes ∷ ops) = body_of ops
body_of (sets k v ∷ ops) = body_of ops

-- The wrapper has decided to stay out of the way.
abbrev IsOpen : Writer → Type 0
IsOpen w = (w.decided ≡ true) × (w.buffering ≡ false)

apply-IsOpen :
    (w : Writer) (op : Op)
    → IsOpen w
    → IsOpen (apply w op) × ((apply w op).calls ≡ w.calls ++ forward op)
unfolding apply
apply-IsOpen w (heads code) o = ground arith
apply-IsOpen w (writes b) o = ground arith
apply-IsOpen w flushes o = ground arith
apply-IsOpen w (sets k v) o = ground (arith, append-nil w.calls)

run-IsOpen :
    (w : Writer) (ops : List Op)
    → IsOpen w
    → IsOpen (run w ops) × ((run w ops).calls ≡ w.calls ++ forwards ops)
unfolding run
run-IsOpen w [] o = (o, sym (append-nil w.calls))
run-IsOpen w (op ∷ ops) o =
    let one = apply-IsOpen w op o in
    let rest = run-IsOpen (apply w op) ops one.0 in
    (
      rest.0,
      rest.1
          ∙ ap (λ cs. cs ++ forwards ops) one.1
          ∙ append_assoc w.calls (forward op) (forwards ops),
    )

finish-IsOpen :
    (unmarshal : Text → Option ClaudeError) (w : Writer) → IsOpen w → finish unmarshal w ≡ w
unfolding finish
finish-IsOpen unmarshal w o = ground arith

heads_small :
    (h : Header) (code : ℕ)
    → code < 400
    → IsOpen (apply (fresh h) (heads code))
      × ((apply (fresh h) (heads code)).calls ≡ status code ∷ [])
unfolding apply
heads_small h code small = ground arith

-- The wrapper has decided to hold the body back.
record IsHeld (w : Writer) (code : ℕ) (held : Text) : Type 0 where
  decides : w.decided ≡ true
  buffers : w.buffering ≡ true
  kept : w.overflowed ≡ false
  silent : w.calls ≡ []
  coded : w.status_code ≡ code
  holds : w.buf ≡ held

-- The operations of a handler that is past its status line and sets no more headers.
abbrev pub IsBody : Op → Type 0
IsBody (heads code) = ⊥
IsBody (writes b) = Unit
IsBody flushes = Unit
IsBody (sets k v) = ⊥

run-IsHeld :
    (w : Writer) (code : ℕ) (held : Text) (ops : List Op)
    → All IsBody ops
    → byte_len held + byte_len (body_of ops) ≤ max_envelope_body
    → IsHeld w code held
    → IsHeld (run w ops) code (held ++ body_of ops)
unfolding run apply
run-IsHeld w code held [] ok fits i = rw (append-nil held) i
run-IsHeld w code held (heads c ∷ ops) ok fits i = absurd ok.0
run-IsHeld w code held (writes b ∷ ops) ok fits i = rw (← append_assoc held b (body_of ops)) (
    run-IsHeld (write w b) code (held ++ b) ops ok.1
      (omega (arith, byte_len-append held b, byte_len-append b (body_of ops), fits))
      (ground (arith, i, fits, byte_len-append b (body_of ops))))
run-IsHeld w code held (flushes ∷ ops) ok fits i =
    run-IsHeld (flush_out w) code held ops ok.1 fits (ground (arith, i))
run-IsHeld w code held (sets k v ∷ ops) ok fits i = absurd ok.0

finish-IsHeld :
    (unmarshal : Text → Option ClaudeError) (w : Writer) (code : ℕ) (held : Text)
    → IsHeld w code held
    → (finish unmarshal w).calls ≡ status code ∷ bytes (shown_body unmarshal code held) ∷ []
unfolding finish
finish-IsHeld unmarshal w code held i = ground (arith, i)

heads_large :
    (h : Header) (code : ℕ)
    → 400 ≤ code
    → is_event_stream h ≡ false
    → IsHeld (apply (fresh h) (heads code)) code []
unfolding apply
heads_large h code large json = ground arith

-- A decoded body that may be shown: an error, of a type that the upstream has, with a safe message.
unfoldable pub Showable : ClaudeError → Type 0
Showable ce =
    (ce.kind ≡ codes "error")
    × Among ce.error_type upstream_error_types
    × (safe_message ce.message ≡ true)

-- What reaches the network of a failure: its status and one body, of which it is said when it is the handler's
-- and when it is the replacement.
unfoldable pub GoesOut : (Text → Option ClaudeError) → ℕ → Text → List Call → Type 0
GoesOut unmarshal code body calls =
    ((ce : ClaudeError)
      → unmarshal (trim_space body) ≡ some ce
      → trim_space body ≢ []
      → Showable ce
      → calls ≡ status code ∷ bytes body ∷ [])
    × ((ce : ClaudeError)
        → unmarshal (trim_space body) ≡ some ce
        → ¬ Showable ce
        → calls ≡ status code ∷ bytes (replacement_envelope code body) ∷ [])
    × (unmarshal (trim_space body) ≡ none
        → calls ≡ status code ∷ bytes (replacement_envelope code body) ∷ [])
    × (trim_space body ≡ [] → calls ≡ status code ∷ bytes (replacement_envelope code body) ∷ [])

shows-Showable : (ce : ClaudeError) → shows_upstream ce ≡ true → Showable ce
unfolding shows_upstream Showable
shows-Showable ce e = (
  text_eq_sound ce.kind (codes "error") (ground (arith, e)),
  any-Among ce.error_type upstream_error_types (ground (arith, e)),
  ground (arith, e),
)

Showable-shows : (ce : ClaudeError) → Showable ce → shows_upstream ce ≡ true
unfolding shows_upstream Showable
Showable-shows ce (k, t, m) = rw k (
    rw (text_eq_refl (codes "error"))
      (rw (Among-any ce.error_type upstream_error_types t) (rw m refl)))

-- The verdict on a body, by its trimmed text and what the decoder made of it.
shows_text :
    (t : Text) (o : Option ClaudeError)
    → t ≢ []
    → decoded_shows_upstream o ≡ true
    → (if is_empty t then false else decoded_shows_upstream o) ≡ true
shows_text [] o n d = absurd (n refl)
shows_text (c ∷ t) o n d = d

hides_text :
    (t : Text) (o : Option ClaudeError)
    → decoded_shows_upstream o ≡ false
    → (if is_empty t then false else decoded_shows_upstream o) ≡ false
hides_text [] o d = refl
hides_text (c ∷ t) o d = d

shown-GoesOut :
    (unmarshal : Text → Option ClaudeError) (code : ℕ) (body : Text) (calls : List Call)
    → calls ≡ status code ∷ bytes (shown_body unmarshal code body) ∷ []
    → GoesOut unmarshal code body calls
unfolding GoesOut shown_body is_upstream_failure
shown-GoesOut unmarshal code body calls e = (
  (λ ce u n s. own (shows_text (trim_space body) _ n (rw u (Showable-shows ce s)))),
  (λ ce u s. other (hides_text (trim_space body) _ (rw u (hidden ce s)))),
  (λ u. other (hides_text (trim_space body) _ (rw u refl))),
  (λ n. other (rw n refl)),
)
  where
    own : is_upstream_failure unmarshal body ≡ true → calls ≡ status code ∷ bytes body ∷ []
    own t = e ∙ rw t refl

    other :
        is_upstream_failure unmarshal body ≡ false
        → calls ≡ status code ∷ bytes (replacement_envelope code body) ∷ []
    other t = e ∙ rw t refl

    hidden : (ce : ClaudeError) → ¬ Showable ce → shows_upstream ce ≡ false
    hidden ce s = elim (Bool-cases (shows_upstream ce)) [
      | inl y ↦ absurd (s (shows-Showable ce y))
      | inr n ↦ n
    ]

module _ (unmarshal : Text → Option ClaudeError) (h : Header) (code : ℕ) (ops : List Op) where
  -- A response whose first status is below 400 reaches the network call for call as the handler
  -- made it, and finish adds nothing: a stream is never buffered.
  pub success_passes :
      code < 400
      → (finish unmarshal (run (fresh h) (heads code ∷ ops))).calls ≡ forwards (heads code ∷ ops)
  unfolding run
  success_passes small =
      let (open_w, told) = heads_small h code small in
      let (open_r, said) = run-IsOpen (apply (fresh h) (heads code)) ops open_w in
      ap (λ (w : Writer). w.calls) (finish-IsOpen unmarshal _ open_r)
      ∙ said
      ∙ ap (λ cs. cs ++ forwards ops) told

  -- A failure that is not an event stream, of a handler that after its status line sets no header
  -- and no other status, and whose body fits the bound, reaches the network as that status and one body:
  -- the handler's, where it is an error of the upstream's own form with a safe message; the replacement
  -- otherwise, so always where it cannot be decoded, or its message is not safe.
  pub failure_delivered :
      400 ≤ code
      → is_event_stream h ≡ false
      → All IsBody ops
      → byte_len (body_of ops) ≤ max_envelope_body
      → GoesOut unmarshal code
          (body_of ops)
          (finish unmarshal (run (fresh h) (heads code ∷ ops))).calls
  unfolding run
  failure_delivered large json ok fits = shown-GoesOut unmarshal code (body_of ops) _ (
      finish-IsHeld unmarshal _ code (body_of ops)
        (run-IsHeld _ code [] ops ok (omega (arith, byte_len-nil)) (heads_large h code large json)))
