-- ===== src/Translate/Checked.antt =====
-- What New of translate/translate.go has checked once and for all.
use slimproxy.Base.{
  ◌≡◌, ◌≢◌, refl, sym, subst, Bool, true, false, not, ◌&&◌, Option, none, some, Bool-cases, inl,
  inr, ◌⊎◌, if◌then◌else◌,
}
use slimproxy.Text.{Text}
use slimproxy.Translate.Translator.{
  Pair, Options, Registry, Translator, made, invalid_format, no_request_transform,
  no_response_transform, Outcome, body_out, no_transformer, describe, new, of_transform, request,
  non_stream_response, Stream, new_stream,
}

module _ {S : Type 0} (sdk : Registry S) where
  -- What a translator that was made is.
  Granted : Pair → Options → Translator → Type 0
  Granted p o t =
      (t ≡ record { pair = p; caps = describe sdk p; opts = o })
      × ((not (describe sdk p).requests && not o.allow_request_passthrough) ≡ false)
      × ((not (describe sdk p).streams
            && not (describe sdk p).non_streams
            && not o.allow_response_passthrough)
          ≡ false)

  granted :
      (bad requests streams : Bool) (t t' : Translator)
      → (if bad
          then invalid_format
          else if requests
          then no_request_transform
          else if streams
          then no_response_transform
          else made t')
        ≡ made t
      → (t ≡ t') × (requests ≡ false) × (streams ≡ false)
  granted true requests streams t t' e = absurd (cc e)
  granted false true streams t t' e = absurd (cc e)
  granted false false true t t' e = absurd (cc e)
  granted false false false t t' e = (cc e, refl, refl)

  new-Granted : (p : Pair) (o : Options) (t : Translator) → new sdk p o ≡ made t → Granted p o t
  unfolding new Granted
  new-Granted p o t e = granted _ _ _ t _ e

  -- The branches of a call whose transform may be missing.
  served :
      (has allow : Bool) (through out : Outcome)
      → (not has && not allow) ≡ false
      → through ≢ no_transformer
      → out ≢ no_transformer
      → (if not has then (if not allow then no_transformer else through) else out) ≢ no_transformer
  served true allow through out h n m = m
  served false true through out h n m = n
  served false false through out h n m = absurd (cc h)

  body_known : (body : Text) → body_out body ≢ no_transformer
  body_known body e = cc e

  transform_known : (o : Option Text) → of_transform sdk o ≢ no_transformer
  unfolding of_transform
  transform_known none e = cc e
  transform_known (some out) e = cc e

  no_stream : (b : Bool) (s : Stream sdk) → b ≡ false → (if b then none else some s) ≢ none
  no_stream true s e n = cc e
  no_stream false s e n = cc n

  -- What the calls of a translator for a pair can answer.
  unfoldable pub Serves : Pair → Options → Translator → Type 0
  Serves p o t =
      ((body : Text) → request sdk t body ≢ no_transformer)
      × ((new_stream sdk t ≢ none)
          ⊎ ((body : Text) → non_stream_response sdk t body ≢ no_transformer))
      × (o.allow_request_passthrough ≡ false
          → (body : Text)
          → request sdk t body ≡ of_transform sdk (sdk.translate_request p.client p.provider body))

  streams_or_not :
      (p : Pair) (o : Options)
      → let c = describe sdk p in
        (not c.streams && not c.non_streams && not o.allow_response_passthrough) ≡ false
        → let t : Translator = record { pair = p; caps = describe sdk p; opts = o } in
          (new_stream sdk t ≢ none)
          ⊎ ((body : Text) → non_stream_response sdk t body ≢ no_transformer)
  unfolding new_stream non_stream_response
  streams_or_not p o h =
      let c = describe sdk p in
      elim (Bool-cases c.streams) [
        | inl e ↦ inl (no_stream _ _ (rw e refl))
        | inr e ↦ inr (λ body.
            served c.non_streams o.allow_response_passthrough _ _
              (subst (λ b. (not b && not c.non_streams && not o.allow_response_passthrough) ≡ false)
                e h)
              (body_known _) (body_known _))
      ]

  own_transform :
      (has allow : Bool) (through out : Outcome)
      → (not has && not allow) ≡ false
      → allow ≡ false
      → (if not has then (if not allow then no_transformer else through) else out) ≡ out
  own_transform true allow through out h n = refl
  own_transform false true through out h n = absurd (cc n)
  own_transform false false through out h n = absurd (cc h)

  -- A translator that New made never finds a request's transform missing, nor both kinds of response transforms; and where
  -- requests may not pass through, what Request returns is what the registry's transform for the
  -- pair made of the body.
  pub new-Serves : (p : Pair) (o : Options) (t : Translator) → new sdk p o ≡ made t → Serves p o t
  unfolding Serves Granted request
  new-Serves p o t e =
      let g = new-Granted p o t e in
      let c = describe sdk p in
      subst (λ t. Serves p o t) (sym g.0)
        (
          (λ body.
              served c.requests o.allow_request_passthrough _ _ g.1 (body_known body)
                (transform_known _)),
          streams_or_not p o g.2,
          λ n body. own_transform c.requests o.allow_request_passthrough _ _ g.1 n,
        )
