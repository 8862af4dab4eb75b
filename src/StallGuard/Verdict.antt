-- ===== src/StallGuard/Verdict.antt =====
-- How pump names the ending of a stream.
use slimproxy.Base.{
  append-nil, ap₂, ℕ, suc, ◌≤◌, ◌≡◌, refl, ap, ◌∙◌, ◌⊎◌, inl, inr, Bool, true, false, not, ◌||◌,
  List, [], ◌∷◌, ◌++◌, map, if◌then◌else◌, any, take, length, arith,
}
use slimproxy.StallGuard.Ledger.{Gjson, scan_ledger_signals}
use slimproxy.StallGuard.Pump.{
  Chunk, Wake, receives, shuts, idles, hangs_up, passed, stall_error, Note, stalled, no_tail,
  client_drop, Wants, prepend, armed_after, accounted_after, pump,
}

abbrev pub all_set : Wants
all_set = record { wants_stalled = true; wants_no_tail = true; wants_client_drop = true }

-- The chunks of a stream that were all forwarded, and then what the loop took.
abbrev pub forwarding : List Chunk → List Wake → List Wake
forwarding [] wakes = wakes
forwarding (c ∷ cs) wakes = receives c true ∷ forwarding cs wakes

module _ (g : Gjson) where
  -- What the stream as a whole has shown: its opening event, and the usage tail or an error.
  abbrev pub opened : List Chunk → Bool
  opened cs = any (λ c. (scan_ledger_signals g c.payload).opens) cs

  abbrev pub settled : List Chunk → Bool
  settled cs = any (λ c. (scan_ledger_signals g c.payload).settles || c.has_err) cs

  armed_after_lem :
      (wants : Wants) (a b : Bool) (c : Chunk)
      → armed_after g wants a b c ≡ (a || (scan_ledger_signals g c.payload).opens)
  unfolding armed_after
  armed_after_lem wants a b c = ground arith

  accounted_after_lem :
      (wants : Wants) (a b : Bool) (c : Chunk)
      → accounted_after g wants a b c
        ≡ (b || ((scan_ledger_signals g c.payload).settles || c.has_err))
  unfolding accounted_after
  accounted_after_lem wants a b c = ground arith

  or_assoc : (a b c : Bool) → ((a || b) || c) ≡ (a || (b || c))
  or_assoc true b c = refl
  or_assoc false b c = refl

  or_false : (a : Bool) → (a || false) ≡ a
  or_false true = refl
  or_false false = refl

  -- The forwarded chunks go to the client, and the rest of the loop runs on their ledger.
  pump-forwarding :
      (wants : Wants) (a b : Bool) (cs : List Chunk) (wakes : List Wake)
      → pump g wants a b (forwarding cs wakes)
        ≡ let rest = pump g wants (a || opened cs) (b || settled cs) wakes in
          record rest { sent = map passed cs ++ rest.sent }
  unfolding pump
  pump-forwarding wants a b [] wakes = rw (or_false a, or_false b) refl
  pump-forwarding wants a b (c ∷ cs) wakes =
      ap (prepend (passed c))
        (pump-forwarding wants (armed_after g wants a b c) (accounted_after g wants a b c) cs wakes)
      ∙ ap₂
          (λ (x y : Bool).
            let rest = pump g wants x y wakes in
            record rest { sent = passed c ∷ (map passed cs ++ rest.sent) })
          (ap (λ x. x || opened cs) (armed_after_lem wants a b c)
            ∙ or_assoc a ((scan_ledger_signals g c.payload).opens) (opened cs))
          (ap (λ x. x || settled cs) (accounted_after_lem wants a b c)
            ∙ or_assoc b ((scan_ledger_signals g c.payload).settles || c.has_err) (settled cs))

  -- The ending that a stream deserves once its channel has closed.
  abbrev pub deserved : List Chunk → Bool → List Note
  deserved cs gone =
      if not (opened cs)
      then []
      else if gone
      then client_drop (settled cs) ∷ []
      else if settled cs
      then []
      else no_tail ∷ []

  closed_lem :
      (o s : Bool) (cs : List Chunk) (gone : Bool) (later : List Wake)
      → (let rest = pump g all_set o s (shuts gone ∷ later) in
          record rest { sent = map passed cs ++ rest.sent })
        ≡ record {
          sent = map passed cs;
          notes =
              if not o
              then []
              else if gone
              then client_drop s ∷ []
              else if s
              then []
              else no_tail ∷ [];
          returned = true;
        }
  unfolding pump
  closed_lem o s cs gone later = ground (arith, append-nil (map passed cs))

  -- A stream that was forwarded whole and then closed is reported as it deserves, by all its chunks
  -- at once: not at all if it never spoke the claude dialect; as a client drop if the request had
  -- ended, with whether the books were settled; as a missing tail if the request was alive and no
  -- chunk settled the books; and otherwise not at all. The client got every chunk, in order.
  pub pump-shuts :
      (cs : List Chunk) (gone : Bool) (later : List Wake)
      → pump g all_set false false (forwarding cs (shuts gone ∷ later))
        ≡ record { sent = map passed cs; notes = deserved cs gone; returned = true }
  pump-shuts cs gone later =
      pump-forwarding all_set false false cs (shuts gone ∷ later)
      ∙ closed_lem (opened cs) (settled cs) cs gone later

  -- A stream that goes silent is reported as stalled and as nothing else, whatever its ledger says;
  -- the client gets its chunks and then the one error.
  pub pump-idles :
      (cs : List Chunk) (later : List Wake)
      → pump g all_set false false (forwarding cs (idles true ∷ later))
        ≡ record { sent = map passed cs ++ stall_error ∷ []; notes = stalled ∷ []; returned = true }
  pump-idles cs later =
      pump-forwarding all_set false false cs (idles true ∷ later) ∙ unfold pump in refl

  -- However the selects go, a stream is reported at most once, and only on return.
  pub one_note :
      (wants : Wants) (a b : Bool) (wakes : List Wake)
      → (length (pump g wants a b wakes).notes ≤ 1)
        × (((pump g wants a b wakes).returned ≡ true) ⊎ ((pump g wants a b wakes).notes ≡ []))
  unfolding pump
  one_note wants a b [] = (omega arith, inr refl)
  one_note wants a b (receives c true ∷ wakes) =
      one_note wants (armed_after g wants a b c) (accounted_after g wants a b c) wakes
  one_note wants a b (receives c false ∷ wakes) = (ground arith, inl refl)
  one_note wants a b (shuts gone ∷ wakes) = (ground arith, inl refl)
  one_note wants a b (idles delivered ∷ wakes) = (ground arith, inl refl)
  one_note wants a b (hangs_up ∷ wakes) = (ground arith, inl refl)

  -- The chunks that the loop received.
  abbrev pub received : List Wake → List Chunk
  received [] = []
  received (receives c delivered ∷ wakes) = c ∷ received wakes
  received (shuts gone ∷ wakes) = received wakes
  received (idles delivered ∷ wakes) = received wakes
  received (hangs_up ∷ wakes) = received wakes

  -- The client is sent nothing but the upstream's chunks, unchanged and in order from the first on,
  -- and after them at most the one stall error.
  pub sent_received :
      (wants : Wants) (a b : Bool) (wakes : List Wake)
      → (k : ℕ) × (((pump g wants a b wakes).sent ≡ map passed (take k (received wakes)))
          ⊎ ((pump g wants a b wakes).sent
              ≡ map passed (take k (received wakes)) ++ stall_error ∷ []))
  unfolding pump
  sent_received wants a b [] = (0, inl refl)
  sent_received wants a b (receives c true ∷ wakes) =
      let (k, e) =
        sent_received wants (armed_after g wants a b c) (accounted_after g wants a b c) wakes in
      (suc k, elim e [ inl p ↦ inl (ap (◌∷◌ (passed c)) p) | inr p ↦ inr (ap (◌∷◌ (passed c)) p) ])
  sent_received wants a b (receives c false ∷ wakes) = (0, inl refl)
  sent_received wants a b (shuts gone ∷ wakes) = (0, inl refl)
  sent_received wants a b (idles true ∷ wakes) = (0, inr refl)
  sent_received wants a b (idles false ∷ wakes) = (0, inl refl)
  sent_received wants a b (hangs_up ∷ wakes) = (0, inl refl)
