-- ===== src/Refusal/Apart.antt =====
-- That the hooks of proxy/refusal.go keep requests apart.
use slimproxy.Base.{
  ℕ, suc, ◌+◌, ◌≤◌, ◌≡◌, refl, ◌∙◌, Bool, true, false, not, ◌||◌, Option, none, some, is_some, List,
  [], ◌∷◌, length, leb, ◌==◌, arith, Bool-cases, inl, inr, All,
}
use slimproxy.Text.{Text}
use slimproxy.Refusal.Find.{Details, StopEvent, find_refusal}
use slimproxy.Refusal.Mark.{Fields, mark_content_filtered}
use slimproxy.Refusal.Hooks.{
  Hooks, load, delete, max_pending, track, forget, remember, found, normalize_before, after_found,
  normalize_after,
}
use slimproxy.Refusal.Counted.{Call, before, after, apply, apply_all}

-- Nothing of the key in the map, or the entry of the key.
load-delete :
    (key k : ℕ) (xs : List (ℕ × Details)) → load key xs ≡ none → load key (delete k xs) ≡ none
unfolding load delete
load-delete key k [] h = refl
load-delete key k ((j, d) ∷ xs) h = ground (arith, h, load-delete key k xs)

load-delete_other :
    (key k : ℕ) (xs : List (ℕ × Details))
    → (key == k) ≡ false
    → load key (delete k xs) ≡ load key xs
unfolding load delete
load-delete_other key k [] h = refl
load-delete_other key k ((j, d) ∷ xs) h = ground (arith, h, load-delete_other key k xs)

forget-none :
    (key k : ℕ) (h : Hooks) → load key h.pending ≡ none → load key (forget k h).pending ≡ none
unfolding forget
forget-none key k h n = elim (Bool-cases (is_some (load k h.pending))) [
  | inl e ↦ rw e (load-delete key k h.pending n)
  | inr e ↦ rw e n
]

forget-other :
    (key k : ℕ) (h : Hooks)
    → (key == k) ≡ false
    → load key (forget k h).pending ≡ load key h.pending
unfolding forget
forget-other key k h o = elim (Bool-cases (is_some (load k h.pending))) [
  | inl e ↦ rw e (load-delete_other key k h.pending o)
  | inr e ↦ rw e refl
]

remember-none :
    (key k : ℕ) (d : Details) (h : Hooks)
    → (key == k) ≡ false
    → load key h.pending ≡ none
    → load key (remember k d h).pending ≡ none
unfolding remember track load
remember-none key k d h o n = elim (Bool-cases (is_some (load k h.pending))) [
  | inl e ↦ rw e n
  | inr e ↦ rw e (elim (Bool-cases (leb (suc h.live) max_pending)) [
    | inl l ↦ rw l (rw o n)
    | inr l ↦ rw l refl
  ])
]

-- What a finding adds: at most one to the counter, and nothing to another key while there is room.
remember-other :
    (key k : ℕ) (d : Details) (h : Hooks)
    → (key == k) ≡ false
    → suc h.live ≤ 1024
    → (load key (remember k d h).pending ≡ load key h.pending)
      × ((remember k d h).live ≤ suc h.live)
unfolding remember track load
remember-other key k d h o room = elim (Bool-cases (is_some (load k h.pending))) [
  | inl e ↦ rw e (refl, omega arith)
  | inr e ↦ rw e (rw (fits h.live room) (rw o (refl, omega arith)))
]
  where
    fits : (n : ℕ) → suc n ≤ 1024 → leb (suc n) max_pending ≡ true
    fits n r = ground (arith, r)

forget-live : (k : ℕ) (h : Hooks) → (forget k h).live ≤ h.live
unfolding forget
forget-live k h = ground arith

module _ (unmarshal : Text → Option StopEvent) (decode : Text → Option Fields)
    (marshal : Fields → Option Text) where
  -- A call with which the request is not told of a refusal; and one of another request.
  unfoldable pub Unrefused : ℕ → Call → Type 0
  Unrefused key (before k body) = (key == k) ≡ true → find_refusal unmarshal body ≡ none
  Unrefused key (after k to stream body) = Unit

  unfoldable pub Other : ℕ → Call → Type 0
  Other key (before k body) = (key == k) ≡ false
  Other key (after k to stream body) = (key == k) ≡ false

  untold_found :
      (key k : ℕ) (o : Option Details) (h : Hooks)
      → ((key == k) ≡ true → o ≡ none)
      → load key h.pending ≡ none
      → load key (found k o h).pending ≡ none
  unfolding found
  untold_found key k none h u n = forget-none key k h n
  untold_found key k (some d) h u n = elim (Bool-cases (key == k)) [
    | inl e ↦ absurd (some_none d (u e))
    | inr e ↦ remember-none key k d h e n
  ]
    where
      some_none : (d : Details) → some d ≡ none → ⊥
      some_none d e = cc e

  untold_after :
      (key k : ℕ) (o : Option Details) (to : Text) (stream : Bool) (body : Text) (h : Hooks)
      → load key h.pending ≡ none
      → load key (after_found decode marshal o k to stream body h).hooks.pending ≡ none
  unfolding after_found
  untold_after key k none to stream body h n = n
  untold_after key k (some d) to stream body h n =
      elim (Bool-cases (not stream || (mark_content_filtered decode marshal body to stream).1)) [
        | inl e ↦ rw e (forget-none key k h n)
        | inr e ↦ rw e n
      ]

  untold_apply :
      (key : ℕ) (c : Call) (h : Hooks)
      → Unrefused key c
      → load key h.pending ≡ none
      → load key (apply unmarshal decode marshal c h).pending ≡ none
  unfolding apply Unrefused normalize_before normalize_after
  untold_apply key (before k body) h u n = untold_found key k (find_refusal unmarshal body) h u n
  untold_apply key (after k to stream body) h u n =
      untold_after key k (load k h.pending) to stream body h n

  untold_all :
      (key : ℕ) (calls : List Call) (h : Hooks)
      → All (λ c. Unrefused key c) calls
      → load key h.pending ≡ none
      → load key (apply_all unmarshal decode marshal calls h).pending ≡ none
  unfolding apply_all
  untold_all key [] h u n = n
  untold_all key (c ∷ calls) h u n =
      untold_all key calls (apply unmarshal decode marshal c h) u.1 (untold_apply key c h u.0 n)

  nothing_found :
      (o : Option Details) (key : ℕ) (to : Text) (stream : Bool) (body : Text) (h : Hooks)
      → o ≡ none
      → after_found decode marshal o key to stream body h
        ≡ record { body = body; hooks = h; warned = false }
  unfolding after_found
  nothing_found o key to stream body h n = rw n refl

  -- A request none of whose own bodies is a refusal gets every body as it is and without a warning, after whatever
  -- calls of itself and of others, refused ones among them.
  pub untouched_body :
      (key : ℕ) (calls : List Call) (to : Text) (stream : Bool) (body : Text) (h : Hooks)
      → load key h.pending ≡ none
      → All (λ c. Unrefused key c) calls
      → let h' = apply_all unmarshal decode marshal calls h in
        normalize_after decode marshal key to stream body h'
        ≡ record { body = body; hooks = h'; warned = false }
  unfolding normalize_after
  untouched_body key calls to stream body h n u =
      let h' = apply_all unmarshal decode marshal calls h in
      nothing_found (load key h'.pending) key to stream body h' (untold_all key calls h u n)

  past_found :
      (key k : ℕ) (o : Option Details) (h : Hooks)
      → (key == k) ≡ false
      → suc h.live ≤ 1024
      → (load key (found k o h).pending ≡ load key h.pending) × ((found k o h).live ≤ suc h.live)
  unfolding found
  past_found key k none h o room = (forget-other key k h o, omega (arith, forget-live k h))
  past_found key k (some d) h o room = remember-other key k d h o room

  past_after :
      (key k : ℕ) (o : Option Details) (to : Text) (stream : Bool) (body : Text) (h : Hooks)
      → (key == k) ≡ false
      → (load key (after_found decode marshal o k to stream body h).hooks.pending
          ≡ load key h.pending)
        × ((after_found decode marshal o k to stream body h).hooks.live ≤ suc h.live)
  unfolding after_found
  past_after key k none to stream body h o = (refl, omega arith)
  past_after key k (some d) to stream body h o =
      elim (Bool-cases (not stream || (mark_content_filtered decode marshal body to stream).1)) [
        | inl e ↦ rw e (forget-other key k h o, omega (arith, forget-live k h))
        | inr e ↦ rw e (refl, omega arith)
      ]

  past_apply :
      (key : ℕ) (c : Call) (h : Hooks)
      → Other key c
      → suc h.live ≤ 1024
      → (load key (apply unmarshal decode marshal c h).pending ≡ load key h.pending)
        × ((apply unmarshal decode marshal c h).live ≤ suc h.live)
  unfolding apply Other normalize_before normalize_after
  past_apply key (before k body) h o room = past_found key k (find_refusal unmarshal body) h o room
  past_apply key (after k to stream body) h o room =
      past_after key k (load k h.pending) to stream body h o

  past_all :
      (key : ℕ) (calls : List Call) (h : Hooks)
      → All (λ c. Other key c) calls
      → h.live + length calls ≤ 1024
      → load key (apply_all unmarshal decode marshal calls h).pending ≡ load key h.pending
  unfolding apply_all
  past_all key [] h o room = refl
  past_all key (c ∷ calls) h o room =
      let one = past_apply key c h o.0 (omega (arith, room)) in
      past_all key calls (apply unmarshal decode marshal c h) o.1 (omega (arith, room, one.1))
      ∙ one.0

  marks :
      (o : Option Details) (d : Details) (key : ℕ) (to : Text) (stream : Bool) (body : Text)
      (h : Hooks)
      → o ≡ some d
      → (after_found decode marshal o key to stream body h).body
        ≡ (mark_content_filtered decode marshal body to stream).0
  unfolding after_found
  marks o d key to stream body h e = rw e refl

  -- The finding of a request outlasts the calls of other requests, as long as what is pending and those calls
  -- together stay within the limit: its next body is marked.
  pub finding_lasts :
      (key : ℕ) (d : Details) (calls : List Call) (to : Text) (stream : Bool) (body : Text)
      (h : Hooks)
      → load key h.pending ≡ some d
      → All (λ c. Other key c) calls
      → h.live + length calls ≤ 1024
      → (normalize_after decode marshal key to stream body
          (apply_all unmarshal decode marshal calls h)).body
        ≡ (mark_content_filtered decode marshal body to stream).0
  unfolding normalize_after
  finding_lasts key d calls to stream body h e o room =
      let h' = apply_all unmarshal decode marshal calls h in
      marks (load key h'.pending) d key to stream body h' (past_all key calls h o room ∙ e)
