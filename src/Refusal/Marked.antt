-- ===== src/Refusal/Marked.antt =====
-- What setFinishReason of proxy/refusal.go makes of a document.
use slimproxy.Base.{
  ◌≡◌, refl, sym, ap, ap₂, ◌∙◌, subst, Bool, true, false, ◌&&◌, ◌||◌, Option, none, some, is_some,
  Bool-cases, inl, inr, if◌then◌else◌,
}
use slimproxy.Text.{Text, codes, text_eq, text_eq_sound, text_eq_refl}
use slimproxy.Refusal.Mark.{
  Json, Items, Fields, atom, string, array, object, none_left, item, no_more, field, get, put,
  is_stop, set_choice, set_choices, set_in, set_finish_reason,
}

-- A key of a map after an assignment to one.
unfoldable pub assigned : Text → Text → Json → Fields → Option Json
assigned key k v f =
    if text_eq key k then (if is_some (get k f) then some v else none) else get key f

both_keys : (b : Bool) → b ≡ true → b ≡ false → ⊥
both_keys b t f = cc (t, f)

at_key :
    (key k j : Text) (v w : Json) (rest : Fields)
    → text_eq k j ≡ true
    → get key (field j v rest) ≡ assigned key k v (field j w rest)
unfolding get assigned
at_key key k j v w rest e =
    subst (λ x. get key (field j v rest) ≡ assigned key x v (field j w rest))
      (sym (text_eq_sound k j e)) (rw (text_eq_refl j) (split (text_eq key j)))
  where
    split :
        (b : Bool)
        → (if b then some v else get key rest)
          ≡ (if b then some v else (if b then some w else get key rest))
    split true = refl
    split false = refl

past_key :
    (key k j : Text) (v w : Json) (rest : Fields)
    → text_eq k j ≡ false
    → get key (put k v rest) ≡ assigned key k v rest
    → get key (field j w (put k v rest)) ≡ assigned key k v (field j w rest)
unfolding get assigned
past_key key k j v w rest n ih = elim (Bool-cases (text_eq key j)) [
  | inr o ↦ rw o (rw n ih)
  | inl e ↦ elim (Bool-cases (text_eq key k)) [
    | inr m ↦ rw e (rw m refl)
    | inl m ↦
        absurd
          (both_keys (text_eq k j) (subst (λ x. text_eq x j ≡ true) (text_eq_sound key k m) e) n)
  ]
]

get-put : (key k : Text) (v : Json) (f : Fields) → get key (put k v f) ≡ assigned key k v f
unfolding put get assigned
get-put key k v no_more = nothing (text_eq key k)
  where
    nothing : (b : Bool) → ◌≡◌ {A = Option Json} none (if b then none else none)
    nothing true = refl
    nothing false = refl
get-put key k v (field j w rest) =
    let Goal : Bool → Type 0 = λ b.
      get key (if b then field j v rest else field j w (put k v rest))
      ≡ assigned key k v (field j w rest) in
    elim (Bool-cases (text_eq k j)) [
      | inl e ↦ subst Goal (sym e) (at_key key k j v w rest e)
      | inr n ↦ subst Goal (sym n) (past_key key k j v w rest n (get-put key k v rest))
    ]

-- A choice that ended with `stop`.
unfoldable pub stopped : Json → Bool
stopped (object choice) = is_stop (get (codes "finish_reason") choice)
stopped _ = false

unfoldable pub any_stopped : Items → Bool
unfolding stopped
any_stopped none_left = false
any_stopped (item c cs) = stopped c || any_stopped cs

-- A choice and what it becomes: its reason is `content_filter` where it was `stop`, and each other key is as it was.
unfoldable pub Choice : Json → Json → Type 0
unfolding stopped
Choice (object choice) c =
    (choice' : Fields) × (c ≡ object choice')
    × ((key : Text)
        → get key choice' ≡ (
            if text_eq key (codes "finish_reason") && stopped (object choice)
            then some (string (codes "content_filter"))
            else get key choice))
Choice c c' = c' ≡ c

unfoldable pub Chosen : Items → Items → Type 0
unfolding Choice
Chosen none_left none_left = Unit
Chosen (item c cs) (item c' cs') = Choice c c' × Chosen cs cs'
Chosen _ _ = ⊥

has_reason : (o : Option Json) → is_stop o ≡ true → is_some o ≡ true
unfolding is_stop
has_reason none e = absurd (cc e)
has_reason (some v) e = refl

reason_set :
    (key : Text) (choice : Fields)
    → is_stop (get (codes "finish_reason") choice) ≡ true
    → get key (put (codes "finish_reason") (string (codes "content_filter")) choice) ≡ (
        if text_eq key (codes "finish_reason") && true
        then some (string (codes "content_filter"))
        else get key choice)
unfolding assigned
reason_set key choice e =
    get-put key (codes "finish_reason") (string (codes "content_filter")) choice
    ∙ rw (has_reason (get (codes "finish_reason") choice) e)
        (same (text_eq key (codes "finish_reason")))
  where
    same :
        (b : Bool)
        → (if b then some (string (codes "content_filter")) else get key choice)
          ≡ (if b && true then some (string (codes "content_filter")) else get key choice)
    same true = refl
    same false = refl

unset :
    (key : Text) (choice : Fields)
    → get key choice ≡ (
        if text_eq key (codes "finish_reason") && false
        then some (string (codes "content_filter"))
        else get key choice)
unset key choice = same (text_eq key (codes "finish_reason"))
  where
    same :
        (b : Bool)
        → get key choice
          ≡ (if b && false then some (string (codes "content_filter")) else get key choice)
    same true = refl
    same false = refl

put_unstopped :
    (choice : Fields)
    → is_stop (get (codes "finish_reason") choice) ≡ true
    → is_stop (
        get
          (codes "finish_reason")
          (put (codes "finish_reason") (string (codes "content_filter")) choice))
      ≡ false
unfolding is_stop text_eq
put_unstopped choice e = ap is_stop (reason_set (codes "finish_reason") choice e)

-- One choice: what it becomes, that it is not stopped then, and whether it was.
set_choice_lem :
    (c : Json)
    → Choice c (set_choice c).0
      × (stopped (set_choice c).0 ≡ false)
      × ((set_choice c).1 ≡ stopped c)
unfolding set_choice Choice stopped
set_choice_lem (atom t) = (refl, refl, refl)
set_choice_lem (string t) = (refl, refl, refl)
set_choice_lem (array cs) = (refl, refl, refl)
set_choice_lem (object choice) = elim (Bool-cases (is_stop (get (codes "finish_reason") choice))) [
  | inl e ↦ rw e (
    (
      put (codes "finish_reason") (string (codes "content_filter")) choice,
      refl,
      λ key. reason_set key choice e,
    ),
    put_unstopped choice e,
    refl,
  )
  | inr e ↦ rw e ((choice, refl, λ key. unset key choice), e, refl)
]

set_choices_lem :
    (cs : Items)
    → Chosen cs (set_choices cs).0
      × (any_stopped (set_choices cs).0 ≡ false)
      × ((set_choices cs).1 ≡ any_stopped cs)
unfolding set_choices Chosen any_stopped
set_choices_lem none_left = (tt, refl, refl)
set_choices_lem (item c cs) =
    let one = set_choice_lem c in
    let rest = set_choices_lem cs in
    ((one.0, rest.0), rw one.1 rest.1, ap₂ (λ a b. a || b) one.2 rest.2)

-- A document after setFinishReason. Where it has a list of choices, each ended with `stop` is said to be filtered and is
-- otherwise as it was, the others are as they were, and none is left that ended with `stop`; a change is told
-- exactly where there was one; and each other key is as it was. A document without such a list is as it was.
unfoldable pub Marks : Fields → Option Json → Fields × Bool → Type 0
unfolding Chosen any_stopped
Marks doc (some (array choices)) r =
    (choices' : Items) × (get (codes "choices") r.0 ≡ some (array choices'))
    × Chosen choices choices'
    × (any_stopped choices' ≡ false)
    × (r.1 ≡ any_stopped choices)
    × ((key : Text) → text_eq key (codes "choices") ≡ false → get key r.0 ≡ get key doc)
Marks doc _ r = r ≡ (doc, false)

choices_put :
    (doc : Fields) (old new : Items)
    → get (codes "choices") doc ≡ some (array old)
    → get (codes "choices") (put (codes "choices") (array new) doc) ≡ some (array new)
unfolding assigned text_eq
choices_put doc old new e = get-put (codes "choices") (codes "choices") (array new) doc ∙ rw e refl

others_put :
    (doc : Fields) (new : Items) (key : Text)
    → text_eq key (codes "choices") ≡ false
    → get key (put (codes "choices") (array new) doc) ≡ get key doc
unfolding assigned
others_put doc new key n = get-put key (codes "choices") (array new) doc ∙ rw n refl

set_in_lem :
    (doc : Fields) (o : Option Json) → get (codes "choices") doc ≡ o → Marks doc o (set_in doc o)
unfolding set_in Marks
set_in_lem doc none e = refl
set_in_lem doc (some (atom t)) e = refl
set_in_lem doc (some (string t)) e = refl
set_in_lem doc (some (object f)) e = refl
set_in_lem doc (some (array choices)) e =
    let l = set_choices_lem choices in
    (
      (set_choices choices).0,
      choices_put doc choices (set_choices choices).0 e,
      l.0,
      l.1,
      l.2,
      others_put doc (set_choices choices).0,
    )

-- A document is marked as Marks says, by its own list of choices.
pub set_finish_reason_lem :
    (doc : Fields) → Marks doc (get (codes "choices") doc) (set_finish_reason doc)
unfolding set_finish_reason
set_finish_reason_lem doc = set_in_lem doc (get (codes "choices") doc) refl
