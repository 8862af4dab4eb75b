-- ===== src/Journal/Traced.antt =====
-- Where the events that Writer of journal/writer.go is given are found again.
use slimproxy.Base.{
  ℕ, suc, ◌+◌, ◌-◌, ◌<◌, ◌≡◌, refl, sym, ap, subst, ◌∙◌, true, not, Option, none, some, List, [],
  ◌∷◌, ◌++◌, ltb, length, keep, All, Among, length-append, append_assoc, append-nil, Bool-cases,
  inl, inr, if-both, arith,
}
use slimproxy.Journal.Event.{Event}
use slimproxy.Journal.Writer.{
  queue_size, Writer, open_dir, dated, enqueue, append, Luck, is_open, line_in, write_line, write,
  take_from, take_event, prune, Op, appends, takes, prunes,
}
use slimproxy.Journal.Filed.{apply, run}
use slimproxy.Journal.Kept.{Works, appended, run-accounted}

-- Some elements of a list, in its order.
pub data Sub {A : Type 0} : List A → List A → Type 0 where
  none_left : Sub [] []
  both : {x : A} {xs ys : List A} → Sub xs ys → Sub (x ∷ xs) (x ∷ ys)
  skipped : {x : A} {xs ys : List A} → Sub xs ys → Sub xs (x ∷ ys)

-- What prunes leave of the lines of a directory: a line may only go where the file of its day ended
-- before the cutoff of one of the prunes.
pub data Spared (day_end : ℕ → ℕ) (retention : ℕ) (pruned : ℕ → Type 0)
    : List (ℕ × Event) → List (ℕ × Event) → Type 0 where
  no_line : Spared day_end retention pruned [] []
  stays :
      {x : ℕ × Event} {xs ys : List (ℕ × Event)}
      → Spared day_end retention pruned xs ys
      → Spared day_end retention pruned (x ∷ xs) (x ∷ ys)
  goes :
      {x : ℕ × Event} {xs ys : List (ℕ × Event)} (now : ℕ)
      → pruned now
      → day_end x.0 < now - retention
      → Spared day_end retention pruned xs ys
      → Spared day_end retention pruned (x ∷ xs) ys

-- The events that were handed to Append, dated.
abbrev pub handed : List Op → List Event
handed [] = []
handed (appends e now ∷ ops) = dated e now ∷ handed ops
handed (takes l ∷ ops) = handed ops
handed (prunes now ∷ ops) = handed ops

-- The lines of events, each in the file of its day.
abbrev pub filed : (ℕ → ℕ) → List Event → List (ℕ × Event)
filed day_of [] = []
filed day_of (e ∷ es) = (day_of e.at, e) ∷ filed day_of es

filed-append :
    (day_of : ℕ → ℕ) (es fs : List Event)
    → filed day_of (es ++ fs) ≡ filed day_of es ++ filed day_of fs
filed-append day_of [] fs = refl
filed-append day_of (e ∷ es) fs = ap (◌∷◌ (day_of e.at, e)) (filed-append day_of es fs)

module _ {A : Type 0} where
  Sub-snoc : (x : A) {xs ys : List A} → Sub xs ys → Sub (xs ++ x ∷ []) (ys ++ x ∷ [])
  Sub-snoc x none_left = both none_left
  Sub-snoc x (both s) = both (Sub-snoc x s)
  Sub-snoc x (skipped s) = skipped (Sub-snoc x s)

  Sub-skip : (x : A) {xs ys : List A} → Sub xs ys → Sub xs (ys ++ x ∷ [])
  Sub-skip x none_left = skipped none_left
  Sub-skip x (both s) = both (Sub-skip x s)
  Sub-skip x (skipped s) = skipped (Sub-skip x s)

module _ (day_end : ℕ → ℕ) (retention : ℕ) (pruned : ℕ → Type 0) where
  Spared-all : (xs : List (ℕ × Event)) → Spared day_end retention pruned xs xs
  Spared-all [] = no_line
  Spared-all (x ∷ xs) = stays (Spared-all xs)

  Spared-snoc :
      (x : ℕ × Event) {xs ys : List (ℕ × Event)}
      → Spared day_end retention pruned xs ys
      → Spared day_end retention pruned (xs ++ x ∷ []) (ys ++ x ∷ [])
  Spared-snoc x no_line = stays no_line
  Spared-snoc x (stays s) = stays (Spared-snoc x s)
  Spared-snoc x (goes now p b s) = goes now p b (Spared-snoc x s)

  Spared-keep :
      (now : ℕ)
      → pruned now
      → {xs ys : List (ℕ × Event)} → Spared day_end retention pruned xs ys
      → Spared day_end retention pruned xs
          (keep (λ line. not (ltb (day_end line.0) (now - retention))) ys)
  Spared-keep now p no_line = no_line
  Spared-keep now p (stays {x} s) = elim (Bool-cases (ltb (day_end x.0) (now - retention))) [
    | inl b ↦ rw b (goes now p (ground (arith, b)) (Spared-keep now p s))
    | inr b ↦ rw b (stays (Spared-keep now p s))
  ]
  Spared-keep now p (goes at q b s) = goes at q b (Spared-keep now p s)

line_in-open :
    (file : Option ℕ) (day : ℕ) (e : Event)
    → is_open file day ≡ true
    → line_in file e ≡ (day, e) ∷ []
line_in-open none day e h = absurd (cc h)
line_in-open (some d) day e h = let same : d ≡ day = ground (arith, h) in ap (λ k. (k, e) ∷ []) same

module _ (day_of day_end : ℕ → ℕ) (retention : ℕ) (disk : List (ℕ × Event))
    (pruned : ℕ → Type 0) where
  -- The events that were written, of those that were handed over, and what is left of them.
  Traced : Writer → List Event → Type 0
  Traced w said =
      (es : List Event) × (w.retention ≡ retention)
      × (w.written ≡ length es)
      × Sub (es ++ w.events) said
      × Spared day_end retention pruned (disk ++ filed day_of es) w.disk

  enqueue-Traced :
      (w : Writer) (e : Event) (said : List Event)
      → Traced w said
      → Traced (enqueue w e) (said ++ e ∷ [])
  unfolding Traced enqueue
  enqueue-Traced w e said (es, k, n, s, d) =
      if-both (λ v. Traced v (said ++ e ∷ [])) (ltb (length w.events) queue_size)
        (
          es,
          k,
          n,
          subst (λ l. Sub l (said ++ e ∷ [])) (append_assoc es w.events (e ∷ [])) (Sub-snoc e s),
          d,
        )
        (es, k, n, Sub-skip e s, d)

  -- A write that works.
  written_line :
      (w : Writer) (e : Event) (l : Luck)
      → (l.marshals ≡ true) × (l.opens ≡ true) × (l.writes ≡ true)
      → let v = write day_of w e l in
        (v.written ≡ suc w.written)
        × (v.disk ≡ w.disk ++ (day_of e.at, e) ∷ [])
        × (v.events ≡ w.events)
        × (v.retention ≡ w.retention)
  unfolding write write_line
  written_line w e l (m, o, k) = elim (Bool-cases (is_open w.file (day_of e.at))) [
    | inl h ↦
        rw m
          (rw h (rw k (refl, ap (◌++◌ w.disk) (line_in-open w.file (day_of e.at) e h), refl, refl)))
    | inr h ↦ rw m (rw h (rw o (rw k (refl, refl, refl, refl))))
  ]

  take_from-Traced :
      (w : Writer) (events : List Event) (l : Luck) (said : List Event)
      → (l.marshals ≡ true) × (l.opens ≡ true) × (l.writes ≡ true)
      → w.events ≡ events
      → Traced w said
      → Traced (take_from day_of w events l) said
  unfolding Traced take_from
  take_from-Traced w [] l said ok h t = t
  take_from-Traced w (e ∷ rest) l said ok h (es, k, n, s, d) =
      let (n', d', v', r') = written_line (record w { events = rest }) e l ok in
      (
        es ++ e ∷ [],
        r' ∙ k,
        n' ∙ ap suc n ∙ grown es e,
        subst (λ q. Sub ((es ++ e ∷ []) ++ q) said) (sym v')
            (subst (λ q. Sub q said) (sym (append_assoc es (e ∷ []) rest))
              (subst (λ q. Sub (es ++ q) said) h s)),
        subst (λ x. Spared day_end retention pruned (disk ++ filed day_of (es ++ e ∷ [])) x)
            (sym d')
            (subst (λ x. Spared day_end retention pruned x (w.disk ++ (day_of e.at, e) ∷ []))
              (one_more es e) (Spared-snoc day_end retention pruned (day_of e.at, e) d)),
      )
    where
      grown : (es : List Event) (e : Event) → suc (length es) ≡ length (es ++ e ∷ [])
      grown es e = omega (arith, length-append es (e ∷ []))

      one_more :
          (es : List Event) (e : Event)
          → (disk ++ filed day_of es) ++ (day_of e.at, e) ∷ [] ≡ disk ++ filed day_of (es ++ e ∷ [])
      one_more es e =
          append_assoc disk (filed day_of es) ((day_of e.at, e) ∷ [])
          ∙ ap (◌++◌ disk) (sym (filed-append day_of es (e ∷ [])))

  -- The prunes among the operations are those that are allowed for.
  abbrev Allowed : Op → Type 0
  Allowed (appends e now) = Unit
  Allowed (takes l) = Unit
  Allowed (prunes now) = pruned now

  prune-Traced :
      (w : Writer) (now : ℕ) (said : List Event)
      → pruned now
      → Traced w said
      → Traced (prune day_end w now) said
  unfolding Traced prune
  prune-Traced w now said a (es, k, n, s, d) = (
    es,
    k,
    n,
    s,
    subst
        (λ r.
          Spared day_end retention pruned (disk ++ filed day_of es)
            (keep (λ line. not (ltb (day_end line.0) (now - r))) w.disk))
        (sym k) (Spared-keep day_end retention pruned now a d),
  )

  apply-Traced :
      (w : Writer) (op : Op) (said : List Event)
      → Works op
      → Allowed op
      → Traced w said
      → Traced (apply day_of day_end w op) (said ++ handed (op ∷ []))
  unfolding append take_event
  apply-Traced w (appends e now) said ok a t = enqueue-Traced w (dated e now) said t
  apply-Traced w (takes l) said ok a t =
      subst (Traced (take_from day_of w w.events l)) (sym (append-nil said))
        (take_from-Traced w w.events l said ok refl t)
  apply-Traced w (prunes now) said ok a t =
      subst (Traced (prune day_end w now)) (sym (append-nil said)) (prune-Traced w now said a t)

  handed-cons : (op : Op) (ops : List Op) → handed (op ∷ []) ++ handed ops ≡ handed (op ∷ ops)
  handed-cons (appends e now) ops = refl
  handed-cons (takes l) ops = refl
  handed-cons (prunes now) ops = refl

  run-Traced :
      (w : Writer) (ops : List Op) (said : List Event)
      → All Works ops
      → All Allowed ops
      → Traced w said
      → Traced (run day_of day_end w ops) (said ++ handed ops)
  run-Traced w [] said ok a t = subst (Traced w) (sym (append-nil said)) t
  run-Traced w (op ∷ ops) said ok a t =
      subst (Traced (run day_of day_end w (op ∷ ops)))
        (append_assoc said (handed (op ∷ [])) (handed ops) ∙ ap (◌++◌ said) (handed-cons op ops))
        (run-Traced (apply day_of day_end w op) ops (said ++ handed (op ∷ [])) ok.1 a.1
          (apply-Traced w op said ok.0 a.0 t))

  all-Allowed :
      (ops : List Op) → ((now : ℕ) → Among (prunes now) ops → pruned now) → All Allowed ops
  all-Allowed [] f = tt
  all-Allowed (appends e now ∷ ops) f = (tt, all-Allowed ops (λ n m. f n (inr m)))
  all-Allowed (takes l ∷ ops) f = (tt, all-Allowed ops (λ n m. f n (inr m)))
  all-Allowed (prunes now ∷ ops) f = (f now (inl refl), all-Allowed ops (λ n m. f n (inr m)))

  open_dir-Traced : Traced (open_dir retention disk) []
  unfolding Traced
  open_dir-Traced = (
    [],
    refl,
    refl,
    none_left,
    subst (λ x. Spared day_end retention pruned x disk) (sym (append-nil disk))
        (Spared-all day_end retention pruned disk),
  )

  Traced-parts :
      (w : Writer) (said : List Event)
      → Traced w said
      → (es : List Event) × (w.written ≡ length es)
        × Sub (es ++ w.events) said
        × Spared day_end retention pruned (disk ++ filed day_of es) w.disk
  unfolding Traced
  Traced-parts w said (es, k, n, s, d) = (es, n, s, d)

-- While the disk works, every event that was appended is written, still waits, or is counted as
-- dropped. Those that were written and those that wait are, in their order, some of the events that
-- were handed over; and the lines of those written stand on disk after what was there, each in the
-- file of its day, but for lines whose day ended before the cutoff of a prune.
pub writer_accounts :
    (day_of day_end : ℕ → ℕ) (retention : ℕ) (disk : List (ℕ × Event)) (ops : List Op)
    → All Works ops
    → let w = run day_of day_end (open_dir retention disk) ops in
      (w.written + length w.events + w.dropped ≡ appended ops)
      × ((es : List Event) × (w.written ≡ length es)
          × Sub (es ++ w.events) (handed ops)
          × Spared day_end retention
              (λ now. Among (prunes now) ops)
              (disk ++ filed day_of es)
              w.disk)
writer_accounts day_of day_end retention disk ops ok =
    let pruned : ℕ → Type 0 = λ now. Among (prunes now) ops in
    (
      run-accounted day_of day_end (open_dir retention disk) ops ok ∙ omega arith,
      Traced-parts day_of day_end retention disk pruned
          (run day_of day_end (open_dir retention disk) ops) (handed ops)
          (run-Traced day_of day_end retention disk pruned (open_dir retention disk) ops [] ok
            (all-Allowed day_of day_end retention disk pruned ops (λ n m. m))
            (open_dir-Traced day_of day_end retention disk pruned)),
    )
