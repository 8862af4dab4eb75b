-- ===== src/Journal/Kept.antt =====
-- What becomes of the events that Writer of journal/writer.go is given.
use slimproxy.Base.{
  ℕ, suc, ◌+◌, ◌-◌, ◌<◌, ◌≡◌, refl, sym, ap, subst, true, not, List, [], ◌∷◌, ltb, leb, if-both,
  length, keep, All, length-append, arith,
}
use slimproxy.Journal.Event.{Event}
use slimproxy.Journal.Writer.{
  queue_size, Writer, dated, enqueue, append, Luck, write_line, write, take_from, take_event, prune,
  Op, appends, takes, prunes,
}
use slimproxy.Journal.Filed.{apply, run, IsFiled}

-- The disk works.
abbrev pub Works : Op → Type 0
Works (appends e now) = Unit
Works (takes l) = (l.marshals ≡ true) × (l.opens ≡ true) × (l.writes ≡ true)
Works (prunes now) = Unit

-- How many events were handed to the writer.
abbrev pub appended : List Op → ℕ
appended [] = 0
appended (appends e now ∷ ops) = suc (appended ops)
appended (takes l ∷ ops) = appended ops
appended (prunes now ∷ ops) = appended ops

abbrev pub accounted : Writer → ℕ
accounted w = w.written + length w.events + w.dropped

enqueue-accounted : (w : Writer) (e : Event) → accounted (enqueue w e) ≡ suc (accounted w)
unfolding enqueue
enqueue-accounted w e =
    if-both (λ v. accounted v ≡ suc (accounted w)) (ltb (length w.events) queue_size)
      (omega (arith, length-append w.events (e ∷ []))) (omega arith)

module _ (day_of : ℕ → ℕ) where
  write-accounted :
      (w : Writer) (e : Event) (l : Luck)
      → (l.marshals ≡ true) × (l.opens ≡ true) × (l.writes ≡ true)
      → accounted (write day_of w e l) ≡ suc (accounted w)
  unfolding write write_line
  write-accounted w e l ok = ground (arith, ok)

  take_from-accounted :
      (w : Writer) (es : List Event) (l : Luck)
      → (l.marshals ≡ true) × (l.opens ≡ true) × (l.writes ≡ true)
      → w.events ≡ es
      → accounted (take_from day_of w es l) ≡ accounted w
  unfolding take_from
  take_from-accounted w [] l ok h = refl
  take_from-accounted w (e ∷ es) l ok h =
      let longer : length w.events ≡ suc (length es) = ap length h in
      omega (arith, write-accounted (record w { events = es }) e l ok, longer)

  apply-accounted :
      (day_end : ℕ → ℕ) (w : Writer) (op : Op)
      → Works op
      → accounted (apply day_of day_end w op) ≡ accounted w + appended (op ∷ [])
  unfolding append take_event prune
  apply-accounted day_end w (appends e now) ok = omega (arith, enqueue-accounted w (dated e now))
  apply-accounted day_end w (takes l) ok = omega (arith, take_from-accounted w w.events l ok refl)
  apply-accounted day_end w (prunes now) ok = omega arith

  appended-cons :
      (op : Op) (ops : List Op) → appended (op ∷ ops) ≡ appended (op ∷ []) + appended ops
  appended-cons (appends e now) ops = omega arith
  appended-cons (takes l) ops = omega arith
  appended-cons (prunes now) ops = omega arith

  pub run-accounted :
      (day_end : ℕ → ℕ) (w : Writer) (ops : List Op)
      → All Works ops
      → accounted (run day_of day_end w ops) ≡ accounted w + appended ops
  run-accounted day_end w [] ok = omega arith
  run-accounted day_end w (op ∷ ops) ok = omega (
    arith,
    run-accounted day_end (apply day_of day_end w op) ops ok.1,
    apply-accounted day_end w op ok.0,
    appended-cons op ops,
  )

-- The lines from a time on.
abbrev pub since : ℕ → List (ℕ × Event) → List (ℕ × Event)
since cutoff lines = keep (λ line. leb cutoff line.1.at) lines

prune_since :
    (day_of day_end : ℕ → ℕ) (cutoff : ℕ) (lines : List (ℕ × Event))
    → ((t : ℕ) → t < day_end (day_of t))
    → IsFiled day_of lines
    → since cutoff (keep (λ line. not (ltb (day_end line.0) cutoff)) lines) ≡ since cutoff lines
prune_since day_of day_end cutoff [] ends i = refl
prune_since day_of day_end cutoff ((d, e) ∷ lines) ends i =
    let later : e.at < day_end d = subst (λ k. e.at < day_end k) (sym i.0) (ends e.at) in
    ground (arith, later, prune_since day_of day_end cutoff lines ends i.1)

-- Pruning deletes no event that is younger than the retention: where each line stands in the file of
-- its day and a day ends after all its times, the lines from the cutoff on are the same as before.
pub prune_spares :
    (day_of day_end : ℕ → ℕ) (w : Writer) (now : ℕ)
    → ((t : ℕ) → t < day_end (day_of t))
    → IsFiled day_of w.disk
    → since (now - w.retention) (prune day_end w now).disk ≡ since (now - w.retention) w.disk
unfolding prune
prune_spares day_of day_end w now ends i =
    prune_since day_of day_end (now - w.retention) w.disk ends i
