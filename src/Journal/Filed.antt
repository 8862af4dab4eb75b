-- ===== src/Journal/Filed.antt =====
-- Where the lines of Writer of journal/writer.go stand.
use slimproxy.Base.{
  ℕ, suc, ◌≤◌, ◌≡◌, refl, sym, subst, Bool, true, false, not, Option, none, some, List, [], ◌∷◌,
  ltb, if◌then◌else◌, if-both, length, keep, All, All-append, length-append, arith,
}
use slimproxy.Journal.Event.{Event}
use slimproxy.Journal.Writer.{
  queue_size, Writer, open_dir, dated, enqueue, append, Luck, is_open, line_in, write_line, write,
  take_from, take_event, prune, Op, appends, takes, prunes,
}

-- One step of a writer, and a run of them.
abbrev pub apply : (ℕ → ℕ) → (ℕ → ℕ) → Writer → Op → Writer
apply day_of day_end w (appends e now) = append w e now
apply day_of day_end w (takes l) = take_event day_of w l
apply day_of day_end w (prunes now) = prune day_end w now

abbrev pub run : (ℕ → ℕ) → (ℕ → ℕ) → Writer → List Op → Writer
run day_of day_end w [] = w
run day_of day_end w (op ∷ ops) = run day_of day_end (apply day_of day_end w op) ops

-- Every line stands in the file of its own day.
abbrev pub IsFiled : (ℕ → ℕ) → List (ℕ × Event) → Type 0
IsFiled day_of lines = All (λ line. line.0 ≡ day_of line.1.at) lines

-- What holds of the branch that a test takes.
if-cases :
    (P : Writer → Type 0) (b : Bool) {x y : Writer}
    → (b ≡ true → P x)
    → P y
    → P (if b then x else y)
if-cases P true hx hy = hx refl
if-cases P false hx hy = hy

enqueue-fits :
    (w : Writer) (e : Event)
    → length w.events ≤ queue_size
    → length (enqueue w e).events ≤ queue_size
unfolding enqueue
enqueue-fits w e fits =
    if-cases (λ v. length v.events ≤ queue_size) (ltb (length w.events) queue_size)
      (λ room. ground (arith, room, length-append w.events (e ∷ []))) fits

enqueue-disk : (w : Writer) (e : Event) → (enqueue w e).disk ≡ w.disk
unfolding enqueue
enqueue-disk w e =
    if-both (λ (v : Writer). v.disk ≡ w.disk) (ltb (length w.events) queue_size) refl refl

module _ (day_of : ℕ → ℕ) where
  open-IsFiled :
      (file : Option ℕ) (e : Event)
      → is_open file (day_of e.at) ≡ true
      → IsFiled day_of (line_in file e)
  open-IsFiled none e h = tt
  open-IsFiled (some d) e h = (ground (arith, h), tt)

  write_line-IsFiled :
      (w : Writer) (e : Event) (l : Luck)
      → IsFiled day_of w.disk
      → IsFiled day_of (line_in w.file e)
      → IsFiled day_of (write_line w e l).disk
  unfolding write_line
  write_line-IsFiled w e l i j =
      if-both (λ (v : Writer). IsFiled day_of v.disk) (not l.writes) i
        (All-append (λ line. line.0 ≡ day_of line.1.at) w.disk (line_in w.file e) i j)

  write-IsFiled :
      (w : Writer) (e : Event) (l : Luck)
      → IsFiled day_of w.disk
      → IsFiled day_of (write day_of w e l).disk
  unfolding write
  write-IsFiled w e l i =
      if-both (λ (v : Writer). IsFiled day_of v.disk) (not l.marshals) i
        (if-cases (λ v. IsFiled day_of v.disk) (is_open w.file (day_of e.at))
          (λ same. write_line-IsFiled w e l i (open-IsFiled w.file e same))
          (if-both (λ (v : Writer). IsFiled day_of v.disk) (not l.opens) i
            (write_line-IsFiled (record w { file = some (day_of e.at) }) e l i (refl, tt))))

  write-events : (w : Writer) (e : Event) (l : Luck) → (write day_of w e l).events ≡ w.events
  unfolding write write_line
  write-events w e l = ground arith

  -- What is known of a writer: its lines are filed by their day, and its queue fits.
  record IsKept (w : Writer) : Type 0 where
    filed : IsFiled day_of w.disk
    fits : length w.events ≤ queue_size

  take_from-IsKept :
      (w : Writer) (es : List Event) (l : Luck)
      → w.events ≡ es
      → IsKept w
      → IsKept (take_from day_of w es l)
  unfolding take_from
  take_from-IsKept w [] l h i = i
  take_from-IsKept w (e ∷ es) l h i =
      let v = record w { events = es } in
      let shorter : suc (length es) ≤ queue_size = subst (λ xs. length xs ≤ queue_size) h i.fits in
      record {
        filed = write-IsFiled v e l i.filed;
        fits =
            subst (λ xs. length xs ≤ queue_size) (sym (write-events v e l))
              (omega (arith, shorter));
      }

  keep-IsFiled :
      (p : ℕ × Event → Bool) (lines : List (ℕ × Event))
      → IsFiled day_of lines
      → IsFiled day_of (keep p lines)
  keep-IsFiled p [] i = tt
  keep-IsFiled p (line ∷ lines) i =
      if-both (IsFiled day_of) (p line) (i.0, keep-IsFiled p lines i.1) (keep-IsFiled p lines i.1)

  apply-IsKept :
      (day_end : ℕ → ℕ) (w : Writer) (op : Op) → IsKept w → IsKept (apply day_of day_end w op)
  unfolding append take_event prune
  apply-IsKept day_end w (appends e now) i = record {
    filed = subst (IsFiled day_of) (sym (enqueue-disk w (dated e now))) i.filed;
    fits = enqueue-fits w (dated e now) i.fits;
  }
  apply-IsKept day_end w (takes l) i = take_from-IsKept w w.events l refl i
  apply-IsKept day_end w (prunes now) i = record {
    filed = keep-IsFiled _ w.disk i.filed;
    fits = i.fits;
  }

  run-IsKept :
      (day_end : ℕ → ℕ) (w : Writer) (ops : List Op) → IsKept w → IsKept (run day_of day_end w ops)
  run-IsKept day_end w [] i = i
  run-IsKept day_end w (op ∷ ops) i =
      run-IsKept day_end (apply day_of day_end w op) ops (apply-IsKept day_end w op i)

-- Whatever is appended, in whatever order of times, and whatever fails: each line stands in the file
-- of its own day, and no more than 4096 events wait.
pub writer_files :
    (day_of day_end : ℕ → ℕ) (retention : ℕ) (disk : List (ℕ × Event)) (ops : List Op)
    → IsFiled day_of disk
    → let w = run day_of day_end (open_dir retention disk) ops in
      IsFiled day_of w.disk × (length w.events ≤ 4096)
writer_files day_of day_end retention disk ops i =
    let k =
      run-IsKept day_of day_end (open_dir retention disk) ops
        (record { filed = i; fits = omega arith }) in
    (k.filed, k.fits)
