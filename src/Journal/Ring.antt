-- ===== src/Journal/Ring.antt =====
-- The ring of Read in journal/reader.go, over the lines of one day file.
use slimproxy.Base.{
  ℕ, ◌+◌, ◌≤◌, ◌<◌, ◌≡◌, sym, ap, ◌∙◌, Bool, false, not, ◌&&◌, Option, none, some, List, [], ◌∷◌,
  ◌++◌, if◌then◌else◌, keep, All, arith, append_assoc, append-nil,
}
use slimproxy.Journal.Event.{Event}
use slimproxy.Journal.Query.{Query, matches, hidden}
use slimproxy.Journal.Reader.{
  Line, blank, garbled, holds, File, rotated, unreadable, lines, Day, Result, weight, push,
  scan_lines,
}
use slimproxy.Journal.Window.{last_n, last_n-snoc}

-- The events of lines, files and days.
abbrev pub events_of : List Line → List Event
events_of [] = []
events_of (blank ∷ ls) = events_of ls
events_of (garbled ∷ ls) = events_of ls
events_of (holds e ∷ ls) = e ∷ events_of ls

abbrev pub file_events : File → List Event
file_events rotated = []
file_events unreadable = []
file_events (lines ls err) = events_of ls

abbrev pub journal_events : List Day → List Event
journal_events [] = []
journal_events (d ∷ days) = file_events d.file ++ journal_events days

-- The file opens and scans, unless it is gone.
abbrev pub Scans : File → Type 0
Scans rotated = Unit
Scans unreadable = ⊥
Scans (lines ls err) = err ≡ false

-- Every event of the day's file happened on that day.
abbrev pub InBounds : Option (ℕ × ℕ) → Event → Type 0
InBounds none e = Unit
InBounds (some (start, end)) e = (start ≤ e.at) × (e.at < end)

abbrev pub IsFiled : Day → Type 0
IsFiled d = Scans d.file × All (InBounds d.bounds) (file_events d.file)

abbrev pub total_weight : List Event → ℕ
total_weight [] = 0
total_weight (e ∷ es) = weight e + total_weight es

-- What a search lists, and what it counts as noise.
abbrev pub is_listed : Query → Event → Bool
is_listed q e = matches q e && not (hidden q e)

abbrev pub is_counted : Query → Event → Bool
is_counted q e = matches q e && hidden q e

-- The ring and the count after the events seen so far.
pub record IsRing (q : Query) (r : Result) (seen : List Event) (n : ℕ) : Type 0 where
  pub ring : r.events ≡ last_n q.limit seen
  pub told : r.noise ≡ n

push-IsRing :
    (q : Query) (r : Result) (e : Event) (seen : List Event) (n : ℕ)
    → IsRing q r seen n
    → IsRing q
        (push q r e)
        (if hidden q e then seen else seen ++ e ∷ [])
        (if hidden q e then n + weight e else n)
unfolding push
push-IsRing q r e seen n i = record {
  ring = ground (arith, i, last_n-snoc q.limit seen e);
  told = ground (arith, i);
}

-- The sum of the counts of the noise in a list of events.
abbrev pub noise_in : Query → List Event → ℕ
noise_in q es = total_weight (keep (is_counted q) es)

pub recast :
    (q : Query) (r : Result) {seen more : List Event} {n m : ℕ}
    → IsRing q r seen n
    → seen ≡ more
    → n ≡ m
    → IsRing q r more m
recast q r i e f = record { ring = i.ring ∙ ap (last_n q.limit) e; told = i.told ∙ f }

line-IsRing :
    (q : Query) (r : Result) (e : Event) (seen : List Event) (n : ℕ)
    → IsRing q r seen n
    → IsRing q
        (if matches q e then push q r e else r)
        (seen ++ keep (is_listed q) (e ∷ []))
        (n + noise_in q (e ∷ []))
line-IsRing q r e seen n i =
    let j = push-IsRing q r e seen n i in
    record {
      ring = ground (arith, i.ring, j.ring, append-nil seen);
      told = ground (arith, i.told, j.told);
    }

keep-cons :
    (p : Event → Bool) (e : Event) (es : List Event)
    → keep p (e ∷ es) ≡ keep p (e ∷ []) ++ keep p es
keep-cons p e es = ground arith

pub total_weight-append :
    (xs ys : List Event) → total_weight (xs ++ ys) ≡ total_weight xs + total_weight ys
total_weight-append [] ys = omega arith
total_weight-append (x ∷ xs) ys = omega (arith, total_weight-append xs ys)

noise_in-cons :
    (q : Query) (e : Event) (es : List Event)
    → noise_in q (e ∷ es) ≡ noise_in q (e ∷ []) + noise_in q es
noise_in-cons q e es =
    ap total_weight (keep-cons (is_counted q) e es)
    ∙ total_weight-append (keep (is_counted q) (e ∷ [])) (keep (is_counted q) es)

pub scan_lines-IsRing :
    (q : Query) (r : Result) (ls : List Line) (seen : List Event) (n : ℕ)
    → IsRing q r seen n
    → IsRing q
        (scan_lines q r ls)
        (seen ++ keep (is_listed q) (events_of ls))
        (n + noise_in q (events_of ls))
unfolding scan_lines
scan_lines-IsRing q r [] seen n i = recast q r i (sym (append-nil seen)) (omega arith)
scan_lines-IsRing q r (blank ∷ ls) seen n i = scan_lines-IsRing q r ls seen n i
scan_lines-IsRing q r (garbled ∷ ls) seen n i = scan_lines-IsRing q r ls seen n i
scan_lines-IsRing q r (holds e ∷ ls) seen n i =
    recast q _
      (scan_lines-IsRing q (if matches q e then push q r e else r) ls _ _
        (line-IsRing q r e seen n i))
      (append_assoc seen (keep (is_listed q) (e ∷ [])) (keep (is_listed q) (events_of ls))
        ∙ ap (◌++◌ seen) (sym (keep-cons (is_listed q) e (events_of ls))))
      (omega (arith, noise_in-cons q e (events_of ls)))
