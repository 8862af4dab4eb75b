-- ===== src/Journal/Reader.antt =====
-- journal/reader.go: Read, which streams the day files through the query into a ring.
use slimproxy.Base.{
  ℕ, ◌+◌, Bool, true, false, not, ◌&&◌, ◌||◌, Option, none, some, List, [], ◌∷◌, ◌++◌, ltb, leb,
  ◌==◌, if◌then◌else◌, length, drop,
}
use slimproxy.Journal.Event.{Event}
use slimproxy.Journal.Query.{Query, matches, hidden}

-- A line of a day file: empty, not an event that json.Unmarshal can read, or an event.
pub data Line : Type 0 where
  blank garbled : Line
  holds : Event → Line

-- What comes of opening and scanning a day file: it is gone since the directory was listed, it cannot
-- be opened, or it has lines, and the scan ends with an error or not.
pub data File : Type 0 where
  rotated unreadable : File
  lines : List Line → Bool → File

-- A day of the listing: its local midnight and the next day's, none where the name is no date, and
-- its file.
pub record Day : Type 0 where
  pub bounds : Option (ℕ × ℕ)
  pub file : File

-- Result, and the ring that becomes its Events.
pub record Result : Type 0 where
  pub events : List Event
  pub noise : ℕ

-- `n := e.Count; if n == 0 { n = 1 }`.
abbrev pub weight : Event → ℕ
weight e = if e.count == 0 then 1 else e.count

-- copy(ring, ring[1:]); ring[len(ring)-1] = e.
abbrev pub shift : List Event → Event → List Event
shift ring e = drop 1 ring ++ e ∷ []

-- The closure `push` of Read.
unfoldable pub push : Query → Result → Event → Result
unfolding hidden
push q r e =
    if hidden q e
    then record r { noise = r.noise + weight e }
    else if q.limit == 0 || ltb (length r.events) q.limit
    then record r { events = r.events ++ e ∷ [] }
    else record r { events = shift r.events e }

-- skipDay.
unfoldable pub skip_day : Option (ℕ × ℕ) → Query → Bool
skip_day none q = false
skip_day (some (start, end)) q =
    if not (q.since == 0) && leb end q.since then true else not (q.until == 0) && ltb q.until start

-- The loop of scanDay.
unfoldable pub scan_lines : Query → Result → List Line → Result
unfolding push matches
scan_lines q r [] = r
scan_lines q r (blank ∷ ls) = scan_lines q r ls
scan_lines q r (garbled ∷ ls) = scan_lines q r ls
scan_lines q r (holds e ∷ ls) = scan_lines q (if matches q e then push q r e else r) ls

-- scanDay: the result, and whether it is an error.
unfoldable pub scan_day : Query → Result → File → Result × Bool
unfolding scan_lines
scan_day q r rotated = (r, false)
scan_day q r unreadable = (r, true)
scan_day q r (lines ls err) = (scan_lines q r ls, err)

-- Read's loop over the days; none where it returns the error of a day.
unfoldable pub read_days : Query → Result → List Day → Option Result
unfolding skip_day scan_day
read_days q r [] = some r
read_days q r (d ∷ days) =
    let (s, err) = scan_day q r d.file in
    let rest = read_days q s days in
    let past = read_days q r days in
    if skip_day d.bounds q then past else if err then none else rest

-- Read, on a directory that could be listed.
unfoldable pub read : Query → List Day → Option Result
unfolding read_days
read q days = read_days q (record { events = []; noise = 0 }) days
