-- ===== src/Metrics/InFlight.antt =====
-- metrics/inflight.go: the requests between arrival and completion; and proxy/inflight.go, which
-- reports them.
use slimproxy.Base.{
  ℕ, suc, Bool, false, not, List, [], ◌∷◌, ltb, ◌==◌, if◌then◌else◌, Option, none, some,
}
use slimproxy.Text.{Text, codes, text_eq, contains}

pub record Pending : Type 0 where
  pub at : ℕ
  pub path : Text

-- InFlight: the last token given out, and the live requests, the newest first.
pub record InFlight : Type 0 where
  pub next : ℕ
  pub live : List (ℕ × Pending)

-- NewInFlight.
abbrev pub empty : InFlight
empty = record { next = 0; live = [] }

-- Begin: the tracker and the token.
unfoldable pub begin : InFlight → Text → ℕ → InFlight × ℕ
begin f path at = (
  record { next = suc f.next; live = (suc f.next, record { at = at; path = path }) ∷ f.live },
  suc f.next,
)

-- delete from the map.
unfoldable pub remove : ℕ → List (ℕ × Pending) → List (ℕ × Pending)
remove token [] = []
remove token ((t, p) ∷ live) =
    let rest = remove token live in if t == token then rest else (t, p) ∷ rest

-- End.
unfoldable pub end : InFlight → ℕ → InFlight
unfolding remove
end f token = record f { live = remove token f.live }

-- Started.
abbrev pub started : InFlight → ℕ
started f = f.next

-- sort.Slice by arrival; the order of equal times is not fixed by the source.
unfoldable pub insert : Pending → List Pending → List Pending
insert p [] = p ∷ []
insert p (q ∷ rows) = let rest = insert p rows in if ltb q.at p.at then q ∷ rest else p ∷ q ∷ rows

unfoldable pub sort_rows : List Pending → List Pending
unfolding insert
sort_rows [] = []
sort_rows (p ∷ rows) = insert p (sort_rows rows)

abbrev pub pendings : List (ℕ × Pending) → List Pending
pendings [] = []
pendings ((t, p) ∷ live) = p ∷ pendings live

-- Snapshot.
unfoldable pub snapshot : InFlight → List Pending
unfolding sort_rows
snapshot f = sort_rows (pendings f.live)

-- isInFlightWorthy; no request is none.
unfoldable pub is_in_flight_worthy : Option (Text × Text) → Bool
is_in_flight_worthy none = false
is_in_flight_worthy (some (method, path)) =
    if not (text_eq method (codes "POST"))
    then false
    else not (contains path (codes "/management/"))

-- InFlightMiddleware at the request's arrival: the tracker, and the token whose End is deferred.
unfoldable pub arrive : InFlight → Option (Text × Text) → ℕ → InFlight × Option ℕ
unfolding begin is_in_flight_worthy
arrive f none now = (f, none)
arrive f (some (method, path)) now =
    if not (is_in_flight_worthy (some (method, path)))
    then (f, none)
    else let (g, token) = begin f path now in (g, some token)

-- And when it leaves, by a return or a panic.
unfoldable pub leave : InFlight → Option ℕ → InFlight
unfolding end
leave f none = f
leave f (some token) = end f token
