-- ===== src/Metrics/Rows.antt =====
-- The rows of the tracker of metrics/inflight.go, and the requests that they belong to.
use slimproxy.Base.{
  ℕ, suc, ◌≤◌, ◌<◌, ◌≡◌, ◌≢◌, refl, List, [], ◌∷◌, Option, none, some, ltb, ◌==◌, if◌then◌else◌,
  arith, Bool-cases, inl, inr,
}
use mathlib.Core.List.{Perm}
use mathlib.Core.List.Perm
use slimproxy.Text.{Text}
use slimproxy.Metrics.InFlight.{
  Pending, InFlight, begin, remove, end, insert, sort_rows, pendings, snapshot, arrive, leave,
}

-- Tokens fall along the list and stay at or below the last one given out.
abbrev pub Below : ℕ → List (ℕ × Pending) → Type 0
Below n [] = Unit {0}
Below n ((t, p) ∷ live) = (t < n) × Below t live

abbrev pub IsSound : InFlight → Type 0
IsSound f = Below (suc f.next) f.live

Below-mono : (m n : ℕ) (live : List (ℕ × Pending)) → m ≤ n → Below m live → Below n live
Below-mono m n [] h b = tt
Below-mono m n ((t, p) ∷ live) h b = (omega arith, b.1)

remove-Below :
    (token n : ℕ) (live : List (ℕ × Pending)) → Below n live → Below n (remove token live)
unfolding remove
remove-Below token n [] b = tt
remove-Below token n ((t, p) ∷ live) b =
    ground (arith, remove-Below token t live b.1, Below-mono t n (remove token live))

-- A token above the list names no row.
remove_above :
    (token n : ℕ) (live : List (ℕ × Pending)) → Below n live → n ≤ token → remove token live ≡ live
unfolding remove
remove_above token n [] b h = refl
remove_above token n ((t, p) ∷ live) b h = ground (arith, remove_above token t live b.1)

pub begin-IsSound : (f : InFlight) (path : Text) (at : ℕ) → IsSound f → IsSound (begin f path at).0
unfolding begin
begin-IsSound f path at v = (omega arith, v)

pub end-IsSound : (f : InFlight) (token : ℕ) → IsSound f → IsSound (end f token)
unfolding end
end-IsSound f token v = remove-Below token (suc f.next) f.live v

-- The row that a token names.
pub lookup : ℕ → List (ℕ × Pending) → Option Pending
lookup token [] = none
lookup token ((t, p) ∷ live) = if t == token then some p else lookup token live

lookup-remove :
    (token other : ℕ) (live : List (ℕ × Pending))
    → lookup other (remove token live) ≡ (if token == other then none else lookup other live)
unfolding lookup remove
lookup-remove token other [] = ground arith
lookup-remove token other ((t, p) ∷ live) = ground (arith, lookup-remove token other live)

lookup_above :
    (token n : ℕ) (live : List (ℕ × Pending)) → Below n live → n ≤ token → lookup token live ≡ none
unfolding lookup
lookup_above token n [] b h = refl
lookup_above token n ((t, p) ∷ live) b h = ground (arith, lookup_above token t live b.1)

-- What requests do to the tracker: they begin, or end by a token.
pub data Move : Type 0 where
  begins : Text → ℕ → Move
  ends : ℕ → Move

abbrev pub move : InFlight → Move → InFlight
move f (begins path at) = (begin f path at).0
move f (ends token) = end f token

abbrev pub run : InFlight → List Move → InFlight
run f [] = f
run f (m ∷ moves) = run (move f m) moves

-- No move ends the request with this token.
abbrev pub Spares : ℕ → List Move → Type 0
Spares token [] = Unit {0}
Spares token (begins path at ∷ moves) = Spares token moves
Spares token (ends t ∷ moves) = (t ≢ token) × Spares token moves

move-IsSound : (f : InFlight) (m : Move) → IsSound f → IsSound (move f m)
move-IsSound f (begins path at) v = begin-IsSound f path at v
move-IsSound f (ends token) v = end-IsSound f token v

-- A row that no one ends stays, however many requests come and go meanwhile.
row_stays :
    (f : InFlight) (token : ℕ) (p : Pending) (moves : List Move)
    → IsSound f
    → token ≤ f.next
    → Spares token moves
    → lookup token f.live ≡ some p
    → lookup token (run f moves).live ≡ some p
unfolding begin end lookup
row_stays f token p [] v h s e = e
row_stays f token p (begins path at ∷ moves) v h s e =
    row_stays (begin f path at).0 token p moves (begin-IsSound f path at v) (omega arith) s
      (ground arith)
row_stays f token p (ends t ∷ moves) v h s e =
    row_stays (end f t) token p moves (end-IsSound f t v) h s.1
      (ground (arith, lookup-remove t token f.live, s.0))

fresh_row :
    (token : ℕ) (p : Pending) (live : List (ℕ × Pending))
    → lookup token ((token, p) ∷ live) ≡ some p
unfolding lookup
fresh_row token p live = ground arith

end_row : (f : InFlight) (token : ℕ) → lookup token (end f token).live ≡ none
unfolding end
end_row f token = ground (arith, lookup-remove token token f.live)

-- A request keeps its own row, with its arrival and path, until its own End: the token that Begin
-- returned names no row before, and this row after any other traffic; its End removes it.
pub own_row :
    (f : InFlight) (path : Text) (at : ℕ) (moves : List Move)
    → IsSound f
    → Spares (begin f path at).1 moves
    → let (g, token) = begin f path at in
      (lookup token f.live ≡ none)
      × (lookup token (run g moves).live ≡ some (record { at = at; path = path }))
      × (lookup token (end (run g moves) token).live ≡ none)
unfolding begin
own_row f path at moves v s = (
  lookup_above (suc f.next) (suc f.next) f.live v (omega arith),
  row_stays (begin f path at).0 (suc f.next) _ moves (begin-IsSound f path at v) (omega arith) s
      (fresh_row (suc f.next) _ f.live),
  end_row (run (begin f path at).0 moves) (suc f.next),
)

-- Whatever came in between, a request that leaves takes exactly its own row with it: with no other
-- traffic the tracker's rows are as before it came, and a request that is not shown changes nothing.
pub arrive-leave :
    (f : InFlight) (r : Option (Text × Text)) (now : ℕ)
    → IsSound f
    → (leave (arrive f r now).0 (arrive f r now).1).live ≡ f.live
unfolding arrive leave remove
arrive-leave f none now v = refl
arrive-leave f (some (method, path)) now v =
    ground (arith, remove_above (suc f.next) (suc f.next) f.live v)

-- The oldest first.
abbrev pub OldestFirst : List Pending → Type 0
OldestFirst [] = Unit {0}
OldestFirst (p ∷ []) = Unit {0}
OldestFirst (p ∷ q ∷ rows) = (p.at ≤ q.at) × OldestFirst (q ∷ rows)

insert-OldestFirst :
    (p : Pending) (rows : List Pending) → OldestFirst rows → OldestFirst (insert p rows)
unfolding insert
insert-OldestFirst p [] o = tt
insert-OldestFirst p (q ∷ []) o = ground arith
insert-OldestFirst p (q ∷ r ∷ rows) o = ground (arith, insert-OldestFirst p (r ∷ rows) o.1)

insert-perm : (p : Pending) (rows : List Pending) → Perm (insert p rows) (p ∷ rows)
unfolding insert
insert-perm p [] = Perm.refl (p ∷ [])
insert-perm p (q ∷ rows) = elim (Bool-cases (ltb q.at p.at)) [
  | inl later ↦ rw later (Perm.trans (Perm.cons q (insert-perm p rows)) (Perm.swap p q rows))
  | inr first ↦ rw first (Perm.refl (p ∷ q ∷ rows))
]

sort_rows-OldestFirst : (rows : List Pending) → OldestFirst (sort_rows rows)
unfolding sort_rows
sort_rows-OldestFirst [] = tt
sort_rows-OldestFirst (p ∷ rows) =
    insert-OldestFirst p (sort_rows rows) (sort_rows-OldestFirst rows)

sort_rows-perm : (rows : List Pending) → Perm (sort_rows rows) rows
unfolding sort_rows
sort_rows-perm [] = Perm.refl []
sort_rows-perm (p ∷ rows) =
    Perm.trans (insert-perm p (sort_rows rows)) (Perm.cons p (sort_rows-perm rows))

-- The snapshot holds each live request once, the oldest first.
pub snapshot_lem : (f : InFlight) → OldestFirst (snapshot f) × Perm (snapshot f) (pendings f.live)
unfolding snapshot
snapshot_lem f = (sort_rows-OldestFirst (pendings f.live), sort_rows-perm (pendings f.live))
