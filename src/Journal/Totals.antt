-- ===== src/Journal/Totals.antt =====
-- How many requests the rows of RejectFolder in journal/rejects.go stand for.
use slimproxy.Base.{
  ℕ, suc, ◌+◌, ◌≡◌, ap, ◌∙◌, true, List, [], ◌∷◌, ◌++◌, if◌then◌else◌, keep, arith,
}
use slimproxy.Journal.Event.{Event}
use slimproxy.Journal.Rejects.{RejectKey, same_key, new, row, flush}
use slimproxy.Journal.Accounts.{
  Op, refuses, ticks, closes, key_of, run, Tally, tell, count_one, tally_all, nothing, is_row,
  flush-Tracks, run-Tracks, new-Tracks,
}

-- The requests that a list of rows stands for.
abbrev pub requests : List Event → ℕ
requests [] = 0
requests (e ∷ es) = e.count + requests es

-- How often the key was refused.
abbrev pub refusals : RejectKey → List Op → ℕ
refusals k [] = 0
refusals k (refuses method path status src at ∷ ops) =
    let rest = refusals k ops in
    if same_key (key_of method path status src) k then suc rest else rest
refusals k (ticks ∷ ops) = refusals k ops
refusals k (closes ∷ ops) = refusals k ops

requests-append : (xs ys : List Event) → requests (xs ++ ys) ≡ requests xs + requests ys
requests-append [] ys = omega arith
requests-append (x ∷ xs) ys = omega (arith, requests-append xs ys)

tell-total : (k : RejectKey) (t : Tally) → requests (tell k t).told ≡ requests t.told + t.count
tell-total k t = ground (arith, requests-append t.told (row k t.first t.count ∷ []))

tally-total :
    (k : RejectKey) (t : Tally) (ops : List Op)
    → requests (tally_all k t ops).told + (tally_all k t ops).count
      ≡ requests t.told + t.count + refusals k ops
tally-total k t [] = omega arith
tally-total k t (refuses method path status src at ∷ ops) =
    ground (arith, tally-total k t ops, tally-total k (count_one t at) ops)
tally-total k t (ticks ∷ ops) = omega (arith, tally-total k (tell k t) ops, tell-total k t)
tally-total k t (closes ∷ ops) = ground (
  arith,
  tally-total k t ops,
  tally-total k (tell k (record t { shut = true })) ops,
  tell-total k t,
)

-- No refusal is lost and none is counted twice: after a last flush the rows of a key stand for as
-- many requests as were refused under it.
pub refusals_accounted :
    (k : RejectKey) (ops : List Op)
    → requests (keep (is_row k) (flush (run new ops)).emitted) ≡ refusals k ops
refusals_accounted k ops =
    ap requests (flush-Tracks k (run new ops) _ (run-Tracks k new nothing ops (new-Tracks k))).told
    ∙ tell-total k (tally_all k nothing ops)
    ∙ omega (arith, tally-total k nothing ops)
