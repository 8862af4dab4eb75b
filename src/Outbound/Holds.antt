-- ===== src/Outbound/Holds.antt =====
-- How long Relay of outbound/outbound.go holds a verdict, and how long serve waits.
use slimproxy.Base.{
  ℕ, zero, suc, ◌+◌, ◌*◌, ◌≤◌, ◌<◌, ◌≡◌, refl, ap, ap₂, ◌∙◌, Bool, true, false, is_some,
  if◌then◌else◌, Option, List, [], ◌∷◌, arith, All,
}
use Prim.Native.Nat.{min}
use slimproxy.Text.{Text}
use slimproxy.Outbound.Relay.{
  Relay, deliver, record_verdict, probe, via_proxy, mark_down, mark_broken, close, first_delay,
  last_delay, next_delay, Accept, accepted, failed_open, Served, handed, slept, serve,
}
use slimproxy.Outbound.Verdicts.{Op, asks, downs, breaks, tells, shuts, step}

-- The answers that connections get of viaProxy; one that waits for mu has none yet.
unfoldable pub answers : List Op → Relay → List Bool
unfolding step
answers [] r = []
answers (asks now d later ∷ ops) r =
    let rest = answers ops (step (asks now d later) r) in
    if is_some r.telling then rest else (via_proxy now d later r).0 ∷ rest
answers (downs reason now ∷ ops) r = answers ops (step (downs reason now) r)
answers (breaks reason now ∷ ops) r = answers ops (step (breaks reason now) r)
answers (tells ∷ ops) r = answers ops (step tells r)
answers (shuts ∷ ops) r = answers ops (step shuts r)

-- An operation between two moments: a question before the later one, another failure after the first.
unfoldable pub Within : ℕ → ℕ → Op → Type 0
Within from until (asks now d later) = now < until
Within from until (breaks reason now) = from ≤ now
Within from until _ = Unit

keeps_holding :
    (from until : ℕ) (op : Op) (r : Relay)
    → until ≡ from + r.opt.handshake_backoff
    → until ≤ r.broken_until
    → Within from until op
    → (until ≡ from + (step op r).opt.handshake_backoff) × (until ≤ (step op r).broken_until)
unfolding step Within via_proxy probe mark_down mark_broken close record_verdict deliver
keeps_holding from until (asks now d later) r e b w = ground arith
keeps_holding from until (downs reason now) r e b w = ground arith
keeps_holding from until (breaks reason now) r e b w = ground arith
keeps_holding from until tells r e b w = (e, b)
keeps_holding from until shuts r e b w = (e, b)

held_back :
    (from until now : ℕ) (d : Option Text) (later : ℕ) (r : Relay)
    → until ≤ r.broken_until
    → now < until
    → (via_proxy now d later r).0 ≡ false
unfolding via_proxy
held_back from until now d later r b w = ground arith

one_more :
    (waits answer : Bool) (rest : List Bool)
    → answer ≡ false
    → All (λ verdict. verdict ≡ false) rest
    → All (λ verdict. verdict ≡ false) (if waits then rest else answer ∷ rest)
one_more true answer rest e a = a
one_more false answer rest e a = (e, a)

held :
    (from until : ℕ) (ops : List Op) (r : Relay)
    → until ≡ from + r.opt.handshake_backoff
    → until ≤ r.broken_until
    → All (Within from until) ops
    → All (λ verdict. verdict ≡ false) (answers ops r)
unfolding answers Within
held from until [] r e b w = tt
held from until (asks now d later ∷ ops) r e b w =
    let k = keeps_holding from until (asks now d later) r e b w.0 in
    let rest = held from until ops (step (asks now d later) r) k.0 k.1 w.1 in
    one_more (is_some r.telling) (via_proxy now d later r).0 _
      (held_back from until now d later r b w.0) rest
held from until (downs reason now ∷ ops) r e b w =
    let k = keeps_holding from until (downs reason now) r e b w.0 in
    held from until ops (step (downs reason now) r) k.0 k.1 w.1
held from until (breaks reason now ∷ ops) r e b w =
    let k = keeps_holding from until (breaks reason now) r e b w.0 in
    held from until ops (step (breaks reason now) r) k.0 k.1 w.1
held from until (tells ∷ ops) r e b w =
    let k = keeps_holding from until tells r e b w.0 in
    held from until ops (step tells r) k.0 k.1 w.1
held from until (shuts ∷ ops) r e b w =
    let k = keeps_holding from until shuts r e b w.0 in
    held from until ops (step shuts r) k.0 k.1 w.1

broken_kept :
    (reason : Text) (from : ℕ) (r : Relay)
    → (from + r.opt.handshake_backoff
        ≡ from + (deliver (mark_broken reason from r)).opt.handshake_backoff)
      × (from + r.opt.handshake_backoff ≤ (deliver (mark_broken reason from r)).broken_until)
unfolding mark_broken record_verdict deliver
broken_kept reason from r = ground arith

-- After a failed handshake every connection that asks before the back-off is over goes direct, and none is
-- sent to the proxy, whatever fails in between, and whether or not its port is listening.
pub mark_broken-holds :
    (reason : Text) (from : ℕ) (ops : List Op) (r : Relay)
    → All (Within from (from + r.opt.handshake_backoff)) ops
    → All (λ verdict. verdict ≡ false) (answers ops (deliver (mark_broken reason from r)))
mark_broken-holds reason from ops r w =
    held from (from + r.opt.handshake_backoff) ops (deliver (mark_broken reason from r))
      (broken_kept reason from r).0 (broken_kept reason from r).1 w

-- The delay of serve after so many failures in a row, and one more: 5 ms doubled each time, and at most 1 s.
abbrev pub doubled : ℕ → ℕ
doubled zero = first_delay
doubled (suc n) = doubled n * 2

unfoldable pub sleeps : ℕ → ℕ → List Served
sleeps n zero = []
sleeps n (suc rounds) = slept (min (doubled n) last_delay) ∷ sleeps (suc n) rounds

-- Failures of Accept in a row.
abbrev pub failures : ℕ → List Accept
failures zero = []
failures (suc rounds) = failed_open ∷ failures rounds

doubled_pos : (n : ℕ) → 0 < doubled n
doubled_pos zero = omega arith
doubled_pos (suc n) = omega (arith, doubled_pos n)

next_delay-doubled :
    (n : ℕ) → next_delay (min (doubled n) last_delay) ≡ min (doubled (suc n)) last_delay
unfolding next_delay
next_delay-doubled n = ground (arith, doubled_pos n)

first_step : next_delay 0 ≡ min (doubled 0) last_delay
unfolding next_delay
first_step = refl

serve-sleeps :
    (n rounds delay : ℕ)
    → next_delay delay ≡ min (doubled n) last_delay
    → (serve delay (failures rounds)).0 ≡ sleeps n rounds
unfolding serve sleeps
serve-sleeps n zero delay e = refl
serve-sleeps n (suc rounds) delay e =
    ap₂ (λ d rest. slept d ∷ rest) e
      (serve-sleeps (suc n) rounds (next_delay delay) (ap next_delay e ∙ next_delay-doubled n))

-- After a connection has been accepted, failures of Accept in a row put serve to sleep for 5 ms and then for
-- twice as long each time, never for more than 1 s, whatever it had come to before.
pub serve_lem :
    (delay rounds : ℕ) → (serve delay (accepted ∷ failures rounds)).0 ≡ handed ∷ sleeps 0 rounds
unfolding serve
serve_lem delay rounds = ap (◌∷◌ handed) (serve-sleeps 0 rounds 0 first_step)
