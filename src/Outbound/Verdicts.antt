-- ===== src/Outbound/Verdicts.antt =====
-- What the verdicts of Relay in outbound/outbound.go come to over time.
use slimproxy.Base.{
  ℕ, ◌+◌, ◌≡◌, refl, sym, subst, ◌⊎◌, inl, inr, Bool, true, false, not, ◌&&◌, ◌||◌, Option, none,
  some, is_some, ap₂, if◌then◌else◌, List, [], ◌∷◌, ltb, arith, Bool-cases, All,
}
use slimproxy.Text.{Text}
use slimproxy.Outbound.Relay.{
  Relay, differs, told_of, deliver, record_verdict, probe, via_proxy, mark_down, mark_broken, close,
}

-- What happens to the relay: connections ask viaProxy or report a failure, each under mu up to the call of
-- OnFlip that follows from it; that call is made, still under mu; and Close, which takes no lock.
pub data Op : Type 0 where
  asks : ℕ → Option Text → ℕ → Op
  downs breaks : Text → ℕ → Op
  tells shuts : Op

-- While a call of OnFlip is under way mu is held, and no connection gets on.
unfoldable pub step : Op → Relay → Relay
step (asks now dialled later) r = if is_some r.telling then r else (via_proxy now dialled later r).1
step (downs reason now) r = if is_some r.telling then r else mark_down reason now r
step (breaks reason now) r = if is_some r.telling then r else mark_broken reason now r
step tells r = deliver r
step shuts r = close r

-- The calls of OnFlip, with the one under way.
unfoldable pub told : Relay → List (Bool × Text)
unfolding told_of
told r = told_of r.telling r.flips

unfoldable pub run : List Op → Relay → Relay
unfolding step
run [] r = r
run (op ∷ ops) r = run ops (step op r)

-- Two calls of OnFlip in a row tell of different paths, and one for the proxy gives no reason.
unfoldable pub Alternating : List (Bool × Text) → Type 0
Alternating [] = Unit
Alternating (f ∷ []) = Unit
Alternating (f ∷ g ∷ fs) = (differs f.0 g.0 ≡ true) × Alternating (g ∷ fs)

unfoldable pub Explained : Bool × Text → Type 0
Explained (true, reason) = reason ≡ []
Explained (false, reason) = Unit

-- The last call told of the path that is in force.
unfoldable pub Current : Relay → List (Bool × Text) → Type 0
Current r [] = r.probed ≡ false
Current r (f ∷ fs) = (r.probed ≡ true) × (f.0 ≡ r.up)

unfoldable pub Told : Relay → Type 0
Told r =
    Alternating (told r)
    × All Explained (told r)
    × ((r.closed ≡ true) ⊎ Current r (told r))
    × (r.opt.has_on_flip ≡ true)

differs_new :
    (f g up probed : Bool)
    → probed ≡ true
    → g ≡ up
    → not probed || differs f up ≡ true
    → differs f g ≡ true
unfolding differs
differs_new f g up probed p e d = ground (arith, p, e, d)

same_path :
    (f up was probed now : Bool)
    → f ≡ was
    → now ≡ up
    → probed ≡ true
    → not probed || differs up was ≡ false
    → f ≡ now
unfolding differs
same_path f up was probed now e u p d = ground (arith, e, u, p, d)

no_both : (b : Bool) → b ≡ true → b ≡ false → ⊥
no_both b c o = cc (c, o)

open-Current :
    (r : Relay) → (r.closed ≡ true) ⊎ Current r r.flips → r.closed ≡ false → Current r r.flips
open-Current r (inl c) o = absurd (no_both r.closed c o)
open-Current r (inr c) o = c

Alternating-next :
    (f : Bool × Text) (fs : List (Bool × Text)) (r : Relay)
    → Alternating fs
    → Current r fs
    → not r.probed || differs f.0 r.up ≡ true
    → Alternating (f ∷ fs)
unfolding Alternating Current
Alternating-next f [] r a c d = tt
Alternating-next f (g ∷ fs) r a c d = (differs_new f.0 g.0 r.up r.probed c.0 c.1 d, a)

-- No flip: the path in force is the one that was told.
Current-stays :
    (up : Bool) (fs : List (Bool × Text)) (r r' : Relay)
    → r'.probed ≡ true
    → r'.up ≡ up
    → Current r fs
    → not r.probed || differs up r.up ≡ false
    → Current r' fs
unfolding Current
Current-stays up [] r r' p u c d = ground (arith, c, d)
Current-stays up (f ∷ fs) r r' p u c d = (p, same_path f.0 up r.up r.probed r'.up c.1 u c.0 d)

-- With no call under way.
idle_parts :
    (r : Relay)
    → r.telling ≡ none
    → Told r
    → Alternating r.flips
      × All Explained r.flips
      × ((r.closed ≡ true) ⊎ Current r r.flips)
      × (r.opt.has_on_flip ≡ true)
unfolding Told told
idle_parts r q t = subst parts q t
  where
    parts : Option (Bool × Text) → Type 0
    parts o =
        Alternating (told_of o r.flips)
        × All Explained (told_of o r.flips)
        × ((r.closed ≡ true) ⊎ Current r (told_of o r.flips))
        × (r.opt.has_on_flip ≡ true)

record_verdict-Told :
    (up : Bool) (reason : Text) (now : ℕ) (r : Relay)
    → r.telling ≡ none
    → Explained (up, reason)
    → Told r
    → Told (record_verdict up reason now r)
unfolding Told record_verdict Current told
record_verdict-Told up reason now r q e t =
    let (a, x, k, h) = idle_parts r q t in
    elim (Bool-cases ((not r.probed || differs up r.up) && not r.closed && r.opt.has_on_flip)) [
      | inl b ↦ rw b (
        Alternating-next (up, reason) r.flips r a (open-Current r k (ground (arith, b)))
            (ground (arith, b)),
        (e, x),
        inr (refl, refl),
        h,
      )
      | inr b ↦ rw b (
          rw q (
            a,
            x,
            elim k [
              | inl c ↦ inl c
              | inr c ↦ elim (Bool-cases r.closed) [
                | inl o ↦ inl o
                | inr o ↦ inr (
                    Current-stays up r.flips r
                      (record r { probed = true; up = up; last_probe = now }) refl refl c
                      (ground (arith, b, o, h)))
              ]
            ],
            h,
          ))
    ]

same-Current :
    (r : Relay) (b : ℕ) (fs : List (Bool × Text))
    → Current r fs
    → Current (record r { broken_until = b }) fs
unfolding Current
same-Current r b [] c = c
same-Current r b (f ∷ fs) c = c

-- After viaProxy the relay is as it was, or has recorded what the probe found.
via_proxy-cases :
    (now : ℕ) (d : Option Text) (later : ℕ) (r : Relay)
    → ((via_proxy now d later r).1 ≡ r) ⊎ ((via_proxy now d later r).1 ≡ probe d later r)
unfolding via_proxy
via_proxy-cases now d later r = elim (Bool-cases (ltb now r.broken_until)) [
  | inl b ↦ inl (rw b refl)
  | inr b ↦ elim (Bool-cases (r.probed && ltb now (r.last_probe + r.opt.probe_ttl))) [
    | inl c ↦ inl (rw b (rw c refl))
    | inr c ↦ inr (rw b (rw c refl))
  ]
]

same-Told : (r : Relay) (b : ℕ) → Told r → Told (record r { broken_until = b })
unfolding Told told
same-Told r b (a, x, inl c, h) = (a, x, inl c, h)
same-Told r b (a, x, inr c, h) = (a, x, inr (same-Current r b (told r) c), h)

probe-Told :
    (d : Option Text) (now : ℕ) (r : Relay) → r.telling ≡ none → Told r → Told (probe d now r)
unfolding probe Explained
probe-Told none now r q t = record_verdict-Told true [] now r q refl t
probe-Told (some e) now r q t = record_verdict-Told false e now r q tt t

idle-none : (o : Option (Bool × Text)) → is_some o ≡ false → o ≡ none
idle-none none e = refl
idle-none (some f) e = absurd (cc e)

-- An operation that waits for mu, or goes on.
waits-Told :
    (r v : Relay) → Told r → (r.telling ≡ none → Told v) → Told (if is_some r.telling then r else v)
waits-Told r v t f = elim (Bool-cases (is_some r.telling)) [
  | inl e ↦ rw e t
  | inr e ↦ rw e (f (idle-none r.telling e))
]

deliver-Current : (r : Relay) (fs : List (Bool × Text)) → Current r fs → Current (deliver r) fs
unfolding Current deliver
deliver-Current r [] c = c
deliver-Current r (f ∷ fs) c = c

deliver-Told : (r : Relay) → Told r → Told (deliver r)
unfolding Told deliver told
deliver-Told r (a, x, inl c, h) = (a, x, inl c, h)
deliver-Told r (a, x, inr c, h) = (a, x, inr (deliver-Current r (told r) c), h)

close-Told : (r : Relay) → Told r → Told (close r)
unfolding close Told told
close-Told r (a, x, k, h) = (a, x, inl refl, h)

step-Told : (op : Op) (r : Relay) → Told r → Told (step op r)
unfolding step mark_down mark_broken close Explained
step-Told (asks now d later) r t = waits-Told r _ t (λ q. elim (via_proxy-cases now d later r) [
  | inl e ↦ subst Told (sym e) t
  | inr e ↦ subst Told (sym e) (probe-Told d later r q t)
])
step-Told (downs reason now) r t =
    waits-Told r _ t (λ q. record_verdict-Told false reason now r q tt t)
step-Told (breaks reason now) r t = waits-Told r _ t (λ q.
    record_verdict-Told false reason now (record r { broken_until = now + r.opt.handshake_backoff })
      q tt (same-Told r (now + r.opt.handshake_backoff) t))
step-Told tells r t = deliver-Told r t
step-Told shuts r t = close-Told r t

Told-run : (ops : List Op) (r : Relay) → Told r → Told (run ops r)
unfolding run
Told-run [] r t = t
Told-run (op ∷ ops) r t = Told-run ops (step op r) (step-Told op r t)

-- A relay that was closed with these calls made and this one under way.
After : List (Bool × Text) → Option (Bool × Text) → Relay → Type 0
After flips telling v =
    (v.closed ≡ true)
    × (((v.telling ≡ telling) × (v.flips ≡ flips))
        ⊎ ((v.telling ≡ none) × (v.flips ≡ told_of telling flips)))

delivered :
    (flips : List (Bool × Text)) (telling : Option (Bool × Text)) (r : Relay)
    → After flips telling r
    → After flips telling (deliver r)
unfolding After deliver
delivered flips telling r (c, inl (q, f)) = (c, inr (refl, ap₂ told_of q f))
delivered flips telling r (c, inr (q, f)) = (c, inr (refl, ap₂ told_of q f))

-- After Close no verdict is told but the one that was on its way.
step-After :
    (flips : List (Bool × Text)) (telling : Option (Bool × Text)) (op : Op) (r : Relay)
    → After flips telling r
    → After flips telling (step op r)
unfolding After step via_proxy probe mark_down mark_broken close record_verdict
step-After flips telling (asks now none later) r a = ground (arith, a)
step-After flips telling (asks now (some e) later) r a = ground (arith, a)
step-After flips telling (downs reason now) r a = ground (arith, a)
step-After flips telling (breaks reason now) r a = ground (arith, a)
step-After flips telling tells r a = delivered flips telling r a
step-After flips telling shuts r a = (refl, a.1)

run-After :
    (flips : List (Bool × Text)) (telling : Option (Bool × Text)) (ops : List Op) (r : Relay)
    → After flips telling r
    → After flips telling (run ops r)
unfolding run
run-After flips telling [] r a = a
run-After flips telling (op ∷ ops) r a =
    run-After flips telling ops (step op r) (step-After flips telling op r a)

-- A relay as Start makes it.
abbrev pub IsFresh : Relay → Type 0
IsFresh r = (r.flips ≡ []) × (r.telling ≡ none) × (r.probed ≡ false) × (r.opt.has_on_flip ≡ true)

fresh-Told : (r : Relay) → IsFresh r → Told r
unfolding Told Alternating Current told
fresh-Told r (f, q, p, h) = rw f (rw q (tt, tt, inr p, h))

late_calls :
    (flips : List (Bool × Text)) (telling : Option (Bool × Text)) (v : Relay)
    → After flips telling v
    → (v.flips ≡ flips) ⊎ (v.flips ≡ told_of telling flips)
unfolding After
late_calls flips telling v (c, inl (q, f)) = inl f
late_calls flips telling v (c, inr (q, f)) = inr f

-- OnFlip is told, of a relay that starts afresh and has it set, whatever its connections do in whatever order,
-- of one path and the other in turn, a call for the proxy with no reason; until the relay is closed the last
-- call, made or under way, is the path in force; and once Close has returned nothing more is told,
-- whatever connections still do, but for the one call that was under way when it came.
pub run-Told :
    (r : Relay) (ops more : List Op)
    → IsFresh r
    → Told (run ops r)
      × (((run more (close (run ops r))).flips ≡ (run ops r).flips)
          ⊎ ((run more (close (run ops r))).flips ≡ told (run ops r)))
unfolding close told After
run-Told r ops more f =
    let s = run ops r in
    (
      Told-run ops r (fresh-Told r f),
      late_calls s.flips s.telling (run more (close s))
          (run-After s.flips s.telling more (close s) (refl, inl (refl, refl))),
    )
