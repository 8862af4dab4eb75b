-- ===== src/Outbound/Answers.antt =====
-- How Relay of outbound/outbound.go answers a connection.
use slimproxy.Base.{
  ℕ, suc, ◌+◌, ◌<◌, ◌||◌, ltb, ◌≤◌, ◌≡◌, ◌≢◌, refl, ◌⊎◌, inl, inr, Bool, true, false, ◌&&◌, List,
  [], ◌∷◌, ◌++◌, ◌==◌, arith, Bool-cases, if◌then◌else◌,
}
use slimproxy.Text.{Text}
use slimproxy.Outbound.Relay.{Relay, deliver, via_proxy}
use slimproxy.Outbound.Connection.{
  unread, another_method, ill_addressed, connect, Dial, dialled, timed_out, refused_dial, Handshake,
  unwritten, unanswered, answered, Net, Step, responds, closes, splices_proxy, splices_direct,
  probes_proxy, probes, dials_proxy, dials_direct, dial_error, fails, established, retry, direct_on,
  direct, on_handshake, on_dial, chain, take_path, handle,
}

-- One answer, after whatever was dialled, and then the end: 200 and the two sides joined, or another
-- status and the connection closed.
pub data Ends : List Step → Type 0 where
  refused : {code : ℕ} → code ≢ 200 → Ends (responds code ∷ closes ∷ [])
  by_proxy : Ends (responds 200 ∷ splices_proxy ∷ [])
  by_direct : Ends (responds 200 ∷ splices_direct ∷ [])
  after_probe : {steps : List Step} → Ends steps → Ends (probes_proxy ∷ steps)
  after_proxy : {steps : List Step} → Ends steps → Ends (dials_proxy ∷ steps)
  after_direct : {steps : List Step} → Ends steps → Ends (dials_direct ∷ steps)

abbrev pub proxy_dials : List Step → ℕ
proxy_dials [] = 0
proxy_dials (dials_proxy ∷ steps) = suc (proxy_dials steps)
proxy_dials (dials_direct ∷ steps) = proxy_dials steps
proxy_dials (responds _ ∷ steps) = proxy_dials steps
proxy_dials (closes ∷ steps) = proxy_dials steps
proxy_dials (splices_proxy ∷ steps) = proxy_dials steps
proxy_dials (splices_direct ∷ steps) = proxy_dials steps
proxy_dials (probes_proxy ∷ steps) = proxy_dials steps

abbrev pub direct_dials : List Step → ℕ
direct_dials [] = 0
direct_dials (dials_direct ∷ steps) = suc (direct_dials steps)
direct_dials (dials_proxy ∷ steps) = direct_dials steps
direct_dials (responds _ ∷ steps) = direct_dials steps
direct_dials (closes ∷ steps) = direct_dials steps
direct_dials (splices_proxy ∷ steps) = direct_dials steps
direct_dials (splices_direct ∷ steps) = direct_dials steps
direct_dials (probes_proxy ∷ steps) = direct_dials steps

-- The probes of the proxy's port.
abbrev pub proxy_probes : List Step → ℕ
proxy_probes [] = 0
proxy_probes (probes_proxy ∷ steps) = suc (proxy_probes steps)
proxy_probes (dials_proxy ∷ steps) = proxy_probes steps
proxy_probes (dials_direct ∷ steps) = proxy_probes steps
proxy_probes (responds _ ∷ steps) = proxy_probes steps
proxy_probes (closes ∷ steps) = proxy_probes steps
proxy_probes (splices_proxy ∷ steps) = proxy_probes steps
proxy_probes (splices_direct ∷ steps) = proxy_probes steps

unfoldable pub was_quick : Dial → Bool
was_quick dialled = false
was_quick (timed_out _) = false
was_quick (refused_dial _) = true

unfoldable pub has_answered : Handshake → Bool
has_answered (unwritten _) = false
has_answered (unanswered _) = false
has_answered (answered _) = true

unfoldable pub connects : Dial → Bool
connects dialled = true
connects (timed_out _) = false
connects (refused_dial _) = false

-- The proxy spoke HTTP, so its word is the request's.
unfoldable pub proxy_answers : Net → Bool
proxy_answers n = connects n.proxy_dial && has_answered n.handshake

-- What is done for a connection that asked for a host: it ends with one answer; the port of the proxy is
-- probed once at most, and not at all while the back-off lasts; the proxy is dialled for the request once
-- at most and the origin twice at most, a second time only after a failure that was no timeout; and not
-- both where the proxy answered.
unfoldable pub Proper : Net → Relay → List Step → Type 0
Proper n r steps =
    Ends steps
    × (proxy_probes steps ≤ 1)
    × (n.now < r.broken_until → proxy_probes steps ≡ 0)
    × (proxy_dials steps ≤ 1)
    × (direct_dials steps ≤ (if was_quick n.first_dial then 2 else 1))
    × ((proxy_answers n ≡ false) ⊎ ((proxy_dials steps ≡ 0) ⊎ (direct_dials steps ≡ 0)))

-- The same of what follows the probe.
Onward : Net → List Step → Type 0
Onward n steps =
    Ends steps
    × (proxy_probes steps ≡ 0)
    × (proxy_dials steps ≤ 1)
    × (direct_dials steps ≤ (if was_quick n.first_dial then 2 else 1))
    × ((proxy_answers n ≡ false) ⊎ ((proxy_dials steps ≡ 0) ⊎ (direct_dials steps ≡ 0)))

-- The direct path.
IsDirect : Bool → List Step → Type 0
IsDirect quick steps =
    Ends steps
    × (proxy_probes steps ≡ 0)
    × (proxy_dials steps ≡ 0)
    × (direct_dials steps ≤ (if quick then 2 else 1))

not_ok : ◌≢◌ {A = ℕ} 502 200
not_ok = ground arith

direct_on-IsDirect : (first second : Dial) → IsDirect (was_quick first) (direct_on first second)
unfolding direct_on IsDirect retry fails established was_quick
direct_on-IsDirect dialled second = (after_direct by_direct, refl, refl, omega arith)
direct_on-IsDirect (timed_out e) second = (after_direct (refused not_ok), refl, refl, omega arith)
direct_on-IsDirect (refused_dial e) dialled =
    (after_direct (after_direct by_direct), refl, refl, omega arith)
direct_on-IsDirect (refused_dial e) (timed_out f) =
    (after_direct (after_direct (refused not_ok)), refl, refl, omega arith)
direct_on-IsDirect (refused_dial e) (refused_dial f) =
    (after_direct (after_direct (refused not_ok)), refl, refl, omega arith)

-- What chain comes to: the proxy answered and the connection has ended, or nothing was said.
Chained : Bool → Bool × List Step × Relay → Type 0
Chained answers (dealt, steps, r) =
    ((dealt ≡ true)
      × Ends steps
      × (proxy_probes steps ≡ 0)
      × (proxy_dials steps ≡ 0)
      × (direct_dials steps ≡ 0))
    ⊎ ((dealt ≡ false) × (steps ≡ []) × (answers ≡ false))

on_handshake-Chained :
    (target : Text) (h : Handshake) (now : ℕ) (r : Relay)
    → Chained (has_answered h) (on_handshake target h now r)
unfolding on_handshake Chained has_answered established
on_handshake-Chained target (unwritten e) now r = inr (refl, refl, refl)
on_handshake-Chained target (unanswered e) now r = inr (refl, refl, refl)
on_handshake-Chained target (answered code) now r = elim (Bool-cases (code == 200)) [
  | inl e ↦ inl (rw e (refl, by_proxy, refl, refl, refl))
  | inr e ↦ inl (rw e (refl, refused (ground (arith, e)), refl, refl, refl))
]

not_dialled_Chained : (steps : List Step) (r : Relay) → steps ≡ [] → Chained false (false, steps, r)
unfolding Chained
not_dialled_Chained steps r e = inr (refl, e, refl)

on_dial-Chained :
    (target : Text) (d : Dial) (n : Net) (r : Relay)
    → Chained (connects d && has_answered n.handshake) (on_dial target (dial_error d) n r)
unfolding on_dial dial_error connects
on_dial-Chained target dialled n r = on_handshake-Chained target n.handshake n.marked_at r
on_dial-Chained target (timed_out e) n r = not_dialled_Chained [] _ refl
on_dial-Chained target (refused_dial e) n r = not_dialled_Chained [] _ refl

-- The path taken.
direct-IsDirect : (n : Net) → IsDirect (was_quick n.first_dial) (direct n)
unfolding direct
direct-IsDirect n = direct_on-IsDirect n.first_dial n.second_dial

path_taken :
    (n : Net) (c : Bool × List Step × Relay)
    → Chained (proxy_answers n) c
    → Onward n (if c.0 then dials_proxy ∷ c.1 else (dials_proxy ∷ c.1) ++ direct n)
unfolding Chained Onward IsDirect
path_taken n (dealt, steps, r) (inl (d, e, b, p, q)) =
    rw d (after_proxy e, b, omega (arith, p), ground (arith, q), inr (inr q))
path_taken n (dealt, steps, r) (inr (d, s, a)) =
    let (e, b, p, q) = direct-IsDirect n in
    rw d (rw s (after_proxy e, b, omega (arith, p), q, inl a))

chained :
    (n : Net) (r : Relay)
    → Chained (proxy_answers n) (on_dial r.target (dial_error n.proxy_dial) n r)
unfolding proxy_answers
chained n r = on_dial-Chained r.target n.proxy_dial n r

take_path-Onward : (n : Net) (via : Bool × Relay) → Onward n (take_path n via).0
unfolding take_path chain Onward IsDirect
take_path-Onward n (false, r) =
    let (e, b, p, q) = direct-IsDirect n in (e, b, omega (arith, p), q, inr (inl p))
take_path-Onward n (true, r) =
    path_taken n (on_dial r.target (dial_error n.proxy_dial) n r) (chained n r)

probes-Proper :
    (n : Net) (r : Relay) (steps : List Step)
    → Onward n steps
    → Proper n r (probes n.now r ++ steps)
unfolding Onward Proper probes
probes-Proper n r steps (e, b, p, q, o) =
    elim (Bool-cases
      (ltb n.now r.broken_until || (r.probed && ltb n.now (r.last_probe + r.opt.probe_ttl)))) [
        | inl y ↦ rw y (e, omega (arith, b), (λ _. b), p, q, o)
        | inr f ↦ rw f (after_probe e, omega (arith, b), (λ held. ground (arith, held, f)), p, q, o)
      ]

-- A connection of which no request could be read is closed without a word, and one that asks for
-- anything but a CONNECT to a host and a port is refused without a dial. Every other gets one
-- answer, 200 with the two sides joined or another status and its end: the proxy's port is probed once at
-- most, and not while the back-off lasts; the proxy is dialled for the request once at most, the
-- origin twice at most, a second time only after a failure that was no timeout, and a proxy that
-- answered the CONNECT, whatever it answered, is never gone around.
pub handle_lem :
    (n : Net) (r : Relay) (host : Text)
    → ((handle unread n r).0 ≡ closes ∷ [])
      × ((handle another_method n r).0 ≡ responds 501 ∷ closes ∷ [])
      × ((handle ill_addressed n r).0 ≡ responds 400 ∷ closes ∷ [])
      × Proper n r (handle (connect host) n r).0
unfolding handle
handle_lem n r host =
    let via = via_proxy n.now n.probe_dial n.probed_at r in
    let path : Bool × Relay = (via.0, deliver via.1) in
    (refl, refl, refl, probes-Proper n r (take_path n path).0 (take_path-Onward n path))
