-- ===== src/Outbound/Tests.antt =====
-- The theorems of outbound/ at a concrete relay and network.
use slimproxy.Outbound.Connection.{chain, dial_error, direct, probes}
use slimproxy.Outbound.Relay.{via_proxy}
use slimproxy.Base.{◌≡◌, ◌⊎◌, refl, arith, true, false, none, List, [], ◌∷◌, All}
use slimproxy.Text.{codes}
use slimproxy.Outbound.Relay.{Relay, close, mark_broken, deliver, probe, record_verdict}
use slimproxy.Outbound.Connection.{
  unread, another_method, ill_addressed, connect, refused_dial, dialled, unanswered, Net, responds,
  closes, probes_proxy, dials_proxy, dials_direct, splices_direct, handle,
}
use slimproxy.Outbound.Verdicts.{Op, asks, breaks, tells, step, run, told, Told, run-Told}
use slimproxy.Outbound.Holds.{Within, answers, mark_broken-holds}
use slimproxy.Outbound.Answers.{Proper, handle_lem}

abbrev relay : Relay
relay = record {
  target = codes "127.0.0.1:7897";
  auth = [];
  opt = record {
    probe_ttl = 2;
    probe_timeout = 1;
    dial_timeout = 15;
    handshake_timeout = 5;
    handshake_backoff = 30;
    has_on_flip = true;
  };
  closed = false;
  probed = false;
  up = false;
  last_probe = 0;
  broken_until = 0;
  flips = [];
  telling = none;
}

-- A port that listens and does not speak HTTP, and an origin that answers the second dial.
abbrev mute : Net
mute = record {
  probe_dial = none;
  proxy_dial = dialled;
  handshake = unanswered (codes "EOF");
  first_dial = refused_dial (codes "reset");
  second_dial = dialled;
  now = 10;
  probed_at = 10;
  marked_at = 15;
}

goes_direct :
    (handle (connect (codes "h:443")) mute relay).0
    ≡ probes_proxy ∷ dials_proxy ∷ dials_direct ∷ dials_direct ∷ responds 200 ∷ splices_direct ∷ []
unfolding handle via_proxy chain dial_error direct probes
goes_direct = refl

handle_lem_example :
    ((handle unread mute relay).0 ≡ closes ∷ [])
    × ((handle another_method mute relay).0 ≡ responds 501 ∷ closes ∷ [])
    × ((handle ill_addressed mute relay).0 ≡ responds 400 ∷ closes ∷ [])
    × Proper mute relay (handle (connect (codes "h:443")) mute relay).0
handle_lem_example = handle_lem mute relay (codes "h:443")

abbrev traffic : List Op
traffic =
    asks 10 none 10
    ∷ tells
    ∷ breaks (codes "EOF") 15
    ∷ tells
    ∷ asks 20 none 20
    ∷ asks 50 none 50
    ∷ []

-- Close comes while the second flip is on its way, and its call is made all the same.
late_call :
    (run (tells ∷ []) (close (run traffic relay))).flips
    ≡ (true, []) ∷ (false, codes "EOF") ∷ (true, []) ∷ []
unfolding run step via_proxy probe mark_broken close deliver record_verdict
late_call = refl

run-Told_example :
    Told (run traffic relay)
    × (((run traffic (close (run traffic relay))).flips ≡ (run traffic relay).flips)
        ⊎ ((run traffic (close (run traffic relay))).flips ≡ told (run traffic relay)))
run-Told_example = run-Told relay traffic traffic (refl, refl, refl, refl)

abbrev meanwhile : List Op
meanwhile = asks 20 none 20 ∷ breaks (codes "EOF") 25 ∷ tells ∷ asks 30 none 30 ∷ []

mark_broken-holds_example :
    All
      (λ verdict. verdict ≡ false)
      (answers meanwhile (deliver (mark_broken (codes "EOF") 15 relay)))
unfolding Within
mark_broken-holds_example =
    mark_broken-holds (codes "EOF") 15 meanwhile relay
      (omega arith, (omega arith, (tt, (omega arith, tt))))
