-- ===== src/Outbound/Relay.antt =====
-- outbound/outbound.go: Options, Start, and the verdict of Relay: viaProxy, markDown, markBroken,
-- record, Close and the back-off of serve.
use slimproxy.Base.{
  ℕ, ◌+◌, ◌*◌, Bool, true, false, not, ◌&&◌, ◌||◌, Option, none, some, List, [], ◌∷◌, ◌++◌, ltb,
  ◌==◌, if◌then◌else◌,
}
use slimproxy.Text.{Text, codes, text_eq}
use slimproxy.Text.Split.{is_filled}

-- Options, with durations in nanoseconds, and whether OnFlip is set.
pub record Options : Type 0 where
  pub probe_ttl : ℕ
  pub probe_timeout : ℕ
  pub dial_timeout : ℕ
  pub handshake_timeout : ℕ
  pub handshake_backoff : ℕ
  pub has_on_flip : Bool

unfoldable pub or_default : ℕ → ℕ → ℕ
or_default d fallback = if d == 0 then fallback else d

-- withDefaults.
unfoldable pub with_defaults : Options → Options
unfolding or_default
with_defaults o = record {
  probe_ttl = or_default o.probe_ttl 2000000000;
  probe_timeout = or_default o.probe_timeout 250000000;
  dial_timeout = or_default o.dial_timeout 15000000000;
  handshake_timeout = or_default o.handshake_timeout 5000000000;
  handshake_backoff = or_default o.handshake_backoff 30000000000;
  has_on_flip = o.has_on_flip;
}

-- What url.Parse makes of the address of the proxy.
pub record Url : Type 0 where
  pub scheme : Text
  pub host : Text
  pub hostname : Text
  pub port : Text
  pub user : Option (Text × Text)

-- Relay, with the calls of OnFlip that were made so far, the last first. `telling` is the call that record
-- has decided on and not yet made: it makes it before it lets go of mu, and Close, which takes no lock,
-- may come between.
pub record Relay : Type 0 where
  pub target : Text
  pub auth : Text
  pub opt : Options
  pub closed : Bool
  pub probed : Bool
  pub up : Bool
  pub last_probe : ℕ
  pub broken_until : ℕ
  pub flips : List (Bool × Text)
  pub telling : Option (Bool × Text)

-- hostport; net.JoinHostPort of a name without a colon.
unfoldable pub hostport : (Text → Text → Text) → Url → Text
hostport join u = if is_filled u.port then u.host else join u.hostname (codes "80")

basic : (Text → Text) → Option (Text × Text) → Text
basic base64 none = []
basic base64 (some (name, pass)) = codes "Basic " ++ base64 (name ++ (b':' ∷ pass))

-- Start, of which a listener that cannot be bound is the third refusal.
unfoldable pub start :
    (Text → Text → Text) → (Text → Text) → Option Url → Bool → Options → Option Relay
unfolding hostport basic with_defaults
start join base64 none binds opt = none
start join base64 (some u) binds opt =
    if not (text_eq u.scheme (codes "http")) || not binds
    then none
    else some (record {
      target = hostport join u;
      auth = basic base64 u.user;
      opt = with_defaults opt;
      closed = false;
      probed = false;
      up = false;
      last_probe = 0;
      broken_until = 0;
      flips = [];
      telling = none;
    })

unfoldable pub differs : Bool → Bool → Bool
differs true b = not b
differs false b = b

-- record, up to its call of OnFlip.
unfoldable pub record_verdict : Bool → Text → ℕ → Relay → Relay
unfolding differs
record_verdict up reason now r =
    let r' = record r { probed = true; up = up; last_probe = now } in
    if (not r.probed || differs up r.up) && not r.closed && r.opt.has_on_flip
    then record r' { telling = some (up, reason) }
    else r'

-- The calls that were made, and the one that is under way.
unfoldable pub told_of : Option (Bool × Text) → List (Bool × Text) → List (Bool × Text)
told_of none flips = flips
told_of (some f) flips = f ∷ flips

-- record's call of OnFlip, if it makes one.
unfoldable pub deliver : Relay → Relay
unfolding told_of
deliver r = record r { flips = told_of r.telling r.flips; telling = none }

-- What the probe dial of viaProxy returned: an error, or nothing.
unfoldable pub probe : Option Text → ℕ → Relay → Relay
unfolding record_verdict
probe none now r = record_verdict true [] now r
probe (some err) now r = record_verdict false err now r

-- viaProxy: the verdict, and the relay after it. The dial starts at `now` and is recorded `later`.
unfoldable pub via_proxy : ℕ → Option Text → ℕ → Relay → Bool × Relay
unfolding probe
via_proxy now dialled later r =
    if ltb now r.broken_until
    then (false, r)
    else if r.probed && ltb now (r.last_probe + r.opt.probe_ttl)
    then (r.up, r)
    else let r' = probe dialled later r in (r'.up, r')

-- markDown.
unfoldable pub mark_down : Text → ℕ → Relay → Relay
mark_down reason now r = record_verdict false reason now r

-- markBroken.
unfoldable pub mark_broken : Text → ℕ → Relay → Relay
mark_broken reason now r =
    record_verdict false reason now (record r { broken_until = now + r.opt.handshake_backoff })

-- Close.
unfoldable pub close : Relay → Relay
close r = record r { closed = true }

abbrev pub first_delay : ℕ
first_delay = 5000000

abbrev pub last_delay : ℕ
last_delay = 1000000000

-- The delay of serve after a failed Accept.
unfoldable pub next_delay : ℕ → ℕ
next_delay delay =
    if delay == 0 then first_delay else if ltb last_delay (delay * 2) then last_delay else delay * 2

-- What an Accept returned: a connection, an error while the relay is open, or one because it is closed.
pub data Accept : Type 0 where
  accepted failed_open failed_closed : Accept

-- What the loop of serve does: it hands a connection on, or sleeps.
pub data Served : Type 0 where
  handed : Served
  slept : ℕ → Served

-- serve, and whether it returned.
unfoldable pub serve : ℕ → List Accept → List Served × Bool
serve delay [] = ([], false)
serve delay (accepted ∷ more) = let rest = serve 0 more in (handed ∷ rest.0, rest.1)
serve delay (failed_closed ∷ more) = ([], true)
serve delay (failed_open ∷ more) =
    let rest = serve (next_delay delay) more in (slept (next_delay delay) ∷ rest.0, rest.1)
