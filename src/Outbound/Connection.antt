-- ===== src/Outbound/Connection.antt =====
-- outbound/outbound.go: what Relay does with one connection: handle, chain, direct and respond.
use slimproxy.Base.{
  ℕ, Bool, true, false, not, Option, none, some, List, [], ◌∷◌, ◌++◌, ◌==◌, if◌then◌else◌, ◌+◌,
  ◌&&◌, ◌||◌, ltb,
}
use slimproxy.Text.{Text, codes}
use slimproxy.Text.Split.{is_filled}
use slimproxy.Outbound.Relay.{Relay, deliver, via_proxy, mark_down, mark_broken}

-- What is read of the client: no request, or a request with its method and host.
pub data Asked : Type 0 where
  unread : Asked
  another_method : Asked
  ill_addressed : Asked
  connect : Text → Asked

-- What a dial returned: a connection, a timeout, or another error with its text.
pub data Dial : Type 0 where
  dialled : Dial
  timed_out : Text → Dial
  refused_dial : Text → Dial

-- What the proxy made of CONNECT: the write failed, the answer could not be read, or its status.
pub data Handshake : Type 0 where
  unwritten unanswered : Text → Handshake
  answered : ℕ → Handshake

-- What the network does with one connection, and when.
pub record Net : Type 0 where
  pub probe_dial : Option Text
  pub proxy_dial : Dial
  pub handshake : Handshake
  pub first_dial : Dial
  pub second_dial : Dial
  pub now : ℕ
  pub probed_at : ℕ
  pub marked_at : ℕ

-- What is done to the client's connection and dialled for it: viaProxy's probe of the proxy's port, chain's
-- dial of the proxy and direct's of the origin among them.
pub data Step : Type 0 where
  responds : ℕ → Step
  closes : Step
  splices_proxy splices_direct : Step
  probes_proxy dials_proxy dials_direct : Step

unfoldable pub dial_error : Dial → Option Text
dial_error dialled = none
dial_error (timed_out e) = some e
dial_error (refused_dial e) = some e

-- A dial of the origin that failed for good.
unfoldable pub fails : List Step
fails = responds 502 ∷ closes ∷ []

unfoldable pub established : Step → List Step
established splice = responds 200 ∷ splice ∷ []

unfoldable pub retry : Dial → List Step
unfolding fails established
retry dialled = dials_direct ∷ established splices_direct
retry (timed_out e) = dials_direct ∷ fails
retry (refused_dial e) = dials_direct ∷ fails

unfoldable pub direct_on : Dial → Dial → List Step
unfolding retry fails established
direct_on dialled second = dials_direct ∷ established splices_direct
direct_on (timed_out e) second = dials_direct ∷ fails
direct_on (refused_dial e) second = dials_direct ∷ retry second

-- direct: one retry, and only after a failure that was no timeout.
unfoldable pub direct : Net → List Step
unfolding direct_on
direct n = direct_on n.first_dial n.second_dial

-- The CONNECT that is written to the proxy.
unfoldable pub connect_text : Text → Text → Text
connect_text auth host =
    codes "CONNECT "
    ++ host
    ++ codes " HTTP/1.1\r\nHost: "
    ++ host
    ++ codes "\r\n"
    ++ (if is_filled auth then codes "Proxy-Authorization: " ++ auth ++ codes "\r\n" else [])
    ++ codes "\r\n"

unfoldable pub on_handshake : Text → Handshake → ℕ → Relay → Bool × List Step × Relay
unfolding established
on_handshake target (unwritten e) now r = (
  false,
  [],
  deliver (mark_broken (codes "CONNECT write to " ++ target ++ codes ": " ++ e) now r),
)
on_handshake target (unanswered e) now r = (
  false,
  [],
  deliver (mark_broken (codes "CONNECT handshake with " ++ target ++ codes ": " ++ e) now r),
)
on_handshake target (answered code) now r =
    if not (code == 200)
    then (true, responds code ∷ closes ∷ [], r)
    else (true, established splices_proxy, r)

unfoldable pub on_dial : Text → Option Text → Net → Relay → Bool × List Step × Relay
unfolding on_handshake
on_dial target (some e) n r =
    (false, [], deliver (mark_down (codes "dial " ++ target ++ codes ": " ++ e) n.marked_at r))
on_dial target none n r = on_handshake target n.handshake n.marked_at r

-- chain: whether the connection is dealt with.
unfoldable pub chain : Net → Relay → Bool × List Step × Relay
unfolding on_dial
chain n r = let c = on_dial r.target (dial_error n.proxy_dial) n r in (c.0, dials_proxy ∷ c.1, c.2)

-- The dial of viaProxy, where neither the back-off nor a verdict that is still fresh answers for it.
unfoldable pub probes : ℕ → Relay → List Step
probes now r =
    if ltb now r.broken_until || (r.probed && ltb now (r.last_probe + r.opt.probe_ttl))
    then []
    else probes_proxy ∷ []

-- handle after viaProxy.
unfoldable pub take_path : Net → Bool × Relay → List Step × Relay
take_path n (false, r) = (direct n, r)
take_path n (true, r) = let c = chain n r in (if c.0 then c.1 else c.1 ++ direct n, c.2)

-- handle.
unfoldable pub handle : Asked → Net → Relay → List Step × Relay
unfolding take_path probes
handle unread n r = (closes ∷ [], r)
handle another_method n r = (responds 501 ∷ closes ∷ [], r)
handle ill_addressed n r = (responds 400 ∷ closes ∷ [], r)
handle (connect host) n r =
    let via = via_proxy n.now n.probe_dial n.probed_at r in
    let taken = take_path n (via.0, deliver via.1) in (probes n.now r ++ taken.0, taken.1)
