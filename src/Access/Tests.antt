-- ===== src/Access/Tests.antt =====
-- The theorem of proxy/access.go at a concrete request.
use slimproxy.Base.{Bool, true, Option, none, some, [], ◌∷◌}
use slimproxy.Text.{Text, codes}
use slimproxy.Access.{Request}

-- No port, and every address is this machine's.
abbrev no_port : Text → Option Text
no_port addr = none

abbrev all_here : Text → Option Bool
all_here host = some true

abbrev probe : Request
probe = record {
  remote_addr = codes "127.0.0.1";
  header = (codes "Cf-Connecting-Ip", codes "203.0.113.9" ∷ []) ∷ [];
  method = codes "GET";
  path = codes "/api/hello";
}
