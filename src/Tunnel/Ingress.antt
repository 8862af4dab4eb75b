-- ===== src/Tunnel/Ingress.antt =====
-- tunnel/config.go: parseConfig and validTunnelID.
use slimproxy.Base.{
  ℕ, Bool, true, false, not, ◌&&◌, ◌||◌, List, [], ◌∷◌, ◌++◌, Option, none, some, leb, ◌==◌,
  if◌then◌else◌,
}
use slimproxy.Text.{Text, codes, text_eq, has_prefix, trim_space}
use slimproxy.Text.Split.{is_filled}
use slimproxy.Tunnel.World.{ConfigRead, ill_formed, config}

pub record Rule : Type 0 where
  pub hostname : Text
  pub service : Text

-- What yaml.Unmarshal makes of the file.
pub record Doc : Type 0 where
  pub tunnel : Text
  pub ingress : List Rule

unfoldable pub is_alnum : ℕ → Bool
is_alnum c = (leb b'A' c && leb c b'Z') || (leb b'a' c && leb c b'z') || (leb b'0' c && leb c b'9')

all_name : Text → Bool
unfolding is_alnum
all_name [] = true
all_name (c ∷ s) = (is_alnum c || c == b'.' || c == b'_' || c == b'-') && all_name s

-- tunnelIDPattern.
unfoldable pub matches_pattern : Text → Bool
unfolding is_alnum all_name
matches_pattern [] = false
matches_pattern (c ∷ s) = is_alnum c && all_name s

-- validTunnelID.
unfoldable pub valid_tunnel_id : Text → Bool
unfolding matches_pattern
valid_tunnel_id s = matches_pattern (trim_space s)

-- A hostname is on a list.
unfoldable pub has : Text → List Text → Bool
has h [] = false
has h (x ∷ xs) = text_eq x h || has h xs

-- A rule that names a hostname and sends it to an origin.
unfoldable pub routes : Rule → Bool
routes r =
    is_filled r.hostname
    && (has_prefix r.service (codes "http://") || has_prefix r.service (codes "https://"))

-- The loop over the rules; what it has seen is what it has put out.
unfoldable pub collect : List Text → List Rule → List Text
unfolding routes has
collect out [] = out
collect out (r ∷ rules) =
    collect (if routes r && not (has r.hostname out) then out ++ (r.hostname ∷ []) else out) rules

-- parseConfig, on what yaml.Unmarshal returned.
unfoldable pub parse_config : Text → Option Doc → ConfigRead
unfolding valid_tunnel_id collect
parse_config path none = ill_formed
parse_config path (some doc) =
    if not (is_filled (trim_space doc.tunnel))
    then ill_formed
    else if not (valid_tunnel_id doc.tunnel)
    then ill_formed
    else config (record { tunnel = doc.tunnel; hostnames = collect [] doc.ingress; path = path })
