-- ===== src/Tunnel/Info.antt =====
-- tunnel/connectivity.go: ParseTunnelInfo, countEdgeConnections and findFakeIP.
use slimproxy.Base.{
  ℕ, suc, ◌+◌, Bool, true, false, not, ◌&&◌, ◌||◌, List, [], ◌∷◌, ◌++◌, Option, none, some, leb,
  length, ◌==◌, if◌then◌else◌,
}
use slimproxy.Text.{Text, codes, contains, byte_len, trim_space}
use slimproxy.Text.Split.{split, fields, fields_by, cut}
use slimproxy.Envelope.Itoa.{value_from}
use slimproxy.Tunnel.World.{Connectivity}
use slimproxy.Tunnel.Startup.{names_fake}

unfoldable pub is_decimal : ℕ → Bool
is_decimal c = leb b'0' c && leb c b'9'

unfoldable pub is_lower : ℕ → Bool
is_lower c = leb b'a' c && leb c b'z'

unfoldable pub digits : Text → Bool
unfolding is_decimal
digits [] = true
digits (c ∷ s) = is_decimal c && digits s

-- The largest int.
abbrev pub max_int : ℕ
max_int = 9223372036854775807

-- strconv.Atoi of a text that starts with a digit.
unfoldable pub atoi : Text → Option ℕ
unfolding digits
atoi s = if digits s && leb (value_from 0 s) max_int then some (value_from 0 s) else none

-- The name of a data centre: three lower-case letters and a number.
unfoldable pub is_colo : Text → Bool
unfolding is_lower digits is_decimal
is_colo (a ∷ b ∷ c ∷ d ∷ s) = is_lower a && is_lower b && is_lower c && is_decimal d && digits s
is_colo _ = false

unfoldable pub count_if : Bool → Option ℕ → Option ℕ
count_if true n = n
count_if false n = none

unfoldable pub count_parts : Option (Text × Text) → Option ℕ
unfolding atoi is_colo count_if
count_parts none = none
count_parts (some (prefix, suffix)) = count_if (is_colo suffix) (atoi prefix)

-- The connections of one entry of the EDGE column.
unfoldable pub count_entry : Text → Option ℕ
unfolding count_parts is_colo count_if
count_entry [] = none
count_entry (c ∷ s) =
    if is_decimal c then count_parts (cut b'x' (c ∷ s)) else count_if (is_colo (c ∷ s)) (some 1)

unfoldable pub plus : Option ℕ → Option ℕ → Option ℕ
plus (some m) (some n) = some (m + n)
plus _ _ = none

unfoldable pub count_entries : List Text → Option ℕ
unfolding count_entry plus
count_entries [] = some 0
count_entries (e ∷ es) = plus (count_entry e) (count_entries es)

-- countEdgeConnections.
unfoldable pub count_edge_connections : Text → Option ℕ
unfolding count_entries
count_edge_connections edge = count_entries (split b',' edge)

dashes : Text → ℕ
dashes [] = 0
dashes (c ∷ s) = let n = dashes s in if c == b'-' then suc n else n

join_all : List Text → Text
join_all [] = []
join_all (t ∷ ts) = t ++ join_all ts

-- The fields of a line that is a connector's row, from the sixth on, if it has so many.
pub data Row : Type 0 where
  other short : Row
  edge_column : Text → Row

row_of : List Text → Row
unfolding join_all
row_of (a ∷ b ∷ c ∷ d ∷ e ∷ f ∷ rest) = edge_column (f ++ join_all rest)
row_of _ = short

row_if : List Text → Row
unfolding row_of dashes
row_if [] = other
row_if (a ∷ rest) =
    if leb 4 (length (a ∷ rest)) && byte_len a == 36 && dashes a == 4
    then row_of (a ∷ rest)
    else other

count_row : Row → Option ℕ
count_row other = some 0
count_row short = none
count_row (edge_column edge) = count_edge_connections edge

count_rows : List Text → Option ℕ
unfolding row_if count_row
count_rows [] = some 0
count_rows (line ∷ lines) = plus (count_row (row_if (fields line))) (count_rows lines)

module _ (to4 : Text → Option (ℕ × ℕ × ℕ × ℕ)) where
  first_fake : List Text → Text
  first_fake [] = []
  first_fake (f ∷ fs) =
      let rest = first_fake fs in if names_fake to4 (trim_space f) then f else rest

  -- findFakeIP.
  unfoldable pub find_fake_ip : Text → Text
  unfolding first_fake
  find_fake_ip text =
      first_fake (fields_by (λ c. c == b' ' || c == 9 || c == 10 || c == 13 || c == b',') text)

  table : Option ℕ → Text → Connectivity
  table none ip = record { count = 0; is_parsed = false; idle = false; fake_ip = [] }
  table (some n) ip = record { count = n; is_parsed = true; idle = false; fake_ip = ip }

  -- ParseTunnelInfo.
  unfoldable pub parse_tunnel_info : Text → Connectivity
  unfolding table count_rows find_fake_ip
  parse_tunnel_info text =
      if contains text (codes "does not have any active connection")
      then record { count = 0; is_parsed = true; idle = true; fake_ip = [] }
      else if not (contains text (codes "CONNECTOR ID"))
      then table none []
      else table (count_rows (split b'\n' text)) (find_fake_ip text)
