-- ===== src/Tunnel/Fields.antt =====
-- tunnel/connectivity.go: logField and logValue, which read one field of a line of cloudflared's log.
use slimproxy.Base.{
  ℕ, Bool, true, false, not, ◌&&◌, ◌||◌, [], ◌∷◌, ◌++◌, none, some, drop, length, ◌==◌,
  if◌then◌else◌,
}
use slimproxy.Text.{Text, codes, has_prefix, trim_space}
use slimproxy.Text.Split.{cut, before}

unfoldable pub is_blank : ℕ → Bool
is_blank c = c == b' ' || c == 9

-- logValue.
unfoldable pub log_value : Text → Text
unfolding is_blank
log_value [] = []
log_value (c ∷ s) =
    if c == b'"'
    then elim (cut b'"' s) [ none ↦ trim_space s | some (value, _) ↦ value ]
    else before is_blank (c ∷ s)

-- The loop of logField: whether a quote is open, and whether the rune before is a boundary of fields.
unfoldable pub field_from : Text → Bool → Bool → Text → Text
unfolding is_blank log_value
field_from pat quoted boundary [] = []
field_from pat quoted boundary (c ∷ s) =
    let rest = field_from pat (if c == b'"' then not quoted else quoted) (is_blank c) s in
    if not (c == b'"') && not quoted && boundary && has_prefix (c ∷ s) pat
    then log_value (drop (length pat) (c ∷ s))
    else rest

-- logField.
unfoldable pub log_field : Text → Text → Text
unfolding field_from
log_field line key = field_from (key ++ codes "=") false true line
