-- ===== src/Envelope/Message.antt =====
-- proxy/errorenvelope.go: which failure messages may be shown, and the fixed lines that stand in
-- for the others.
use slimproxy.Base.{
  ℕ, zero, suc, ◌-◌, Bool, true, false, not, ◌&&◌, ◌||◌, [], ◌∷◌, ltb, leb, ◌==◌, if◌then◌else◌,
}
use slimproxy.Text.{Text, codes, trim_space, contains, contains_any_of, byte_len}
use slimproxy.Cause.{
  Cause, healthy, dns, connect, tls, timeout, canceled, upstream, other, cause_from_text,
}

abbrev is_digit : ℕ → Bool
is_digit c = leb b'0' c && leb c b'9'

abbrev is_letter : ℕ → Bool
is_letter c = (leb b'a' c && leb c b'z') || (leb b'A' c && leb c b'Z')

-- What the regular expression `\b` calls a word character.
abbrev is_word : ℕ → Bool
is_word c = is_digit c || is_letter c || (c == b'_')

abbrev starts_word : Text → Bool
starts_word [] = false
starts_word (c ∷ s) = is_word c

-- Between `lo` and `hi` digits and no more of them, then what `next` accepts.
digits_then : ℕ → ℕ → (Text → Bool) → Text → Bool
digits_then lo hi next [] = (lo == 0) && next []
digits_then lo zero next (c ∷ s) = not (is_digit c) && (lo == 0) && next (c ∷ s)
digits_then lo (suc hi) next (c ∷ s) =
    let more = digits_then (lo - 1) hi next s in
    if is_digit c then more else (lo == 0) && next (c ∷ s)

abbrev dot_then : (Text → Bool) → Text → Bool
dot_then next [] = false
dot_then next (c ∷ s) = (c == b'.') && next s

abbrev no_word : Text → Bool
no_word s = not (starts_word s)

-- ipLiteral from a position on: four groups of one to three digits.
quad_here : Text → Bool
unfolding digits_then
quad_here =
    digits_then 1 3
      (dot_then (digits_then 1 3 (dot_then (digits_then 1 3 (dot_then (digits_then 1 3 no_word))))))

abbrev is_host : ℕ → Bool
is_host c = is_letter c || is_digit c || (c == b'.') || (c == b'-')

-- hostPort from a position on: host characters, of which `seen` says that one is past, then a colon
-- and two to five digits.
host_port_here : Bool → Text → Bool
unfolding digits_then
host_port_here seen [] = false
host_port_here seen (c ∷ s) =
    let more = host_port_here true s in
    if is_host c then more else seen && (c == b':') && digits_then 2 5 no_word s

-- A match somewhere in the text at a word boundary; `inside` says that the character before was a
-- word character.
match_at_boundary : (Text → Bool) → Bool → Text → Bool
match_at_boundary here inside [] = false
match_at_boundary here inside (c ∷ s) =
    ((if inside then not (is_word c) else is_word c) && here (c ∷ s))
    || match_at_boundary here (is_word c) s

abbrev all_printable : Text → Bool
all_printable [] = true
all_printable (r ∷ s) = not (ltb r 0x20 || ltb 0x7e r) && all_printable s

abbrev is_empty : Text → Bool
is_empty [] = true
is_empty (c ∷ s) = false

-- The checks of safeMessage, on the trimmed message.
safe_trimmed : Text → Bool
unfolding match_at_boundary quad_here host_port_here byte_len contains contains_any_of
safe_trimmed msg =
    if is_empty msg || ltb 200 (byte_len msg)
    then false
    else if match_at_boundary quad_here false msg
        || match_at_boundary (host_port_here false) false msg
    then false
    else if contains_any_of msg (codes "\\") || contains msg (codes "://")
    then false
    else all_printable msg

-- safeMessage.
unfoldable pub safe_message : Text → Bool
unfolding safe_trimmed trim_space
safe_message msg = safe_trimmed (trim_space msg)

-- errorTypeFor.
unfoldable pub error_type_for : ℕ → Text
error_type_for status =
    if status == 401
    then codes "authentication_error"
    else if status == 403
    then codes "permission_error"
    else if status == 404
    then codes "not_found_error"
    else if status == 429
    then codes "rate_limit_error"
    else codes "api_error"

-- The second switch of classifyFailure, on the status alone.
line_for_status : ℕ → Text
line_for_status status =
    if status == 401
    then codes "authentication failed"
    else if status == 403
    then codes "permission denied"
    else if status == 404
    then codes "not found"
    else if status == 429
    then codes "rate limited"
    else if (status == 502) || (status == 503)
    then codes "upstream unavailable"
    else codes "upstream request failed"

-- The first switch of classifyFailure, on the cause; what it leaves goes to the second.
unfoldable pub line_for : Cause → ℕ → Text
unfolding line_for_status
line_for dns status = codes "upstream unreachable: dns resolution failed"
line_for tls status = codes "upstream unreachable: tls handshake failed"
line_for timeout status = codes "upstream timeout"
line_for canceled status = codes "request canceled"
line_for connect status = codes "upstream unreachable: connection failed"
line_for healthy status = line_for_status status
line_for upstream status = line_for_status status
line_for other status = line_for_status status

-- classifyFailure.
unfoldable pub classify_failure : ℕ → Text → Text
unfolding line_for
classify_failure status original = line_for (cause_from_text original) status
