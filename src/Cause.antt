-- ===== src/Cause.antt =====
-- metrics/cause.go: why a request failed, read off its status and its error text.
use slimproxy.Base.{ℕ, Bool, true, false, List, [], ◌∷◌, ltb, if◌then◌else◌, any}
use slimproxy.Text.{Text, codes, trim_space, to_lower, contains}

-- `Cause`, a string in the source; `healthy` is the empty one, CauseNone.
pub data Cause : Type 0 where
  healthy dns connect tls timeout canceled upstream other : Cause

pub Cause-discrete : Discrete Cause
Cause-discrete = hlevel

-- TransportCauses: the causes that come from an error text.
abbrev pub transport_causes : List Cause
transport_causes = dns ∷ connect ∷ tls ∷ timeout ∷ canceled ∷ []

-- containsAny.
unfoldable pub contains_any : Text → List Text → Bool
unfolding contains
contains_any s subs = any (λ sub. contains s sub) subs

abbrev pub dns_words : List Text
dns_words = codes "no such host" ∷ codes "lookup " ∷ codes "dns" ∷ []

abbrev pub tls_words : List Text
tls_words = codes "tls" ∷ codes "certificate" ∷ codes "x509" ∷ []

abbrev pub canceled_words : List Text
canceled_words =
    codes "context canceled" ∷ codes "context cancelled" ∷ codes "client disconnected" ∷ []

abbrev pub timeout_words : List Text
timeout_words = codes "timeout" ∷ codes "timed out" ∷ codes "deadline exceeded" ∷ []

abbrev pub connect_words : List Text
connect_words =
    codes "refused"
    ∷ codes "connectex"
    ∷ codes "dial "
    ∷ codes "connect:"
    ∷ codes "unreachable"
    ∷ codes "reset by peer"
    ∷ codes "broken pipe"
    ∷ codes "eof"
    ∷ codes "no route to host"
    ∷ []

abbrev is_empty : Text → Bool
is_empty [] = true
is_empty (c ∷ s) = false

-- The switch of CauseFromText, on the text trimmed and in lower case.
unfoldable pub cause_of_lowered : Text → Cause
cause_of_lowered s =
    if is_empty s
    then other
    else if contains_any s dns_words
    then dns
    else if contains_any s tls_words
    then tls
    else if contains_any s canceled_words
    then canceled
    else if contains_any s timeout_words
    then timeout
    else if contains_any s connect_words
    then connect
    else other

-- CauseFromText.
unfoldable pub cause_from_text : Text → Cause
unfolding cause_of_lowered
cause_from_text text = cause_of_lowered (to_lower (trim_space text))

-- CauseFrom. A status is a number above zero exactly when the upstream answered.
unfoldable pub cause_from : ℕ → Text → Cause
cause_from status text = if ltb 0 status then upstream else cause_from_text text
