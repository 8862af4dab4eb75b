-- ===== src/Wire.antt =====
-- What the response writers of proxy/ do to the writer underneath them, as a list of calls, and the
-- header map of net/http.
use slimproxy.Base.{
  ℕ, ◌≡◌, refl, sym, ap, ◌∙◌, append_assoc, append-nil, List, [], ◌∷◌, ◌++◌, Option, none, some,
  if◌then◌else◌, arith,
}
use slimproxy.Text.{Text, text_eq, text_eq_refl, text_eq_sound}

-- WriteHeader, Write and Flush.
pub data Call : Type 0 where
  status : ℕ → Call
  bytes : Text → Call
  flush : Call

-- The statuses and the bytes of a list of calls.
abbrev pub statuses : List Call → List ℕ
statuses [] = []
statuses (status c ∷ cs) = c ∷ statuses cs
statuses (bytes b ∷ cs) = statuses cs
statuses (flush ∷ cs) = statuses cs

abbrev pub payload : List Call → Text
payload [] = []
payload (status c ∷ cs) = payload cs
payload (bytes b ∷ cs) = b ++ payload cs
payload (flush ∷ cs) = payload cs

-- http.Header, with its keys in canonical form.
abbrev pub Header : Type 0
Header = List (Text × List Text)

unfoldable pub lookup : Text → Header → Option (List Text)
unfolding text_eq
lookup k [] = none
lookup k ((j, vs) ∷ h) = if text_eq j k then some vs else lookup k h

-- Assignment to a key of the map.
unfoldable pub put : Text → List Text → Header → Header
unfolding text_eq
put k vs [] = (k, vs) ∷ []
put k vs ((j, ws) ∷ h) = if text_eq j k then (k, vs) ∷ h else (j, ws) ∷ put k vs h

-- delete.
unfoldable pub remove : Text → Header → Header
unfolding text_eq
remove k [] = []
remove k ((j, ws) ∷ h) = if text_eq j k then remove k h else (j, ws) ∷ remove k h

-- Set: one value in place of all.
unfoldable pub set_header : Text → Text → Header → Header
unfolding put
set_header k v h = put k (v ∷ []) h

abbrev first_value : Option (List Text) → Text
first_value none = []
first_value (some []) = []
first_value (some (v ∷ vs)) = v

-- Get: the first value, or the empty text.
unfoldable pub get_header : Text → Header → Text
unfolding lookup
get_header k h = first_value (lookup k h)

pub lookup-put :
    (k j : Text) (vs : List Text) (h : Header)
    → lookup j (put k vs h) ≡ (if text_eq k j then some vs else lookup j h)
unfolding lookup put
lookup-put k j vs [] = refl
lookup-put k j vs ((i, ws) ∷ h) = ground (
  arith,
  text_eq_sound i k,
  text_eq_sound i j,
  text_eq_sound k j,
  text_eq_refl i,
  lookup-put k j vs h,
)

pub lookup-remove :
    (k j : Text) (h : Header) → lookup j (remove k h) ≡ (if text_eq k j then none else lookup j h)
unfolding lookup remove
lookup-remove k j [] = ground arith
lookup-remove k j ((i, ws) ∷ h) = ground (
  arith,
  text_eq_sound i k,
  text_eq_sound i j,
  text_eq_sound k j,
  text_eq_refl i,
  lookup-remove k j h,
)

pub payload-append : (cs ds : List Call) → payload (cs ++ ds) ≡ payload cs ++ payload ds
payload-append [] ds = refl
payload-append (status c ∷ cs) ds = payload-append cs ds
payload-append (bytes b ∷ cs) ds =
    ap (◌++◌ b) (payload-append cs ds) ∙ sym (append_assoc b (payload cs) (payload ds))
payload-append (flush ∷ cs) ds = payload-append cs ds

pub statuses-append : (cs ds : List Call) → statuses (cs ++ ds) ≡ statuses cs ++ statuses ds
statuses-append [] ds = refl
statuses-append (status c ∷ cs) ds = ap (◌∷◌ c) (statuses-append cs ds)
statuses-append (bytes b ∷ cs) ds = statuses-append cs ds
statuses-append (flush ∷ cs) ds = statuses-append cs ds

pub payload-send : (cs : List Call) (b : Text) → payload (cs ++ bytes b ∷ []) ≡ payload cs ++ b
payload-send cs b = payload-append cs (bytes b ∷ []) ∙ ap (◌++◌ (payload cs)) (append-nil b)
