-- ===== src/Tunnel/Startup.antt =====
-- tunnel/connectivity.go: classifyStartupLog and what it calls.
use slimproxy.Base.{
  ℕ, suc, ◌/◌, Bool, true, false, not, ◌&&◌, ◌||◌, List, [], ◌∷◌, ◌++◌, Option, none, some, leb,
  ltb, ◌==◌, if◌then◌else◌,
}
use slimproxy.Text.{Text, codes, text_eq, contains}
use slimproxy.Text.Split.{split, fields, is_filled, trim_right_by}
use slimproxy.Tunnel.Ingress.{has}
use slimproxy.Tunnel.Fields.{log_field}

-- fakeIPNet.Contains of an address of four bytes.
unfoldable pub is_fake : ℕ × ℕ × ℕ × ℕ → Bool
is_fake (a, b, c, d) = a == 198 && b / 2 == 9

-- addUnique.
unfoldable pub add_unique : List Text → Text → List Text
add_unique list v = if has v list then list else list ++ (v ∷ [])

all_digits : Text → Bool
all_digits [] = true
all_digits (c ∷ s) = leb b'0' c && leb c b'9' && all_digits s

-- isNumber.
unfoldable pub is_number : Text → Bool
unfolding all_digits is_filled
is_number s = is_filled s && all_digits s

-- The word after the last "requested" that has one.
after_requested : Text → List Text → Text
after_requested found [] = found
after_requested found (w ∷ []) = found
after_requested found (w ∷ v ∷ ws) =
    after_requested (if text_eq w (codes "requested") then v else found) (v ∷ ws)

last_word : List Text → Text
last_word [] = []
last_word (w ∷ []) = w
last_word (w ∷ v ∷ ws) = last_word (v ∷ ws)

-- haShortfall.
unfoldable pub ha_shortfall : Text → Text × Text
unfolding after_requested last_word
ha_shortfall line =
    let words = fields line in
    let wanted = after_requested [] words in
    let offered = trim_right_by (λ c. c == b'.') (last_word words) in
    if not (is_number wanted) || not (is_number offered) then ([], []) else (wanted, offered)

-- What the loop of classifyStartupLog gathers.
pub record Evidence : Type 0 where
  pub fake_edges : List Text
  pub failed : List Text
  pub passed : List Text
  pub target : Text
  pub ha_wanted : Text
  pub ha_offered : Text
  pub dial_fails : ℕ
  pub dial_err : Text

abbrev pub no_evidence : Evidence
no_evidence = record {
  fake_edges = [];
  failed = [];
  passed = [];
  target = [];
  ha_wanted = [];
  ha_offered = [];
  dial_fails = 0;
  dial_err = [];
}

-- startupDiagnosis: its cause, with what its lines name.
pub data Diagnosis : Type 0 where
  unknown_cause : Diagnosis
  fake_ip_edge : List Text → List Text → Text → Text → Diagnosis
  precheck_failed : List Text → List Text → Text → Diagnosis
  edge_pool_collapsed : Text → Text → Diagnosis
  still_retrying : ℕ → Text → Diagnosis

-- connectedMarker.
abbrev pub connected_marker : Text
connected_marker = codes "Registered tunnel connection"

-- A value, where it is given.
unfoldable pub unless_empty : Text → Text → Text
unless_empty v old = if is_filled v then v else old

module _ (to4 : Text → Option (ℕ × ℕ × ℕ × ℕ)) where
  -- The value is an address that the fake network contains; To4 of net.ParseIP is a parameter.
  unfoldable pub names_fake : Text → Bool
  unfolding is_fake
  names_fake v = elim (to4 v) [ none ↦ false | some ip ↦ is_fake ip ]

  -- edgeFakeIP.
  unfoldable pub edge_fake_ip : Text → Text
  unfolding names_fake
  edge_fake_ip line =
      let v = log_field line (codes "ip") in if is_filled v && names_fake v then v else []

  unfoldable pub note_edge : Text → Evidence → Evidence
  unfolding edge_fake_ip
  note_edge line e =
      let ip = edge_fake_ip line in
      if is_filled ip then record e { fake_edges = add_unique e.fake_edges ip } else e

-- A row of cloudflared's pre-check.
unfoldable pub note_precheck : Text → Evidence → Evidence
note_precheck line e =
    let comp = log_field line (codes "component") in
    let stands = log_field line (codes "status") in
    if not (contains line (codes "precheck")) || not (is_filled comp)
    then e
    else if text_eq stands (codes "fail")
    then record e {
      failed = add_unique e.failed comp;
      target = unless_empty (log_field line (codes "target")) e.target;
    }
    else if text_eq stands (codes "pass")
    then record e { passed = add_unique e.passed comp }
    else e

unfoldable pub note_shortfall : Text → Evidence → Evidence
note_shortfall line e =
    let (w, o) = ha_shortfall line in
    if contains line (codes "HA connections but I can give you at most") && is_filled w
    then record e { ha_wanted = w; ha_offered = o }
    else e

unfoldable pub note_dial : Text → Evidence → Evidence
note_dial line e =
    if contains line (codes "Failed to dial")
    then record e {
      dial_fails = suc e.dial_fails;
      dial_err = unless_empty (log_field line (codes "error")) e.dial_err;
    }
    else e

unfoldable pub is_some_text : List Text → Bool
is_some_text [] = false
is_some_text (_ ∷ _) = true

-- The choice by how specific the evidence is.
unfoldable pub diagnose : Bool → Evidence → Diagnosis
unfolding is_some_text
diagnose alive e =
    if is_some_text e.fake_edges
    then fake_ip_edge e.fake_edges e.failed e.ha_wanted e.ha_offered
    else if is_some_text e.failed
    then precheck_failed e.failed e.passed e.target
    else if is_filled e.ha_wanted
    then edge_pool_collapsed e.ha_wanted e.ha_offered
    else if ltb 0 e.dial_fails && alive
    then still_retrying e.dial_fails e.dial_err
    else unknown_cause

module _ (to4 : Text → Option (ℕ × ℕ × ℕ × ℕ)) where
  -- The loop of classifyStartupLog.
  unfoldable pub note_line : Text → Evidence → Evidence
  note_line line e =
      note_dial line (note_shortfall line (note_precheck line (note_edge to4 line e)))

  unfoldable pub gather : Evidence → List Text → Evidence
  unfolding note_line
  gather e [] = e
  gather e (line ∷ lines) = gather (note_line line e) lines

  -- classifyStartupLog.
  unfoldable pub classify_startup_log : Text → Bool → Diagnosis
  unfolding gather diagnose
  classify_startup_log log alive =
      if contains log connected_marker
      then unknown_cause
      else diagnose alive (gather no_evidence (split b'\n' log))
