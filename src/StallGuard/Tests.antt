-- ===== src/StallGuard/Tests.antt =====
-- The theorems of proxy/stallguard.go at concrete streams and executors.
use slimproxy.Base.{◌≡◌, refl, true, false, some, List, [], ◌∷◌, if◌then◌else◌}
use slimproxy.Text.{codes, contains, text_eq, trim_space, has_prefix}
use slimproxy.StallGuard.Ledger.{Gjson, scan_ledger_signals}
use slimproxy.StallGuard.Pump.{Chunk, Wake, receives, shuts, hangs_up, passed, no_tail, pump}
use slimproxy.StallGuard.Verdict.{all_set, forwarding, deserved, pump-shuts}
use slimproxy.StallGuard.Install.{
  Method, upstream, Table, uncovered_methods, same_signature, method_by_name,
}

-- A gjson that knows two keys by their text.
abbrev by_text : Gjson
by_text = record {
  valid = λ line. true;
  string_at =
      λ line key. if contains line (codes "message_start") then codes "message_start" else [];
  exists_at = λ line key. contains line key;
}

abbrev opening : Chunk
opening = record { payload = codes "data: {message_start}"; has_err = false }

abbrev tail : Chunk
tail = record { payload = codes "data: {usage}"; has_err = false }

-- A stream whose books are settled, and one that lacks its tail.
deserved_settled : deserved by_text (opening ∷ tail ∷ []) false ≡ []
unfolding scan_ledger_signals trim_space has_prefix text_eq contains
deserved_settled = refl

deserved_no_tail : deserved by_text (opening ∷ []) false ≡ no_tail ∷ []
unfolding scan_ledger_signals trim_space has_prefix text_eq contains
deserved_no_tail = refl

pump-shuts_example :
    pump by_text all_set false false (forwarding (opening ∷ []) (shuts true ∷ [])) ≡ record {
      sent = passed opening ∷ [];
      notes = deserved by_text (opening ∷ []) true;
      returned = true;
    }
pump-shuts_example = pump-shuts by_text (opening ∷ []) true []

abbrev dropped : List Wake
dropped = receives opening true ∷ receives tail false ∷ hangs_up ∷ []

-- An executor with one method, as the wrapper and as the upstream have it.
abbrev execute : Method
execute = record {
  name = codes "Execute";
  ins = codes "*stallGuard" ∷ codes "Context" ∷ [];
  outs = codes "error" ∷ [];
}

abbrev refresh : Method
refresh = record { name = codes "Refresh"; ins = codes "*claude" ∷ []; outs = [] }

abbrev bare : Table
bare = record { claude = some (upstream (execute ∷ [])); last_warn = 7; warnings = 1 }

whole_cover : uncovered_methods (execute ∷ []) (execute ∷ []) ≡ []
unfolding uncovered_methods same_signature method_by_name text_eq
whole_cover = refl
