-- ===== src/StallGuard/Ledger.antt =====
-- proxy/stallguard.go: scanLedgerSignals, what a stream chunk means to the ledger.
use slimproxy.Base.{Bool, true, false, not, ◌||◌, List, [], ◌∷◌, ◌==◌, if◌then◌else◌, drop}
use slimproxy.Text.{Text, codes, trim_space, has_prefix, text_eq}

-- The calls of gjson: ValidBytes, GetBytes(…).String() and GetBytes(…).Exists().
pub record Gjson : Type 0 where
  pub valid : Text → Bool
  pub string_at : Text → Text → Text
  pub exists_at : Text → Text → Bool

-- bytes.Split at the newline.
unfoldable pub split_lines : Text → List Text
split_lines [] = [] ∷ []
split_lines (c ∷ s) = elim (split_lines s) [
  | [] ↦ (c ∷ []) ∷ []
  | line ∷ lines ↦ if c == b'\n' then [] ∷ line ∷ lines else (c ∷ line) ∷ lines
]

pub record Signals : Type 0 where
  pub opens : Bool
  pub settles : Bool

abbrev pub either : Signals → Signals → Signals
either a b = record { opens = a.opens || b.opens; settles = a.settles || b.settles }

abbrev pub silence : Signals
silence = record { opens = false; settles = false }

abbrev is_empty : Text → Bool
is_empty [] = true
is_empty (c ∷ s) = false

abbrev starts_object : Text → Bool
starts_object [] = false
starts_object (c ∷ s) = c == b'{'

-- The line without its `data:` prefix.
strip_data : Text → Text
strip_data line = if has_prefix line (codes "data:") then trim_space (drop 5 line) else line

module _ (g : Gjson) where
  -- The rest of the loop's body, on a line that is an object.
  object_signals : Text → Signals
  object_signals line = if not (starts_object line) || not (g.valid line) then silence else record {
    opens = text_eq (g.string_at line (codes "type")) (codes "message_start");
    settles = g.exists_at line (codes "usage");
  }

  -- One round of the loop of scanLedgerSignals, on a trimmed line.
  trimmed_signals : Text → Signals
  unfolding object_signals strip_data
  trimmed_signals line =
      if is_empty line || has_prefix line (codes "event:") || text_eq line (codes "[DONE]")
      then silence
      else object_signals (strip_data line)

  unfoldable pub line_signals : Text → Signals
  unfolding trimmed_signals
  line_signals line = trimmed_signals (trim_space line)

  unfoldable pub lines_signals : List Text → Signals
  unfolding line_signals
  lines_signals [] = silence
  lines_signals (line ∷ lines) = either (line_signals line) (lines_signals lines)

  -- scanLedgerSignals.
  unfoldable pub scan_ledger_signals : Text → Signals
  unfolding lines_signals split_lines
  scan_ledger_signals payload = lines_signals (split_lines payload)
