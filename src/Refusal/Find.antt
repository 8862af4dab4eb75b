-- ===== src/Refusal/Find.antt =====
-- proxy/requestlog.go: findRefusal.
use slimproxy.Base.{Bool, false, not, Option, none, some, List, [], ◌∷◌, drop, ◌==◌, if◌then◌else◌}
use slimproxy.Text.{Text, codes, trim_space, has_prefix, contains, text_eq}
use slimproxy.Text.Split.{split}

-- refusalDetails.
pub record Details : Type 0 where
  pub category : Text
  pub explanation : Text

-- What json.Unmarshal reads of an event: delta.stop_reason, delta.stop_details, stop_reason, stop_details.
pub record StopEvent : Type 0 where
  pub delta_reason : Text
  pub delta_details : Details
  pub reason : Text
  pub details : Details

-- bytes.TrimPrefix.
unfoldable pub trim_prefix : Text → Text
trim_prefix line = if has_prefix line (codes "data:") then drop 5 line else line

unfoldable pub starts_object : Text → Bool
starts_object [] = false
starts_object (c ∷ s) = c == b'{'

unfoldable pub refusal_of : StopEvent → Option Details
refusal_of e =
    if text_eq e.delta_reason (codes "refusal")
    then some e.delta_details
    else if text_eq e.reason (codes "refusal")
    then some e.details
    else none

module _ (unmarshal : Text → Option StopEvent) where
  unfoldable pub event_refusal : Option StopEvent → Option Details
  unfolding refusal_of
  event_refusal none = none
  event_refusal (some e) = refusal_of e

  -- One round of the loop of findRefusal, on the line.
  unfoldable pub line_refusal : Text → Option Details
  unfolding event_refusal trim_prefix starts_object
  line_refusal line =
      let bare = trim_space (trim_prefix (trim_space line)) in
      if starts_object bare then event_refusal (unmarshal bare) else none

  unfoldable pub lines_refusal : List Text → Option Details
  unfolding line_refusal
  lines_refusal [] = none
  lines_refusal (line ∷ lines) =
      let rest = lines_refusal lines in elim (line_refusal line) [ some d ↦ some d | none ↦ rest ]

  -- findRefusal.
  unfoldable pub find_refusal : Text → Option Details
  unfolding lines_refusal
  find_refusal chunk =
      if not (contains chunk (codes "\"refusal\"")) then none else lines_refusal (split b'\n' chunk)
