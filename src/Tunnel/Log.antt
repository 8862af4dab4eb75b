-- ===== src/Tunnel/Log.antt =====
-- tunnel/manager.go: logContains.
use slimproxy.Base.{
  ℕ, Bool, true, false, Option, none, some, List, [], ◌∷◌, ◌==◌, leb, length, if◌then◌else◌,
}
use slimproxy.Text.{Text, contains}
use slimproxy.Text.Split.{split}

-- The buffer of the scanner, which a line and its end have to fit.
abbrev scan_buffer : ℕ
scan_buffer = 1048576

-- A line as the scanner hands it out: a carriage return before its end is dropped.
unfoldable pub drop_cr : Text → Text
drop_cr [] = []
drop_cr (c ∷ []) = if c == b'\r' then [] else c ∷ []
drop_cr (c ∷ d ∷ s) = c ∷ drop_cr (d ∷ s)

-- The loop of logContains; a line that is too long ends it.
unfoldable pub scan_for : Text → List Text → Bool
unfolding drop_cr
scan_for marker [] = false
scan_for marker (line ∷ lines) =
    let rest = scan_for marker lines in
    if leb scan_buffer (length line)
    then false
    else if contains (drop_cr line) marker
    then true
    else rest

-- logContains, of what the log holds past the offset; none where it cannot be opened or sought.
unfoldable pub log_contains : Option Text → Text → Bool
unfolding scan_for
log_contains none marker = false
log_contains (some rest) marker = scan_for marker (split b'\n' rest)
