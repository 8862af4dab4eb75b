-- ===== src/Tunnel/Process.antt =====
-- tunnel/process.go: the record of a detached launch, and whether a PID is still the process that
-- it describes.
use slimproxy.Base.{
  ℤ, pos, negsuc, ℕ, ◌+◌, Bool, false, not, ◌&&◌, ◌||◌, Option, none, some, List, [], ◌∷◌, ◌++◌,
  ltb, ◌==◌, if◌then◌else◌,
}
use slimproxy.Text.{Text, codes, text_eq, has_prefix, trim_space}
use slimproxy.Text.Split.{split, split_skipping, fields, trim_by, trim_right_by, is_filled}
use slimproxy.Envelope.Writer.{itoa}
use mathlib.Core.List.{reverse}

-- A time is its nanoseconds; 0 is the zero time.
pub record Record : Type 0 where
  pub pid : ℤ
  pub started : ℕ
  pub tunnel : Text
  pub binary : Text
  pub log_path : Text

-- The record file: missing, not readable, no JSON of a record, or what the JSON says.
pub data RecordFile : Type 0 where
  missing : RecordFile
  unreadable : RecordFile
  garbled : RecordFile
  holds : Record → RecordFile

-- What readRecord returns: errNoRecord, another error, or the record.
pub data Reading : Type 0 where
  no_record : Reading
  broken : Reading
  found : Record → Reading

unfoldable pub is_positive : ℤ → Bool
is_positive (pos n) = ltb 0 n
is_positive (negsuc n) = false

-- readRecord.
unfoldable pub read_record : RecordFile → Reading
unfolding is_positive
read_record missing = no_record
read_record unreadable = broken
read_record garbled = broken
read_record (holds r) = if is_positive r.pid then found r else broken

-- The constants identityMatch, identityGone, identityMismatch and identityUnknown.
pub data Identity : Type 0 where
  matches gone mismatch unknown : Identity

pub record ProcInfo : Type 0 where
  pub name : Text
  pub created : ℕ

-- What queryProcess returns: an error, no such process, or one.
pub data Lookup : Type 0 where
  failed absent : Lookup
  present : ProcInfo → Lookup

-- A text rune by rune under `rune`, which takes all runes that unicode.SimpleFold goes round to one of them.
unfoldable pub fold : (ℕ → ℕ) → Text → Text
fold rune [] = []
fold rune (c ∷ s) = rune c ∷ fold rune s

-- binaryMatches: strings.EqualFold.
unfoldable pub binary_matches : (ℕ → ℕ) → Text → Text → Bool
unfolding fold
binary_matches rune running want = text_eq (fold rune running) (fold rune want)

module _ (windows : Bool) where
  -- os.IsPathSeparator.
  unfoldable pub is_separator : ℕ → Bool
  is_separator c = c == b'/' || (windows && c == 0x5c)

  -- A path without its drive letter, which only Windows has.
  unfoldable pub without_volume : Text → Text
  without_volume (d ∷ c ∷ s) = if windows && c == b':' then s else d ∷ c ∷ s
  without_volume s = s

  last_element : Text → Text → Text
  unfolding is_separator
  last_element acc [] = acc
  last_element acc (c ∷ s) =
      let rest = last_element (c ∷ acc) s in if is_separator c then acc else rest

  -- filepath.Base.
  unfoldable pub base : Text → Text
  unfolding without_volume last_element is_separator is_filled
  base [] = codes "."
  base (c ∷ s) =
      let name = last_element [] (reverse (without_volume (trim_right_by is_separator (c ∷ s)))) in
      if is_filled name then name else (if windows then 0x5c else b'/') ∷ []

  -- expectedImageName.
  unfoldable pub expected_image_name : Text → Text
  unfolding base
  expected_image_name binary =
      let name = base binary in
      if is_filled name
        && not (text_eq name (codes "."))
        && not (text_eq name ((if windows then 0x5c else b'/') ∷ []))
      then name
      else if windows
      then codes "cloudflared.exe"
      else codes "cloudflared"

  abbrev pub clock_slack : ℕ
  clock_slack = 30000000000

  -- The process started before the launch that was recorded, as far as both times are known.
  unfoldable pub predates : ProcInfo → Record → Bool
  predates info rec =
      not (info.created == 0)
      && not (rec.started == 0)
      && ltb (info.created + clock_slack) rec.started

  -- verifyRecord, on what queryProcess said.
  unfoldable pub verify_record : (ℕ → ℕ) → Record → Lookup → Identity
  unfolding predates
  verify_record rune rec failed = unknown
  verify_record rune rec absent = gone
  verify_record rune rec (present info) =
      if not (binary_matches rune info.name (expected_image_name rec.binary))
      then mismatch
      else if predates info rec
      then mismatch
      else matches

-- strings.Trim of the quotes of a field.
unfoldable pub unquote : Text → Text
unquote s = trim_by (λ c. c == b'"') s

unquote_all : List Text → List Text
unfolding unquote
unquote_all [] = []
unquote_all (f ∷ fs) = unquote f ∷ unquote_all fs

-- splitCSVLine.
unfoldable pub split_csv_line : Text → List Text
unfolding unquote_all
split_csv_line line = unquote_all (split_skipping (codes "\",\"") 0 line)

-- The image name of a row of tasklist, if it is a row for the PID.
unfoldable pub row_name : ℕ → List Text → Option Text
row_name pid (name ∷ number ∷ session ∷ session_number ∷ memory ∷ rest) =
    if text_eq number (itoa pid) then some name else none
row_name pid _ = none

find_row : ℕ → List Text → Option Text
unfolding row_name
find_row pid [] = none
find_row pid (line ∷ lines) =
    let rest = find_row pid lines in
    let row = trim_space line in
    if has_prefix row (codes "\"")
    then elim (row_name pid (split_csv_line row)) [ none ↦ rest | some name ↦ some name ]
    else rest

-- parseTasklistRow.
unfoldable pub parse_tasklist_row : Text → ℕ → Option Text
unfolding find_row
parse_tasklist_row text pid = find_row pid (split b'\n' text)

-- What `ps` did: it exited with 1, failed in another way, or printed a text.
pub data PsRun : Type 0 where
  exited_one ps_failed : PsRun
  printed : Text → PsRun

join_fields : List Text → Text
join_fields [] = []
join_fields (f ∷ []) = f
join_fields (f ∷ g ∷ fs) = f ++ (b' ' ∷ join_fields (g ∷ fs))

info_of : (Text → Option ℕ) → List Text → Lookup
unfolding join_fields
info_of parse_time [] = absent
info_of parse_time (name ∷ []) = present (record { name = name; created = 0 })
info_of parse_time (name ∷ day ∷ rest) = present (record {
  name = name;
  created = elim (parse_time (join_fields (day ∷ rest))) [ none ↦ 0 | some t ↦ t ];
})

-- queryProcessUnix; time.ParseInLocation with its layout is a parameter.
unfoldable pub query_process_unix : (Text → Option ℕ) → PsRun → Lookup
unfolding info_of
query_process_unix parse_time exited_one = absent
query_process_unix parse_time ps_failed = failed
query_process_unix parse_time (printed out) = info_of parse_time (fields (trim_space out))

-- queryProcessWindows: what tasklist printed, if it ran, and what windowsCreationTime answered.
unfoldable pub query_process_windows : Option Text → ℕ → ℕ → Lookup
query_process_windows none creation pid = failed
query_process_windows (some out) creation pid = elim (parse_tasklist_row out pid) [
  | none ↦ absent
  | some name ↦ present (record { name = name; created = creation })
]
