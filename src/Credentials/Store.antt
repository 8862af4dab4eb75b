-- ===== src/Credentials/Store.antt =====
-- credentials/credentials.go: Credential, Status, List, Find, Remove and RemoveResolved.
use slimproxy.Base.{
  ℕ, ◌+◌, Bool, true, false, not, ◌&&◌, ◌||◌, Option, none, some, List, [], ◌∷◌, map, keep, length,
  ltb, ◌==◌, if◌then◌else◌,
}
use slimproxy.Text.{Text, codes, trim_space, text_eq}
use slimproxy.Text.Split.{is_filled}
use slimproxy.Text.Order.{text_before}
use slimproxy.Ordering.{sort_by}

-- Credential; a time is nanoseconds, and 0 where it is not set. Of Err it matters whether it is there.
pub record Credential : Type 0 where
  pub file : Text
  pub name : Text
  pub provider : Text
  pub account : Text
  pub expires : ℕ
  pub last_refresh : ℕ
  pub disabled : Bool
  pub is_broken : Bool

pub data Status : Type 0 where
  ok expiring expired disabled_by_hand unreadable unknown : Status

-- expiringWindow, half an hour.
abbrev pub expiring_window : ℕ
expiring_window = 1800000000000

-- Credential.Status.
unfoldable pub status_at : ℕ → Credential → Status
status_at now c =
    if c.is_broken
    then unreadable
    else if c.disabled
    then disabled_by_hand
    else if c.expires == 0
    then unknown
    else if ltb c.expires now
    then expired
    else if ltb c.expires (now + expiring_window)
    then expiring
    else ok

unfoldable pub is_usable_status : Status → Bool
is_usable_status ok = true
is_usable_status expiring = true
is_usable_status _ = false

unfoldable pub is_recoverable_status : Status → Bool
is_recoverable_status unreadable = false
is_recoverable_status disabled_by_hand = false
is_recoverable_status _ = true

-- Credential.Usable and Credential.Recoverable.
unfoldable pub usable : ℕ → Credential → Bool
unfolding is_usable_status status_at
usable now c = is_usable_status (status_at now c)

unfoldable pub recoverable : ℕ → Credential → Bool
unfolding is_recoverable_status status_at
recoverable now c = is_recoverable_status (status_at now c)

-- rawCredential.
pub record Raw : Type 0 where
  pub type_name : Text
  pub email : Text
  pub expired_at : Text
  pub refreshed_at : Text
  pub is_disabled : Bool

-- What a listing and a read of the directory give: a name, whether it is a directory, and the content if it can be read.
pub record Entry : Type 0 where
  pub entry_name : Text
  pub is_dir : Bool
  pub content : Option Text

-- filepath.Ext of a name without a separator: from its last dot on.
unfoldable pub ext : Text → Text
ext [] = []
ext (c ∷ s) = let rest = ext s in if is_filled rest then rest else if c == b'.' then c ∷ s else []

unfoldable pub without_ext : Text → Text
unfolding ext
without_ext [] = []
without_ext (c ∷ s) =
    let rest = without_ext s in
    if is_filled (ext s) then c ∷ rest else if c == b'.' then [] else c ∷ rest

-- strings.EqualFold, json.Unmarshal, time.Parse with a layout, and filepath.Join with the directory are
-- parameters.
pub record Lib : Type 0 where
  pub equal_fold : Text → Text → Bool
  pub unmarshal : Text → Option Raw
  pub parse : Text → Text → Option ℕ
  pub join : Text → Text

-- Find and RemoveResolved's outcomes; Remove's are those of both.
pub data Found : Type 0 where
  one : Credential → Found
  not_found : Found
  ambiguous : List Text → Found

pub data Removal : Type 0 where
  removed : Text → Removal
  no_match : Removal
  many_match : List Text → Removal
  last_usable : Removal
  remove_failed : Removal

unfoldable pub of_matches : List Credential → Found
of_matches [] = not_found
of_matches (c ∷ []) = one c
of_matches (c ∷ d ∷ cs) = ambiguous (map (λ x. x.name) (c ∷ d ∷ cs))

module _ (lib : Lib) where
  unfoldable pub first_parsed : List Text → Text → ℕ
  first_parsed [] s = 0
  first_parsed (layout ∷ layouts) s =
      let rest = first_parsed layouts s in elim (lib.parse layout s) [ some t ↦ t | none ↦ rest ]

  -- parseTime.
  unfoldable pub parse_time : Text → ℕ
  unfolding first_parsed
  parse_time s =
      let trimmed = trim_space s in
      if not (is_filled trimmed)
      then 0
      else first_parsed
          (codes "2006-01-02T15:04:05.999999999Z07:00"
            ∷ codes "2006-01-02T15:04:05Z07:00"
            ∷ codes "2006-01-02T15:04:05Z0700"
            ∷ [])
          trimmed

  unfoldable pub broken_at : Text → Credential
  broken_at name = record {
    file = lib.join name;
    name = name;
    provider = [];
    account = [];
    expires = 0;
    last_refresh = 0;
    disabled = false;
    is_broken = true;
  }

  unfoldable pub of_raw : Text → Option Raw → Credential
  unfolding broken_at parse_time
  of_raw name none = broken_at name
  of_raw name (some raw) = record {
    file = lib.join name;
    name = name;
    provider = raw.type_name;
    account = trim_space raw.email;
    expires = parse_time raw.expired_at;
    last_refresh = parse_time raw.refreshed_at;
    disabled = raw.is_disabled;
    is_broken = false;
  }

  -- read.
  unfoldable pub read_entry : Text → Option Text → Credential
  unfolding of_raw broken_at
  read_entry name none = broken_at name
  read_entry name (some body) = of_raw name (lib.unmarshal body)

  unfoldable pub is_listed : Entry → Bool
  unfolding ext
  is_listed e = not e.is_dir && lib.equal_fold (ext e.entry_name) (codes ".json")

  -- List, where the directory can be read.
  unfoldable pub list_dir : List Entry → List Credential
  unfolding is_listed read_entry
  list_dir entries =
      sort_by (λ a b. text_before a.name b.name)
        (map (λ e. read_entry e.entry_name e.content) (keep is_listed entries))

  -- stripJSONExt.
  unfoldable pub strip_json_ext : Text → Text
  unfolding ext without_ext
  strip_json_ext name = if lib.equal_fold (ext name) (codes ".json") then without_ext name else name

  -- The test of Find's loop.
  unfoldable pub matches_id : Text → Credential → Bool
  unfolding strip_json_ext
  matches_id id c =
      lib.equal_fold c.name id
      || lib.equal_fold (strip_json_ext c.name) id
      || (is_filled c.account && lib.equal_fold c.account id)

  -- Find.
  unfoldable pub find : List Credential → Text → Found
  unfolding matches_id of_matches
  find creds id =
      let trimmed = trim_space id in
      if not (is_filled trimmed)
      then not_found
      else of_matches (keep (λ c. matches_id trimmed c) creds)

-- Those that are not the target and can be used or refreshed.
unfoldable pub remaining : ℕ → Credential → List Credential → List Credential
unfolding recoverable
remaining now target creds = keep (λ c. not (text_eq c.file target.file) && recoverable now c) creds

-- os.Remove of a file, and what it comes to.
unfoldable pub remove_file : (Text → Bool) → Text → Removal
remove_file removes file = if removes file then removed file else remove_failed

-- RemoveResolved, whose outcome names the file that went; `removes` says whether os.Remove of the file succeeds.
unfoldable pub remove_resolved : (Text → Bool) → List Credential → Credential → Bool → ℕ → Removal
unfolding remaining remove_file
remove_resolved removes creds target force now =
    if not (is_filled target.file)
    then no_match
    else if (not force && recoverable now target) && length (remaining now target creds) == 0
    then last_usable
    else remove_file removes target.file

module _ (lib : Lib) (removes : Text → Bool) where
  unfoldable pub remove_found : List Credential → Bool → ℕ → Found → Removal
  unfolding remove_resolved
  remove_found creds force now (one target) = remove_resolved removes creds target force now
  remove_found creds force now not_found = no_match
  remove_found creds force now (ambiguous names) = many_match names

  -- Remove, where the directory can be read.
  unfoldable pub remove : List Entry → Text → Bool → ℕ → Removal
  unfolding remove_found list_dir find
  remove entries id force now =
      let creds = list_dir lib entries in remove_found creds force now (find lib creds id)
