-- ===== src/Journal/Rejects.antt =====
-- journal/rejects.go: RejectFolder, which folds identical rejects into one row a minute.
use slimproxy.Base.{ℕ, suc, Bool, true, false, ◌&&◌, List, [], ◌∷◌, ◌++◌, ◌==◌, if◌then◌else◌}
use slimproxy.Text.{Text, text_eq}
use slimproxy.Journal.Event.{
  Event, on_reject, Source, unknown_source, local, tunnel, remote, bare, normalise_path,
}

-- rejectKey.
pub record RejectKey : Type 0 where
  pub method : Text
  pub path : Text
  pub status : ℕ
  pub src : Source

abbrev pub source_code : Source → ℕ
source_code unknown_source = 0
source_code local = 1
source_code tunnel = 2
source_code remote = 3

-- Equality of keys.
unfoldable pub same_key : RejectKey → RejectKey → Bool
unfolding text_eq
same_key a b =
    text_eq a.method b.method
    && text_eq a.path b.path
    && (a.status == b.status)
    && (source_code a.src == source_code b.src)

-- Go's map from keys to numbers: 0 where a key is missing.
unfoldable pub get : RejectKey → List (RejectKey × ℕ) → ℕ
get k [] = 0
get k ((j, n) ∷ m) = if same_key j k then n else get k m

unfoldable pub set : RejectKey → ℕ → List (RejectKey × ℕ) → List (RejectKey × ℕ)
set k v [] = (k, v) ∷ []
set k v ((j, n) ∷ m) = let rest = set k v m in if same_key j k then (j, v) ∷ m else (j, n) ∷ rest

-- RejectFolder: the two maps, whether it was closed, and the events that it has emitted.
pub record Folder : Type 0 where
  pub counts : List (RejectKey × ℕ)
  pub first_at : List (RejectKey × ℕ)
  pub closed : Bool
  pub emitted : List Event

-- NewRejectFolder.
abbrev pub new : Folder
new = record { counts = []; first_at = []; closed = false; emitted = [] }

-- Add of a key.
unfoldable pub add_key : Folder → RejectKey → ℕ → Folder
unfolding get set
add_key f k at = record f {
  first_at = if get k f.counts == 0 then set k at f.first_at else f.first_at;
  counts = set k (suc (get k f.counts)) f.counts;
}

-- Add.
unfoldable pub add : Folder → Text → List ℕ → ℕ → Source → ℕ → Folder
unfolding add_key normalise_path
add f method path status src at =
    add_key f (record { method = method; path = normalise_path path; status = status; src = src })
      at

-- The event of one key.
abbrev pub row : RejectKey → ℕ → ℕ → Event
row k at n = record (bare at on_reject) {
  method = k.method;
  path = k.path;
  status = k.status;
  src = k.src;
  count = n;
}

-- The loop of flush. The source ranges over a map, so the order of the rows is not fixed.
unfoldable pub rows : List (RejectKey × ℕ) → List (RejectKey × ℕ) → List Event
unfolding get
rows [] first = []
rows ((k, n) ∷ m) first = row k (get k first) n ∷ rows m first

-- flush.
unfoldable pub flush : Folder → Folder
unfolding rows
flush f = record f { counts = []; first_at = []; emitted = f.emitted ++ rows f.counts f.first_at }

-- Close.
unfoldable pub close : Folder → Folder
unfolding flush
close f = if f.closed then f else flush (record f { closed = true })
