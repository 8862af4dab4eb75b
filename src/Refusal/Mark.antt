-- ===== src/Refusal/Mark.antt =====
-- proxy/refusal.go: markContentFiltered, markObject, markStreamFrame and setFinishReason.
use slimproxy.Base.{
  Bool, true, false, not, ◌||◌, Option, none, some, List, [], ◌∷◌, ◌++◌, if◌then◌else◌,
}
use slimproxy.Text.{Text, codes, trim_space, has_prefix, text_eq, to_lower}
use slimproxy.Text.Split.{split}
use slimproxy.Refusal.Find.{trim_prefix, starts_object}

-- What json.Decoder makes of a document: a number stands with its text, as UseNumber has it, and so do true,
-- false and null. The keys of an object are different from one another.
mutual
  pub data Json : Type 0 where
    atom : Text → Json
    string : Text → Json
    array : Items → Json
    object : Fields → Json

  pub data Items : Type 0 where
    none_left : Items
    item : Json → Items → Items

  pub data Fields : Type 0 where
    no_more : Fields
    field : Text → Json → Fields → Fields

-- A map's m[key], and m[key] = v for a key that it has.
unfoldable pub get : Text → Fields → Option Json
get key no_more = none
get key (field k v rest) = let found = get key rest in if text_eq key k then some v else found

unfoldable pub put : Text → Json → Fields → Fields
put key new no_more = no_more
put key new (field k v rest) =
    let changed = put key new rest in if text_eq key k then field k new rest else field k v changed

unfoldable pub is_stop : Option Json → Bool
is_stop (some (string reason)) = text_eq reason (codes "stop")
is_stop _ = false

-- One round of the loop of setFinishReason.
unfoldable pub set_choice : Json → Json × Bool
unfolding is_stop put get
set_choice (object choice) =
    if is_stop (get (codes "finish_reason") choice)
    then (object (put (codes "finish_reason") (string (codes "content_filter")) choice), true)
    else (object choice, false)
set_choice choice = (choice, false)

unfoldable pub set_choices : Items → Items × Bool
unfolding set_choice
set_choices none_left = (none_left, false)
set_choices (item c cs) =
    let one = set_choice c in let rest = set_choices cs in (item one.0 rest.0, one.1 || rest.1)

unfoldable pub set_in : Fields → Option Json → Fields × Bool
unfolding set_choices put
set_in doc (some (array choices)) =
    let marked = set_choices choices in (put (codes "choices") (array marked.0) doc, marked.1)
set_in doc _ = (doc, false)

-- setFinishReason, with the document after it.
unfoldable pub set_finish_reason : Fields → Fields × Bool
unfolding set_in get
set_finish_reason doc = set_in doc (get (codes "choices") doc)

-- bytes.Join with a newline.
unfoldable pub join_lines : List Text → Text
join_lines [] = []
join_lines (line ∷ []) = line
join_lines (line ∷ next ∷ lines) = line ++ (b'\n' ∷ join_lines (next ∷ lines))

module _ (decode : Text → Option Fields) (marshal : Fields → Option Text) where
  unfoldable pub marshalled : Fields × Bool → Option Text
  marshalled (doc, true) = marshal doc
  marshalled (doc, false) = none

  unfoldable pub marked_text : Option Fields → Option Text
  unfolding marshalled set_finish_reason
  marked_text none = none
  marked_text (some doc) = marshalled (set_finish_reason doc)

  -- markObject.
  unfoldable pub mark_object : Text → Text × Bool
  unfolding marked_text
  mark_object body = elim (marked_text (decode body)) [
    | some out ↦ (out, true)
    | none ↦ (body, false)
  ]

  -- One round of the loop of markStreamFrame.
  unfoldable pub mark_line : Text → Text × Bool
  unfolding marked_text trim_prefix starts_object
  mark_line line =
      let trimmed = trim_space line in
      let is_data = has_prefix trimmed (codes "data:") in
      let bare = if is_data then trim_space (trim_prefix trimmed) else trimmed in
      if not (starts_object bare) then (line, false) else elim (marked_text (decode bare)) [
        | some out ↦ ((if is_data then codes "data: " else []) ++ out, true)
        | none ↦ (line, false)
      ]

  unfoldable pub mark_lines : List Text → List Text × Bool
  unfolding mark_line
  mark_lines [] = ([], false)
  mark_lines (line ∷ lines) =
      let one = mark_line line in let rest = mark_lines lines in (one.0 ∷ rest.0, one.1 || rest.1)

  -- markStreamFrame.
  unfoldable pub mark_stream_frame : Text → Text × Bool
  unfolding mark_lines join_lines
  mark_stream_frame body =
      let marked = mark_lines (split b'\n' body) in
      if marked.1 then (join_lines marked.0, true) else (body, false)

  -- markContentFiltered.
  unfoldable pub mark_content_filtered : Text → Text → Bool → Text × Bool
  unfolding mark_object mark_stream_frame
  mark_content_filtered body to stream =
      if not (text_eq to (codes "openai"))
      then (body, false)
      else if stream
      then mark_stream_frame body
      else mark_object body

-- dialectCarriesRefusal.
unfoldable pub dialect_carries_refusal : Text → Bool
dialect_carries_refusal to = text_eq (to_lower to) (codes "claude")
