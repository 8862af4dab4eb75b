-- ===== src/Tunnel/LogLines.antt =====
-- What logField of tunnel/connectivity.go reads of a line of cloudflared's log.
use slimproxy.Base.{
  ◌≡◌, refl, sym, ap, ap₂, ◌∙◌, ℕ, Bool, true, false, not, ◌&&◌, List, [], ◌∷◌, ◌++◌, append_assoc,
  some, arith, Bool-cases, inl, inr, drop, length, ◌==◌, if◌then◌else◌,
}
use slimproxy.Text.{Text, text_eq, text_eq_sound, has_prefix}
use slimproxy.Text.Split.{cut, before}
use slimproxy.Tunnel.Fields.{is_blank, log_value, field_from, log_field}

-- The parts of a line: a word, a field with a bare value, and a field with a quoted one.
pub data Item : Type 0 where
  word : Text → Item
  bare prose : Text → Text → Item

abbrev pub equals : ℕ
equals = b'='

abbrev pub quote : ℕ
quote = b'"'

-- A text without the quote, without blanks too, and without the equals sign too.
unfoldable pub unquoted : Text → Bool
unquoted [] = true
unquoted (c ∷ s) = not (c == quote) && unquoted s

unfoldable pub plain : Text → Bool
unfolding is_blank
plain [] = true
plain (c ∷ s) = (not (c == quote) && not (is_blank c)) && plain s

unfoldable pub is_key : Text → Bool
unfolding is_blank
is_key [] = true
is_key (c ∷ s) = (not (c == quote) && not (is_blank c) && not (c == equals)) && is_key s

unfoldable pub is_item : Item → Bool
unfolding is_key plain unquoted
is_item (word w) = is_key w
is_item (bare k v) = is_key k && plain v
is_item (prose k v) = is_key k && unquoted v

unfoldable pub are_items : List Item → Bool
unfolding is_item
are_items [] = true
are_items (i ∷ is) = is_item i && are_items is

-- The line that cloudflared writes of them.
unfoldable pub show_item : Item → Text → Text
show_item (word w) rest = w ++ rest
show_item (bare k v) rest = k ++ (equals ∷ (v ++ rest))
show_item (prose k v) rest = k ++ (equals ∷ quote ∷ (v ++ (quote ∷ rest)))

unfoldable pub show_rest : List Item → Text
unfolding show_item
show_rest [] = []
show_rest (i ∷ is) = b' ' ∷ show_item i (show_rest is)

unfoldable pub show_line : List Item → Text
unfolding show_rest show_item
show_line [] = []
show_line (i ∷ is) = show_item i (show_rest is)

-- The value of the first field with a key.
unfoldable pub value_of : Text → List Item → Text
value_of key [] = []
value_of key (word w ∷ is) = value_of key is
value_of key (bare k v ∷ is) = if text_eq k key then v else value_of key is
value_of key (prose k v ∷ is) = if text_eq k key then v else value_of key is

-- What stands after an item: nothing, or a space and more.
Rest : Text → Type 0
Rest [] = Unit
Rest (c ∷ s) = c ≡ b' '

show_rest-Rest : (is : List Item) → Rest (show_rest is)
unfolding show_rest Rest
show_rest-Rest [] = tt
show_rest-Rest (i ∷ is) = refl

-- A key in a line is the key looked for exactly where the pattern stands.
key_found :
    (k key r : Text)
    → is_key k ≡ true
    → is_key key ≡ true
    → has_prefix (k ++ (equals ∷ r)) (key ++ (equals ∷ [])) ≡ text_eq k key
unfolding is_key has_prefix text_eq
key_found [] [] r h g = ground arith
key_found [] (d ∷ key) r h g = ground arith
key_found (c ∷ k) [] r h g = ground arith
key_found (c ∷ k) (d ∷ key) r h g = ground (arith, key_found k key r)

word_passed :
    (w key r : Text)
    → is_key w ≡ true
    → is_key key ≡ true
    → Rest r
    → has_prefix (w ++ r) (key ++ (equals ∷ [])) ≡ false
unfolding is_key has_prefix Rest
word_passed [] [] [] h g e = refl
word_passed [] [] (a ∷ r) h g e = ground arith
word_passed [] (d ∷ key) [] h g e = refl
word_passed [] (d ∷ key) (a ∷ r) h g e = ground arith
word_passed (c ∷ w) [] r h g e = ground arith
word_passed (c ∷ w) (d ∷ key) r h g e = ground (arith, word_passed w key r)

module _ (pat : Text) where
  no_match :
      (s : Text)
      → has_prefix s pat ≡ false
      → field_from pat false true s ≡ field_from pat false false s
  unfolding field_from
  no_match [] h = refl
  no_match (c ∷ s) h = ground (arith)

  skip_plain :
      (t s : Text)
      → plain t ≡ true
      → field_from pat false false (t ++ s) ≡ field_from pat false false s
  unfolding plain is_blank field_from
  skip_plain [] s h = refl
  skip_plain (c ∷ t) s h = ground (arith, skip_plain t s)

  skip_prose :
      (b : Bool) (t s : Text)
      → unquoted t ≡ true
      → field_from pat true b (t ++ (quote ∷ s)) ≡ field_from pat false false s
  unfolding unquoted is_blank field_from
  skip_prose b [] s h = refl
  skip_prose b (c ∷ t) s h = ground (arith, skip_prose (is_blank c) t s)

  open_quote : (s : Text) → field_from pat false false (quote ∷ s) ≡ field_from pat true false s
  unfolding field_from is_blank
  open_quote s = refl

  field_from-Rest :
      (s : Text) → Rest s → field_from pat false false s ≡ field_from pat false true (drop 1 s)
  unfolding Rest field_from is_blank
  field_from-Rest [] e = refl
  field_from-Rest (c ∷ s) e = rw e refl

-- The value that stands at a match.
drop_append : (p s : Text) → drop (length p) (p ++ s) ≡ s
drop_append [] s = refl
drop_append (c ∷ p) s = drop_append p s

before-plain : (v r : Text) → plain v ≡ true → Rest r → before is_blank (v ++ r) ≡ v
unfolding plain before Rest is_blank
before-plain [] [] h e = refl
before-plain [] (c ∷ r) h e = ground arith
before-plain (c ∷ v) r h e = ground (arith, before-plain v r)

cut_prose : (v r : Text) → unquoted v ≡ true → cut quote (v ++ (quote ∷ r)) ≡ some (v, r)
unfolding unquoted cut
cut_prose [] r h = refl
cut_prose (c ∷ v) r h = ground (arith, cut_prose v r)

log_value-bare : (v r : Text) → plain v ≡ true → Rest r → log_value (v ++ r) ≡ v
unfolding log_value Rest before is_blank plain
log_value-bare [] [] h e = refl
log_value-bare [] (c ∷ r) h e = ground arith
log_value-bare (c ∷ v) r h e = ground (arith, before-plain (c ∷ v) r)

log_value-prose : (v r : Text) → unquoted v ≡ true → log_value (quote ∷ (v ++ (quote ∷ r))) ≡ v
unfolding log_value
log_value-prose v r h = rw (cut_prose v r h) refl

key_plain : (k : Text) → is_key k ≡ true → plain k ≡ true
unfolding is_key plain is_blank
key_plain [] h = refl
key_plain (c ∷ k) h = ground (arith, key_plain k)

skip_key :
    (pat k r : Text)
    → is_key k ≡ true
    → field_from pat false false (k ++ (equals ∷ r)) ≡ field_from pat false false r
unfolding plain is_blank
skip_key pat k r h =
    skip_plain pat k (equals ∷ r) (key_plain k h) ∙ skip_plain pat (equals ∷ []) r refl

matched :
    (pat : Text) (c : ℕ) (s : Text)
    → (c == quote) ≡ false
    → has_prefix (c ∷ s) pat ≡ true
    → field_from pat false true (c ∷ s) ≡ log_value (drop (length pat) (c ∷ s))
unfolding field_from
matched pat c s e h = rw e (rw h refl)

-- A key that starts a line starts it with no quote.
key_start :
    (pat k r : Text)
    → is_key k ≡ true
    → has_prefix (k ++ (equals ∷ r)) pat ≡ true
    → field_from pat false true (k ++ (equals ∷ r))
      ≡ log_value (drop (length pat) (k ++ (equals ∷ r)))
unfolding is_key
key_start pat [] r h p = matched pat equals r refl p
key_start pat (c ∷ k) r h p = matched pat c (k ++ (equals ∷ r)) (ground arith) p

key_matched :
    (key k r : Text)
    → is_key k ≡ true
    → text_eq k key ≡ true
    → has_prefix (k ++ (equals ∷ r)) (key ++ (equals ∷ [])) ≡ true
    → field_from (key ++ (equals ∷ [])) false true (k ++ (equals ∷ r)) ≡ log_value r
key_matched key k r h y p =
    key_start (key ++ (equals ∷ [])) k r h p
    ∙ ap (λ x. log_value (drop (length (key ++ (equals ∷ []))) (x ++ (equals ∷ r))))
        (text_eq_sound k key y)
    ∙ ap (λ x. log_value (drop (length (key ++ (equals ∷ []))) x))
        (sym (append_assoc key (equals ∷ []) r))
    ∙ ap log_value (drop_append (key ++ (equals ∷ [])) r)

-- Reading at a key: its value, if the key is the one looked for.
key_read :
    (key k r : Text)
    → is_key key ≡ true
    → is_key k ≡ true
    → field_from (key ++ (equals ∷ [])) false true (k ++ (equals ∷ r))
      ≡ (if text_eq k key then log_value r else field_from (key ++ (equals ∷ [])) false false r)
unfolding is_key
key_read key k r g h = elim (Bool-cases (text_eq k key)) [
  | inr n ↦ rw n (
      no_match (key ++ (equals ∷ [])) (k ++ (equals ∷ r)) (key_found k key r h g ∙ n)
      ∙ skip_key (key ++ (equals ∷ [])) k r h)
  | inl y ↦ rw y (key_matched key k r h y (key_found k key r h g ∙ y))
]

item_read :
    (key : Text) (i : Item) (r : Text)
    → is_key key ≡ true
    → is_item i ≡ true
    → Rest r
    → (later : Text) → field_from (key ++ (equals ∷ [])) false true (drop 1 r) ≡ later
    → field_from (key ++ (equals ∷ [])) false true (show_item i r) ≡ elim i [
      | word w ↦ later
      | bare k v ↦ if text_eq k key then v else later
      | prose k v ↦ if text_eq k key then v else later
    ]
unfolding is_item show_item
item_read key (word w) r g h e later l =
    no_match (key ++ (equals ∷ [])) (w ++ r) (word_passed w key r h g e)
    ∙ skip_plain (key ++ (equals ∷ [])) w r (key_plain w h)
    ∙ field_from-Rest (key ++ (equals ∷ [])) r e
    ∙ l
item_read key (bare k v) r g h e later l =
    key_read key k (v ++ r) g (ground arith)
    ∙ ap₂ (λ x y. if text_eq k key then x else y) (log_value-bare v r (ground arith) e)
        (skip_plain (key ++ (equals ∷ [])) v r (ground arith)
          ∙ field_from-Rest (key ++ (equals ∷ [])) r e
          ∙ l)
item_read key (prose k v) r g h e later l =
    key_read key k (quote ∷ (v ++ (quote ∷ r))) g (ground arith)
    ∙ ap₂ (λ x y. if text_eq k key then x else y) (log_value-prose v r (ground arith))
        (open_quote (key ++ (equals ∷ [])) (v ++ (quote ∷ r))
          ∙ skip_prose (key ++ (equals ∷ [])) false v r (ground arith)
          ∙ field_from-Rest (key ++ (equals ∷ [])) r e
          ∙ l)

rest_read :
    (key : Text) (is : List Item)
    → is_key key ≡ true
    → are_items is ≡ true
    → field_from (key ++ (equals ∷ [])) false true (drop 1 (show_rest is)) ≡ value_of key is
unfolding are_items show_rest value_of field_from
rest_read key [] g h = refl
rest_read key (word w ∷ is) g h =
    item_read key (word w) (show_rest is) g (ground arith) (show_rest-Rest is) (value_of key is)
      (rest_read key is g (ground arith))
rest_read key (bare k v ∷ is) g h =
    item_read key (bare k v) (show_rest is) g (ground arith) (show_rest-Rest is) (value_of key is)
      (rest_read key is g (ground arith))
rest_read key (prose k v ∷ is) g h =
    item_read key (prose k v) (show_rest is) g (ground arith) (show_rest-Rest is) (value_of key is)
      (rest_read key is g (ground arith))

-- logField reads, of a line made of words and of fields whose values are bare or quoted, the value of the
-- first field with the key, or nothing if there is none: neither a word, nor the end of a longer key,
-- nor anything inside a quoted value is taken for the field.
pub log_field_lem :
    (key : Text) (items : List Item)
    → is_key key ≡ true
    → are_items items ≡ true
    → log_field (show_line items) key ≡ value_of key items
unfolding log_field show_line show_rest
log_field_lem key [] g h = rest_read key [] g h
log_field_lem key (i ∷ is) g h = rest_read key (i ∷ is) g h
