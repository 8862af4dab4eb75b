-- ===== src/Tunnel/Edges.antt =====
-- What countEdgeConnections of tunnel/connectivity.go counts.
use slimproxy.Base.{
  ◌≡◌, refl, ap, ap₂, ◌∙◌, ℕ, ◌+◌, Bool, true, false, ◌&&◌, List, [], ◌∷◌, ◌++◌, some, arith, leb,
  ◌==◌, if◌then◌else◌,
}
use slimproxy.Text.{Text}
use slimproxy.Text.Pieces.{free, split_by-free, split_by-append, free-append}
use slimproxy.Text.Split.{split, split_by, is_filled, cut}
use slimproxy.Envelope.Itoa.{value_from}
use slimproxy.Tunnel.Info.{
  is_decimal, is_lower, digits, max_int, atoi, is_colo, count_entry, count_parts, count_if, plus,
  count_entries, count_edge_connections,
}

-- An entry of the EDGE column: a data centre, with the digits of a count or without.
pub record Entry : Type 0 where
  pub many : Text
  pub colo : Text

unfoldable pub is_entry : Entry → Bool
unfolding digits is_colo is_lower is_decimal
is_entry e = digits e.many && leb (value_from 0 e.many) max_int && is_colo e.colo

unfoldable pub are_entries : List Entry → Bool
unfolding is_entry
are_entries [] = true
are_entries (e ∷ es) = is_entry e && are_entries es

unfoldable pub show_entry : Entry → Text
unfolding is_filled
show_entry e = if is_filled e.many then e.many ++ (b'x' ∷ e.colo) else e.colo

-- The column, its entries joined by commas.
unfoldable pub show_column : Entry → List Entry → Text
unfolding show_entry
show_column e [] = show_entry e
show_column e (f ∷ es) = show_entry e ++ (b',' ∷ show_column f es)

-- An entry without a count is one connection.
unfoldable pub connections : Entry → ℕ
unfolding is_filled
connections e = if is_filled e.many then value_from 0 e.many else 1

unfoldable pub total : List Entry → ℕ
unfolding connections
total [] = 0
total (e ∷ es) = connections e + total es

first_digit : (c : ℕ) (b : Bool) → is_decimal c && b ≡ true → is_decimal c ≡ true
first_digit c b h = ground arith

cut-digits : (d s : Text) → digits d ≡ true → cut b'x' (d ++ (b'x' ∷ s)) ≡ some (d, s)
unfolding cut digits is_decimal
cut-digits [] s h = refl
cut-digits (c ∷ d) s h = ground (arith, cut-digits d s)

counted_lem :
    (d s : Text)
    → digits d ≡ true
    → leb (value_from 0 d) max_int ≡ true
    → is_colo s ≡ true
    → count_parts (some (d, s)) ≡ some (value_from 0 d)
unfolding count_parts count_if atoi
counted_lem d s h l c = rw c (rw h (rw l refl))

lower_no_digit : (a : ℕ) → is_lower a ≡ true → is_decimal a ≡ false
unfolding is_lower is_decimal
lower_no_digit a h = ground arith

colo_one :
    (a : ℕ) (s : Text)
    → is_decimal a ≡ false
    → is_colo (a ∷ s) ≡ true
    → count_entry (a ∷ s) ≡ some 1
unfolding count_entry count_if
colo_one a s d h = rw d (rw h refl)

colo_start : (s : Text) → is_colo s ≡ true → count_entry s ≡ some 1
unfolding is_colo
colo_start [] h = cc h
colo_start (a ∷ []) h = cc h
colo_start (a ∷ b ∷ []) h = cc h
colo_start (a ∷ b ∷ c ∷ []) h = cc h
colo_start (a ∷ b ∷ c ∷ d ∷ s) h = colo_one a (b ∷ c ∷ d ∷ s) (lower_no_digit a (ground arith)) h

many_counted :
    (c : ℕ) (d s : Text)
    → digits (c ∷ d) ≡ true
    → leb (value_from 0 (c ∷ d)) max_int ≡ true
    → is_colo s ≡ true
    → count_entry ((c ∷ d) ++ (b'x' ∷ s)) ≡ some (value_from 0 (c ∷ d))
unfolding count_entry digits
many_counted c d s h l k =
    rw (first_digit c (digits d) h)
      (ap count_parts (cut-digits (c ∷ d) s h) ∙ counted_lem (c ∷ d) s h l k)

shown_counted :
    (d s : Text)
    → digits d ≡ true
    → leb (value_from 0 d) max_int ≡ true
    → is_colo s ≡ true
    → count_entry (if is_filled d then d ++ (b'x' ∷ s) else s)
      ≡ some (if is_filled d then value_from 0 d else 1)
unfolding is_filled
shown_counted [] s h l k = colo_start s k
shown_counted (c ∷ d) s h l k = many_counted c d s h l k

entry_counted : (e : Entry) → is_entry e ≡ true → count_entry (show_entry e) ≡ some (connections e)
unfolding is_entry show_entry connections
entry_counted e h = shown_counted e.many e.colo (ground arith) (ground arith) (ground arith)

is_comma : ℕ → Bool
is_comma c = c == b','

digits-free : (s : Text) → digits s ≡ true → free is_comma s ≡ true
unfolding digits is_decimal free is_comma
digits-free [] h = refl
digits-free (c ∷ s) h = ground (arith, digits-free s)

colo-free : (s : Text) → is_colo s ≡ true → free is_comma s ≡ true
unfolding is_colo is_lower is_decimal free is_comma
colo-free [] h = refl
colo-free (a ∷ []) h = cc h
colo-free (a ∷ b ∷ []) h = cc h
colo-free (a ∷ b ∷ c ∷ []) h = cc h
colo-free (a ∷ b ∷ c ∷ d ∷ s) h = ground (arith, digits-free s)

shown-free :
    (d s : Text)
    → digits d ≡ true
    → is_colo s ≡ true
    → free is_comma (if is_filled d then d ++ (b'x' ∷ s) else s) ≡ true
unfolding is_filled free is_comma
shown-free [] s h k = colo-free s k
shown-free (c ∷ d) s h k =
    free-append is_comma (c ∷ d) (b'x' ∷ s) (digits-free (c ∷ d) h) (colo-free s k)

entry-free : (e : Entry) → is_entry e ≡ true → free is_comma (show_entry e) ≡ true
unfolding is_entry show_entry
entry-free e h = shown-free e.many e.colo (ground arith) (ground arith)

-- The column is split at its commas into its entries, each of which is count_parts.
column_counted :
    (e : Entry) (es : List Entry)
    → is_entry e ≡ true
    → are_entries es ≡ true
    → count_entries (split_by is_comma (show_column e es)) ≡ some (total (e ∷ es))
unfolding show_column are_entries count_entries total plus is_comma
column_counted e [] h k =
    ap count_entries (split_by-free is_comma (show_entry e) (entry-free e h))
    ∙ ap (λ n. plus n (some 0)) (entry_counted e h)
column_counted e (f ∷ es) h k =
    ap count_entries
      (split_by-append is_comma (show_entry e) (show_column f es) b',' (entry-free e h) refl)
    ∙ ap₂ plus (entry_counted e h) (column_counted f es (ground arith) (ground arith))

-- countEdgeConnections counts, of an EDGE column whose entries name a data centre each, with a count or
-- without, the sum of the counts, an entry without one standing for one connection.
pub count_edge_connections_lem :
    (e : Entry) (es : List Entry)
    → is_entry e ≡ true
    → are_entries es ≡ true
    → count_edge_connections (show_column e es) ≡ some (total (e ∷ es))
unfolding count_edge_connections split is_comma
count_edge_connections_lem e es h k = column_counted e es h k
