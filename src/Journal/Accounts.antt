-- ===== src/Journal/Accounts.antt =====
-- RejectFolder of journal/rejects.go against a counter of one key.
use slimproxy.Base.{
  ℕ, suc, ◌≡◌, ◌≢◌, refl, sym, ap, subst, ◌∙◌, Bool, true, false, List, [], ◌∷◌, ◌++◌, ◌==◌,
  if◌then◌else◌, keep, arith, append-nil, Bool-cases, if-both, inl, inr,
}
use slimproxy.Text.{Text}
use slimproxy.Journal.Event.{Event, Source, normalise_path}
use slimproxy.Journal.Rejects.{
  RejectKey, same_key, get, Folder, new, add_key, add, row, rows, flush, close,
}
use slimproxy.Journal.Keys.{same_key_refl, same_key_sound, get-set, set-IsMap, Fresh, IsMap}

-- What happens to a folder: a request is refused, the ticker fires, or it is closed.
pub data Op : Type 0 where
  refuses : Text → List ℕ → ℕ → Source → ℕ → Op
  ticks : Op
  closes : Op

abbrev pub key_of : Text → List ℕ → ℕ → Source → RejectKey
key_of method path status src = record {
  method = method;
  path = normalise_path path;
  status = status;
  src = src;
}

abbrev pub apply : Folder → Op → Folder
apply f (refuses method path status src at) = add f method path status src at
apply f ticks = flush f
apply f closes = close f

abbrev pub run : Folder → List Op → Folder
run f [] = f
run f (op ∷ ops) = run (apply f op) ops

-- The counter of one key: the refusals since its last row, the time of the first of them, and the
-- rows.
pub record Tally : Type 0 where
  pub count : ℕ
  pub first : ℕ
  pub shut : Bool
  pub told : List Event

abbrev pub tell : RejectKey → Tally → Tally
tell k t = record t {
  count = 0;
  told = if t.count == 0 then t.told else t.told ++ row k t.first t.count ∷ [];
}

abbrev pub count_one : Tally → ℕ → Tally
count_one t at = record t { count = suc t.count; first = if t.count == 0 then at else t.first }

abbrev pub tally : RejectKey → Tally → Op → Tally
tally k t (refuses method path status src at) =
    if same_key (key_of method path status src) k then count_one t at else t
tally k t ticks = tell k t
tally k t closes = if t.shut then t else tell k (record t { shut = true })

abbrev pub tally_all : RejectKey → Tally → List Op → Tally
tally_all k t [] = t
tally_all k t (op ∷ ops) = tally_all k (tally k t op) ops

abbrev pub nothing : Tally
nothing = record { count = 0; first = 0; shut = false; told = [] }

-- The row is about this key.
abbrev pub is_row : RejectKey → Event → Bool
is_row k e =
    same_key (record { method = e.method; path = e.path; status = e.status; src = e.src }) k

rows-Fresh :
    (k : RejectKey) (m first : List (RejectKey × ℕ))
    → Fresh k m
    → keep (is_row k) (rows m first) ≡ []
unfolding rows
rows-Fresh k [] first ok = refl
rows-Fresh k ((j, n) ∷ m) first ok = rw ok.0 (rows-Fresh k m first ok.1)

-- The rows of a flush hold one row of a key that was counted, and none of another.
rows_of :
    (k : RejectKey) (m first : List (RejectKey × ℕ))
    → IsMap m
    → keep (is_row k) (rows m first)
      ≡ (if get k m == 0 then [] else row k (get k first) (get k m) ∷ [])
unfolding rows get
rows_of k [] first ok = refl
rows_of k ((j, n) ∷ m) first ok = elim (Bool-cases (same_key j k)) [
  | inl same ↦
      let e = same_key_sound j k same in
      let counted : (n == 0) ≡ false = ground (arith, ok.0) in
      rw (same, counted, rows-Fresh k m first (subst (λ i. Fresh i m) e ok.1))
        (ap (λ i. row i (get i first) n ∷ []) e)
  | inr apart ↦ rw apart (rows_of k m first ok.2)
]

-- The folder says of the key what the counter says.
pub record Tracks (k : RejectKey) (f : Folder) (t : Tally) : Type 0 where
  pub is_map : IsMap f.counts
  pub counted : get k f.counts ≡ t.count
  pub dated : t.count ≢ 0 → get k f.first_at ≡ t.first
  pub ended : f.closed ≡ t.shut
  pub told : keep (is_row k) f.emitted ≡ t.told

keep-append : (p : Event → Bool) (xs ys : List Event) → keep p (xs ++ ys) ≡ keep p xs ++ keep p ys
keep-append p [] ys = refl
keep-append p (x ∷ xs) ys = ground (arith, keep-append p xs ys)

pub flush-Tracks :
    (k : RejectKey) (f : Folder) (t : Tally) → Tracks k f t → Tracks k (flush f) (tell k t)
unfolding flush get
flush-Tracks k f t i = record {
  is_map = tt;
  counted = refl;
  dated = λ h. absurd (h refl);
  ended = i.ended;
  told = ground (
    arith,
    i.told,
    i.counted,
    i.dated,
    keep-append (is_row k) f.emitted (rows f.counts f.first_at),
    rows_of k f.counts f.first_at i.is_map,
    append-nil (keep (is_row k) f.emitted),
  );
}

add_same :
    (k : RejectKey) (at : ℕ) (f : Folder) (t : Tally)
    → Tracks k f t
    → Tracks k (add_key f k at) (count_one t at)
unfolding add_key
add_same k at f t i = record {
  is_map = set-IsMap k (suc (get k f.counts)) f.counts (omega arith) i.is_map;
  counted = ground (arith, get-set k k (suc (get k f.counts)) f.counts, same_key_refl k, i.counted);
  dated = λ _. ground (arith, get-set k k at f.first_at, same_key_refl k, i.counted, i.dated);
  ended = i.ended;
  told = i.told;
}

add_other :
    (k j : RejectKey) (at : ℕ) (f : Folder) (t : Tally)
    → same_key j k ≡ false
    → Tracks k f t
    → Tracks k (add_key f j at) t
unfolding add_key
add_other k j at f t apart i = record {
  is_map = set-IsMap j (suc (get j f.counts)) f.counts (omega arith) i.is_map;
  counted = get-set j k (suc (get j f.counts)) f.counts ∙ rw apart i.counted;
  dated = λ h.
      if-both (λ m. get k m ≡ t.first) (get j f.counts == 0)
        (get-set j k at f.first_at ∙ rw apart (i.dated h)) (i.dated h);
  ended = i.ended;
  told = i.told;
}

add_key-Tracks :
    (k j : RejectKey) (at : ℕ) (f : Folder) (t : Tally)
    → Tracks k f t
    → Tracks k (add_key f j at) (if same_key j k then count_one t at else t)
add_key-Tracks k j at f t i = elim (Bool-cases (same_key j k)) [
  | inl same ↦
      let e = same_key_sound j k same in
      rw same
        (subst (λ l. Tracks k (add_key f l at) (count_one t at)) (sym e) (add_same k at f t i))
  | inr apart ↦ rw apart (add_other k j at f t apart i)
]

shut-Tracks :
    (k : RejectKey) (f : Folder) (t : Tally)
    → Tracks k f t
    → Tracks k (record f { closed = true }) (record t { shut = true })
shut-Tracks k f t i = record {
  is_map = i.is_map;
  counted = i.counted;
  dated = i.dated;
  ended = refl;
  told = i.told;
}

apply-Tracks :
    (k : RejectKey) (f : Folder) (t : Tally) (op : Op)
    → Tracks k f t
    → Tracks k (apply f op) (tally k t op)
unfolding add close
apply-Tracks k f t (refuses method path status src at) i =
    add_key-Tracks k (key_of method path status src) at f t i
apply-Tracks k f t ticks i = flush-Tracks k f t i
apply-Tracks k f t closes i = elim (Bool-cases t.shut) [
  | inl again ↦ rw (i.ended, again) (shut-Tracks k f t i)
  | inr first ↦
      rw (i.ended, first)
        (flush-Tracks k (record f { closed = true }) (record t { shut = true })
          (shut-Tracks k f t i))
]

pub run-Tracks :
    (k : RejectKey) (f : Folder) (t : Tally) (ops : List Op)
    → Tracks k f t
    → Tracks k (run f ops) (tally_all k t ops)
run-Tracks k f t [] i = i
run-Tracks k f t (op ∷ ops) i =
    run-Tracks k (apply f op) (tally k t op) ops (apply-Tracks k f t op i)

pub new-Tracks : (k : RejectKey) → Tracks k new nothing
unfolding get
new-Tracks k = record {
  is_map = tt;
  counted = refl;
  dated = λ h. absurd (h refl);
  ended = refl;
  told = refl;
}

-- Whatever else is refused in between, the rows of one key are those of a counter of its own: one
-- row for each flush or first Close that finds refusals, with their number since the last row and
-- the time of the first of them.
pub rows_tallied :
    (k : RejectKey) (ops : List Op)
    → keep (is_row k) (run new ops).emitted ≡ (tally_all k nothing ops).told
rows_tallied k ops = (run-Tracks k new nothing ops (new-Tracks k)).told
