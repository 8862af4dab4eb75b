-- ===== src/Journal/Keys.antt =====
-- The maps of journal/rejects.go, from reject keys to numbers.
use slimproxy.Base.{
  ℕ, ◌<◌, ◌≡◌, refl, true, false, List, [], ◌∷◌, if◌then◌else◌, arith, Bool-cases, inl, inr,
}
use slimproxy.Text.{text_eq_refl, text_eq_sound}
use slimproxy.Journal.Event.{Source}
use slimproxy.Journal.Rejects.{RejectKey, source_code, same_key, get, set}

pub same_key_refl : (k : RejectKey) → same_key k k ≡ true
unfolding same_key
same_key_refl k = ground (arith, text_eq_refl k.method, text_eq_refl k.path)

key_eq :
    (a b : RejectKey)
    → a.method ≡ b.method
    → a.path ≡ b.path
    → a.status ≡ b.status
    → a.src ≡ b.src
    → a ≡ b
key_eq a b e f g h = λ i. record { method = e i; path = f i; status = g i; src = h i }

source_eq : (a b : Source) → source_code a ≡ source_code b → a ≡ b
source_eq a b h = ground arith

pub same_key_sound : (a b : RejectKey) → same_key a b ≡ true → a ≡ b
unfolding same_key
same_key_sound a b h =
    key_eq a b (text_eq_sound a.method b.method (ground (arith, h)))
      (text_eq_sound a.path b.path (ground (arith, h))) (ground (arith, h))
      (source_eq a.src b.src (ground (arith, h)))

pub same_key_sym : (a b : RejectKey) → same_key a b ≡ false → same_key b a ≡ false
same_key_sym a b h = ground (arith, h, same_key_sound b a, same_key_refl a)

pub get-set :
    (k j : RejectKey) (v : ℕ) (m : List (RejectKey × ℕ))
    → get j (set k v m) ≡ (if same_key k j then v else get j m)
unfolding get set
get-set k j v [] = refl
get-set k j v ((i, n) ∷ m) = ground (
  arith,
  get-set k j v m,
  same_key_sound i k,
  same_key_sound i j,
  same_key_sound k j,
  same_key_refl i,
)

-- No key is there twice, and every count is above 0.
abbrev pub Fresh : RejectKey → List (RejectKey × ℕ) → Type 0
Fresh k [] = Unit {0}
Fresh k ((j, n) ∷ m) = (same_key j k ≡ false) × Fresh k m

abbrev pub IsMap : List (RejectKey × ℕ) → Type 0
IsMap [] = Unit {0}
IsMap ((k, n) ∷ m) = (0 < n) × Fresh k m × IsMap m

set-Fresh :
    (j k : RejectKey) (v : ℕ) (m : List (RejectKey × ℕ))
    → same_key j k ≡ false
    → Fresh k m
    → Fresh k (set j v m)
unfolding set
set-Fresh j k v [] h ok = (h, tt)
set-Fresh j k v ((i, n) ∷ m) h ok = ground (arith, h, ok.0, ok.1, set-Fresh j k v m h ok.1)

pub set-IsMap :
    (k : RejectKey) (v : ℕ) (m : List (RejectKey × ℕ)) → 0 < v → IsMap m → IsMap (set k v m)
unfolding set
set-IsMap k v [] pos ok = (pos, tt, tt)
set-IsMap k v ((j, n) ∷ m) pos ok = elim (Bool-cases (same_key j k)) [
  | inl same ↦ rw same (pos, ok.1, ok.2)
  | inr apart ↦
      rw apart (ok.0, set-Fresh k j v m (same_key_sym j k apart) ok.1, set-IsMap k v m pos ok.2)
]
