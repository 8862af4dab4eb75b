-- ===== src/Credentials/Spared.antt =====
-- That credentials/credentials.go does not remove the last credential that can be used.
use slimproxy.Base.{
  ℕ, ◌≡◌, refl, sym, ap, ◌∙◌, subst, Bool, true, false, not, ◌&&◌, ◌||◌, List, [], ◌∷◌, keep, any,
  length, ◌==◌, arith, Bool-cases, inl, inr, if◌then◌else◌, All,
}
use slimproxy.Text.{Text, text_eq, trim_space}
use slimproxy.Text.Split.{is_filled}
use slimproxy.Credentials.Store.{
  Credential, Entry, Lib, Found, one, not_found, ambiguous, removed, recoverable, remaining,
  remove_resolved, remove_found, remove, list_dir, find, of_matches, matches_id,
}

-- A file is one credential's.
unfoldable pub Owns : List Credential → Credential → Type 0
Owns creds d = All (λ c. text_eq c.file d.file ≡ true → c ≡ d) creds

-- A credential beside the target can be used or refreshed.
unfoldable pub spared : ℕ → Credential → Credential → Bool
spared now target c = not (text_eq c.file target.file) && recoverable now c

All-keep : {A : Type 0} (P : A → Type 0) (p : A → Bool) (xs : List A) → All P xs → All P (keep p xs)
All-keep P p [] h = tt
All-keep P p (x ∷ xs) h = elim (Bool-cases (p x)) [
  | inl e ↦ rw e (h.0, All-keep P p xs h.1)
  | inr e ↦ rw e (All-keep P p xs h.1)
]

any-keep :
    {A : Type 0} (p : A → Bool) (xs : List A) → (length (keep p xs) == 0) ≡ false → any p xs ≡ true
any-keep p [] h = sym h
any-keep p (x ∷ xs) h = elim (Bool-cases (p x)) [
  | inl e ↦ rw e refl
  | inr e ↦ rw e (
      any-keep p xs
        (subst (λ b. (length (if b then x ∷ keep p xs else keep p xs) == 0) ≡ false) e h))
]

picked :
    (P : Credential → Type 0) (cs : List Credential) (target : Credential)
    → of_matches cs ≡ one target
    → All P cs
    → P target
unfolding of_matches
picked P [] target e a = absurd (cc e)
picked P (c ∷ []) target e a = subst P (cc e) a.0
picked P (c ∷ d ∷ cs) target e a = absurd (cc e)

found-Owns :
    (lib : Lib) (creds : List Credential) (id : Text) (target : Credential)
    → All (λ d. Owns creds d) creds
    → find lib creds id ≡ one target
    → Owns creds target
unfolding find
found-Owns lib creds id target a e = elim (Bool-cases (is_filled (trim_space id))) [
  | inl f ↦
      picked (λ d. Owns creds d) (keep (λ c. matches_id lib (trim_space id) c) creds) target
        (subst
          (λ b.
            (if not b
              then not_found
              else of_matches (keep (λ c. matches_id lib (trim_space id) c) creds))
            ≡ one target)
          f e)
        (All-keep (λ d. Owns creds d) (λ c. matches_id lib (trim_space id) c) creds a)
  | inr f ↦ absurd (
      never (
        subst
          (λ b.
            (if not b
              then not_found
              else of_matches (keep (λ c. matches_id lib (trim_space id) c) creds))
            ≡ one target)
          f e))
]
  where
    never : not_found ≡ one target → ⊥
    never e = cc e

both : (b : Bool) → b ≡ true → b ≡ false → ⊥
both b t f = cc (t, f)

-- Where the target cannot be recovered, what can be recovered is another.
another :
    (now : ℕ) (target : Credential) (creds : List Credential)
    → recoverable now target ≡ false
    → Owns creds target
    → any (λ c. recoverable now c) creds ≡ true
    → any (λ c. spared now target c) creds ≡ true
unfolding Owns spared
another now target [] r o a = a
another now target (c ∷ creds) r o a = elim (Bool-cases (text_eq c.file target.file)) [
  | inl e ↦ rw e (
      another now target creds r o.1 (
        subst (λ b. b || any (λ c. recoverable now c) creds ≡ true)
          (ap (recoverable now) (o.0 e) ∙ r) a))
  | inr e ↦ elim (Bool-cases (recoverable now c)) [
    | inl y ↦ rw e (rw y refl)
    | inr n ↦ rw e (
        rw n (
          another now target creds r o.1
            (subst (λ b. b || any (λ c. recoverable now c) creds ≡ true) n a)))
  ]
]

-- What a removal that was not forced and went through says.
went_through :
    (removes : Text → Bool) (creds : List Credential) (target : Credential) (now : ℕ) (file : Text)
    → remove_resolved removes creds target false now ≡ removed file
    → (target.file ≡ file)
      × ((recoverable now target && length (remaining now target creds) == 0) ≡ false)
unfolding remove_resolved
went_through removes creds target now file e = ground (arith, e)

others_spared :
    (removes : Text → Bool) (creds : List Credential) (target : Credential) (now : ℕ) (file : Text)
    → Owns creds target
    → any (λ c. recoverable now c) creds ≡ true
    → remove_resolved removes creds target false now ≡ removed file
    → any (λ c. spared now target c) creds ≡ true
unfolding remaining spared
others_spared removes creds target now file o a e = elim (Bool-cases (recoverable now target)) [
  | inr n ↦ another now target creds n o a
  | inl y ↦
      any-keep (λ c. spared now target c) creds
        (subst (λ b. (b && length (remaining now target creds) == 0) ≡ false) y
          (went_through removes creds target now file e).1)
]

-- A removal by hand that goes through without force removes the file of the one credential that the id names, and where one of the
-- directory could be used or refreshed before, one beside it can be after. In a directory a path is one file's.
pub remove_lem :
    (lib : Lib) (removes : Text → Bool) (entries : List Entry) (id : Text) (now : ℕ) (file : Text)
    → All (λ d. Owns (list_dir lib entries) d) (list_dir lib entries)
    → any (λ c. recoverable now c) (list_dir lib entries) ≡ true
    → remove lib removes entries id false now ≡ removed file
    → (target : Credential) × (find lib (list_dir lib entries) id ≡ one target)
      × (target.file ≡ file)
      × (any (λ c. spared now target c) (list_dir lib entries) ≡ true)
unfolding remove remove_found
remove_lem lib removes entries id now file o a e =
    let creds = list_dir lib entries in go (find lib creds id) refl e
  where
    go :
        (f : Found)
        → find lib (list_dir lib entries) id ≡ f
        → remove_found lib removes (list_dir lib entries) false now f ≡ removed file
        → (target : Credential) × (find lib (list_dir lib entries) id ≡ one target)
          × (target.file ≡ file)
          × (any (λ c. spared now target c) (list_dir lib entries) ≡ true)
    go (one target) w e = (
      target,
      w,
      (went_through removes (list_dir lib entries) target now file e).0,
      others_spared removes (list_dir lib entries) target now file
          (found-Owns lib (list_dir lib entries) id target o w) a e,
    )
    go not_found w e = absurd (cc e)
    go (ambiguous names) w e = absurd (cc e)
