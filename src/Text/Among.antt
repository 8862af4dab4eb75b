-- ===== src/Text/Among.antt =====
-- The tests that a text is one of a list.
use slimproxy.Base.{
  ◌≡◌, refl, subst, Bool, true, false, ◌||◌, List, [], ◌∷◌, any, Among, Bool-cases, inl, inr,
}
use slimproxy.Text.{Text, text_eq, text_eq_sound, text_eq_refl}

pub any-Among : (t : Text) (ts : List Text) → any (λ u. text_eq t u) ts ≡ true → Among t ts
any-Among t [] e = absurd (cc e)
any-Among t (u ∷ us) e = elim (Bool-cases (text_eq t u)) [
  | inl y ↦ inl (text_eq_sound t u y)
  | inr n ↦ inr (any-Among t us (subst (λ b. b || any (λ u. text_eq t u) us ≡ true) n e))
]

pub Among-any : (t : Text) (ts : List Text) → Among t ts → any (λ u. text_eq t u) ts ≡ true
Among-any t [] m = absurd m
Among-any t (u ∷ us) (inl e) = rw e (rw (text_eq_refl u) refl)
Among-any t (u ∷ us) (inr m) = rw (Among-any t us m) (or_true (text_eq t u))
  where
    or_true : (b : Bool) → b || true ≡ true
    or_true true = refl
    or_true false = refl
