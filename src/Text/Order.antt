-- ===== src/Text/Order.antt =====
-- The order of texts.
use slimproxy.Base.{◌≡◌, refl, Bool, true, false, ◌&&◌, ◌||◌, [], ◌∷◌, ltb, ◌==◌, arith}
use slimproxy.Text.{Text}

-- A text is before another: the byte order, which is that of the code points.
unfoldable pub text_before : Text → Text → Bool
text_before s [] = false
text_before [] (d ∷ t) = true
text_before (c ∷ s) (d ∷ t) = ltb c d || (c == d && text_before s t)

pub text_before-asym : (s t : Text) → text_before s t ≡ true → text_before t s ≡ false
unfolding text_before
text_before-asym [] [] h = refl
text_before-asym [] (d ∷ t) h = refl
text_before-asym (c ∷ s) [] h = cc h
text_before-asym (c ∷ s) (d ∷ t) h = ground (arith, text_before-asym s t)
