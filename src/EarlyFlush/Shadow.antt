-- ===== src/EarlyFlush/Shadow.antt =====
-- The header map after commitShadowLocked of proxy/earlyflush.go, and the shadow.
use slimproxy.Base.{
  ◌≡◌, refl, ap, true, Option, none, some, List, [], ◌∷◌, is_some, Bool-cases, inl, inr, arith,
}
use slimproxy.Text.{Text, text_eq, text_eq_sound}
use slimproxy.Wire.{Header, lookup, lookup-put, lookup-remove}
use slimproxy.EarlyFlush.Writer.{prune_keys, copy_keys, committed_header}

abbrev or_else : Option (List Text) → Option (List Text) → Option (List Text)
or_else none d = d
or_else (some vs) d = some vs

lookup-copy_keys :
    (j : Text) (s d : Header) → lookup j (copy_keys s d) ≡ or_else (lookup j s) (lookup j d)
unfolding copy_keys lookup
lookup-copy_keys j [] d = refl
lookup-copy_keys j ((k, vs) ∷ s) d =
    ground (arith, lookup-put k j vs (copy_keys s d), lookup-copy_keys j s d)

prune_keys-none :
    (j : Text) (ks s d : Header) → lookup j d ≡ none → lookup j (prune_keys ks s d) ≡ none
unfolding prune_keys
prune_keys-none j [] s d e = e
prune_keys-none j ((k, vs) ∷ ks) s d e =
    prune_keys-none j ks s _ (ground (arith, lookup-remove k j d))

prune_keys-removes :
    (j : Text) (ks s d : Header)
    → lookup j s ≡ none
    → is_some (lookup j ks) ≡ true
    → lookup j (prune_keys ks s d) ≡ none
unfolding prune_keys
prune_keys-removes j [] s d e has = absurd (unfold lookup in cc)
prune_keys-removes j ((k, vs) ∷ ks) s d e has = elim (Bool-cases (text_eq k j)) [
  | inl hit ↦
      prune_keys-none j ks s _
        (ground (arith, lookup-remove k j d, ap (λ t. lookup t s) (text_eq_sound k j hit)))
  | inr miss ↦ prune_keys-removes j ks s _ e (unfold lookup in rw miss at has)
]

pruned : (j : Text) (s d : Header) → lookup j s ≡ none → lookup j (prune_keys d s d) ≡ none
pruned j s d e = elim (Bool-cases (is_some (lookup j d))) [
  | inl has ↦ prune_keys-removes j d s d e has
  | inr lacks ↦ prune_keys-none j d s d (ground arith)
]

-- Committing the shadow replaces the real header map: afterwards every key, those that the handler
-- deleted included, has what it has in the shadow.
pub lookup-committed_header :
    (k : Text) (shadow dst : Header) → lookup k (committed_header shadow dst) ≡ lookup k shadow
unfolding committed_header
lookup-committed_header k shadow dst =
    ground (arith, lookup-copy_keys k shadow (prune_keys dst shadow dst), pruned k shadow dst)
