-- ===== src/Tunnel/Hostnames.antt =====
-- What parseConfig of tunnel/config.go returns.
use slimproxy.Base.{
  subst, ◌≡◌, ◌≢◌, refl, ap, ◌∙◌, ◌⊎◌, inl, inr, ℕ, Bool, true, false, not, ◌&&◌, ◌||◌, List, [],
  ◌∷◌, ◌++◌, some, Bool-cases, arith,
}
use mathlib.Core.List.{reverse, reverse-cons, reverse-append}
use slimproxy.Text.{Text, text_eq, text_eq_sound, trim_space, trim_left, is_space}
use slimproxy.Text.Split.{is_filled}
use slimproxy.Tunnel.World.{Config, ill_formed, config}
use slimproxy.Tunnel.Ingress.{
  Rule, Doc, is_alnum, matches_pattern, valid_tunnel_id, has, routes, collect, parse_config,
}

-- No hostname stands twice.
unfoldable pub Distinct : List Text → Type 0
Distinct [] = Unit
Distinct (x ∷ xs) = (has x xs ≡ false) × Distinct xs

-- Some rule routes a hostname.
unfoldable pub routed : Text → List Rule → Bool
routed h [] = false
routed h (r ∷ rules) = (routes r && text_eq r.hostname h) || routed h rules

has-append :
    (h : Text) (xs : List Text) (y : Text) → has h (xs ++ (y ∷ [])) ≡ has h xs || text_eq y h
unfolding has
has-append h [] y = ground arith
has-append h (x ∷ xs) y = ground (arith, has-append h xs y)

text_eq_sym : (s t : Text) → text_eq s t ≡ text_eq t s
unfolding text_eq
text_eq_sym [] [] = refl
text_eq_sym [] (b ∷ t) = refl
text_eq_sym (a ∷ s) [] = refl
text_eq_sym (a ∷ s) (b ∷ t) = ground (arith, text_eq_sym s t)

Distinct-append :
    (xs : List Text) (y : Text) → Distinct xs → has y xs ≡ false → Distinct (xs ++ (y ∷ []))
unfolding Distinct has
Distinct-append [] y d h = (refl, tt)
Distinct-append (x ∷ xs) y d h =
    (ground (arith, has-append x xs y, text_eq_sym x y), Distinct-append xs y d.1 (ground arith))

-- A rule that is not put out because its hostname was seen changes nothing about which hostnames are on the list.
seen_again :
    (r h : Text) (out : List Text) → has r out ≡ true → text_eq r h ≡ true → has h out ≡ true
seen_again r h out s e = subst (λ x. has x out ≡ true) (text_eq_sound r h e) s

collect_hostnames :
    (h : Text) (out : List Text) (rules : List Rule)
    → has h (collect out rules) ≡ has h out || routed h rules
unfolding collect routed
collect_hostnames h out [] = ground arith
collect_hostnames h out (r ∷ rules) = ground (
  arith,
  collect_hostnames h (out ++ (r.hostname ∷ [])) rules,
  collect_hostnames h out rules,
  has-append h out r.hostname,
  seen_again r.hostname h out,
)

collect-Distinct :
    (out : List Text) (rules : List Rule) → Distinct out → Distinct (collect out rules)
unfolding collect
collect-Distinct out [] d = d
collect-Distinct out (r ∷ rules) d = elim (Bool-cases (routes r && not (has r.hostname out))) [
  | inr e ↦ rw e (collect-Distinct out rules d)
  | inl e ↦ rw e (
      collect-Distinct (out ++ (r.hostname ∷ [])) rules
        (Distinct-append out r.hostname d (ground arith)))
]

-- A text that ends in a rune that is no space still does so when it is trimmed from the left.
trim_left-snoc :
    (s : Text) (c : ℕ)
    → is_space c ≡ false
    → (t : Text) × (trim_left (s ++ (c ∷ [])) ≡ t ++ (c ∷ []))
unfolding trim_left
trim_left-snoc [] c h = ([], rw h refl)
trim_left-snoc (a ∷ s) c h = elim (Bool-cases (is_space a)) [
  | inl e ↦ let (t, p) = trim_left-snoc s c h in (t, rw e p)
  | inr e ↦ (a ∷ s, rw e refl)
]

-- Trimming keeps a first rune that is no space.
trim_space-cons :
    (c : ℕ) (s : Text) → is_space c ≡ false → (t : Text) × (trim_space (c ∷ s) ≡ c ∷ t)
unfolding trim_space trim_left
trim_space-cons c s h =
    let (t, p) = trim_left-snoc (reverse s) c h in
    (
      reverse t,
      rw h (
          ap (λ x. reverse (trim_left x)) (reverse-cons c s)
          ∙ ap reverse p
          ∙ reverse-append t (c ∷ [])),
    )

nothing_twice : Distinct []
unfolding Distinct
nothing_twice = tt

dash_refused : (s : Text) → valid_tunnel_id (b'-' ∷ s) ≡ false
unfolding valid_tunnel_id matches_pattern is_alnum
dash_refused s = let (t, p) = trim_space-cons b'-' s refl in rw p refl

-- The first rune of a text, if it has one, is no dash.
unfoldable pub NoDash : Text → Type 0
NoDash [] = Unit
NoDash (c ∷ _) = c ≢ b'-'

valid-NoDash : (s : Text) → valid_tunnel_id s ≡ true → NoDash s
unfolding NoDash
valid-NoDash [] h = tt
valid-NoDash (c ∷ s) h = λ e. cc (dash_refused s, subst (λ x. valid_tunnel_id (x ∷ s) ≡ true) e h)

empty_unmatched : (t : Text) → is_filled t ≡ false → matches_pattern t ≡ false
unfolding is_filled matches_pattern
empty_unmatched [] h = refl
empty_unmatched (c ∷ t) h = cc h

empty_refused : (s : Text) → is_filled (trim_space s) ≡ false → valid_tunnel_id s ≡ false
unfolding valid_tunnel_id
empty_refused s h = empty_unmatched (trim_space s) h

parsed_of :
    (path : Text) (doc : Doc)
    → ((valid_tunnel_id doc.tunnel ≡ false) × (parse_config path (some doc) ≡ ill_formed))
      ⊎ ((valid_tunnel_id doc.tunnel ≡ true)
          × (parse_config path (some doc)
              ≡ config (record {
                tunnel = doc.tunnel;
                hostnames = collect [] doc.ingress;
                path = path;
              })))
unfolding parse_config
parsed_of path doc = elim (Bool-cases (is_filled (trim_space doc.tunnel))) [
  | inr f ↦ inl (empty_refused doc.tunnel f, rw f refl)
  | inl f ↦ elim (Bool-cases (valid_tunnel_id doc.tunnel)) [
    | inr v ↦ inl (v, rw f (rw v refl))
    | inl v ↦ inr (v, rw f (rw v refl))
  ]
]

-- parseConfig accepts a document exactly where validTunnelID accepts its tunnel. The configuration
-- then names this tunnel, which does not start with a dash, so that it is no flag of cloudflared, and lists,
-- once each, exactly the hostnames that some rule sends to an http or https origin.
pub parse_config_lem :
    (path : Text) (doc : Doc)
    → ((valid_tunnel_id doc.tunnel ≡ false) × (parse_config path (some doc) ≡ ill_formed))
      ⊎ ((c : Config) × (parse_config path (some doc) ≡ config c)
          × (c.tunnel ≡ doc.tunnel)
          × NoDash c.tunnel
          × Distinct c.hostnames
          × ((h : Text) → has h c.hostnames ≡ routed h doc.ingress))
unfolding has
parse_config_lem path doc = elim (parsed_of path doc) [
  | inl e ↦ inl e
  | inr (v, e) ↦ inr (
    record { tunnel = doc.tunnel; hostnames = collect [] doc.ingress; path = path },
    e,
    refl,
    valid-NoDash doc.tunnel v,
    collect-Distinct [] doc.ingress nothing_twice,
    λ h. collect_hostnames h [] doc.ingress,
  )
]
