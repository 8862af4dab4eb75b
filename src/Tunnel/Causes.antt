-- ===== src/Tunnel/Causes.antt =====
-- Which cause classifyStartupLog of tunnel/connectivity.go names.
use slimproxy.Base.{
  ◌≡◌, refl, ap, ap₂, ◌∙◌, ℕ, Bool, true, false, ◌&&◌, ◌||◌, List, [], ◌∷◌, Option, any, arith, ltb,
  if◌then◌else◌, Bool-cases, inl, inr,
}
use slimproxy.Text.{Text, codes, text_eq, contains}
use slimproxy.Text.Split.{split, is_filled}
use slimproxy.Tunnel.Ingress.{has}
use slimproxy.Tunnel.Fields.{log_field}
use slimproxy.Tunnel.Startup.{
  add_unique, ha_shortfall, Evidence, no_evidence, Diagnosis, unknown_cause, fake_ip_edge,
  precheck_failed, edge_pool_collapsed, still_retrying, connected_marker, edge_fake_ip, note_edge,
  note_precheck, note_shortfall, note_dial, is_some_text, diagnose, note_line, gather,
  classify_startup_log,
}

-- startupCause.
pub data StartupCause : Type 0 where
  cause_unknown cause_fake_ip_edge cause_precheck_failed cause_edge_pool_collapsed
        cause_still_retrying :
      StartupCause

unfoldable pub cause : Diagnosis → StartupCause
cause unknown_cause = cause_unknown
cause (fake_ip_edge _ _ _ _) = cause_fake_ip_edge
cause (precheck_failed _ _ _) = cause_precheck_failed
cause (edge_pool_collapsed _ _) = cause_edge_pool_collapsed
cause (still_retrying _ _) = cause_still_retrying

-- The first cause that there is evidence of.
abbrev pub most_specific : Bool → Bool → Bool → Bool → StartupCause
most_specific fake failing shortfall retrying =
    if fake
    then cause_fake_ip_edge
    else if failing
    then cause_precheck_failed
    else if shortfall
    then cause_edge_pool_collapsed
    else if retrying
    then cause_still_retrying
    else cause_unknown

most_specific-cong :
    {a b c d a' b' c' d' : Bool}
    → a ≡ a'
    → b ≡ b'
    → c ≡ c'
    → d ≡ d'
    → most_specific a b c d ≡ most_specific a' b' c' d'
most_specific-cong {c = c} {d = d} {a' = a'} {b' = b'} p q r s =
    ap₂ (λ x y. most_specific x y c d) p q ∙ ap₂ (λ x y. most_specific a' b' x y) r s

-- What a line shows by itself: a failed component of the pre-check, a shortfall, a failed dial.
unfoldable pub fails_check : Text → Bool
fails_check line =
    contains line (codes "precheck")
    && is_filled (log_field line (codes "component"))
    && text_eq (log_field line (codes "status")) (codes "fail")

unfoldable pub shows_shortfall : Text → Bool
shows_shortfall line =
    contains line (codes "HA connections but I can give you at most")
    && is_filled (ha_shortfall line).0

unfoldable pub shows_dial : Text → Bool
shows_dial line = contains line (codes "Failed to dial")

module _ (to4 : Text → Option (ℕ × ℕ × ℕ × ℕ)) where
  unfoldable pub shows_fake : Text → Bool
  shows_fake line = is_filled (edge_fake_ip to4 line)

  -- The cause that a log deserves: the most specific one that some line shows.
  unfoldable pub deserved_cause : Text → Bool → StartupCause
  deserved_cause log alive =
      let lines = split b'\n' log in
      if contains log connected_marker
      then cause_unknown
      else most_specific (any (λ l. shows_fake l) lines) (any (λ l. fails_check l) lines)
          (any (λ l. shows_shortfall l) lines) (any (λ l. shows_dial l) lines && alive)

is_some_text-add_unique : (list : List Text) (v : Text) → is_some_text (add_unique list v) ≡ true
unfolding is_some_text add_unique has
is_some_text-add_unique [] v = refl
is_some_text-add_unique (x ∷ xs) v = ground arith

or_false : (b : Bool) → b ≡ b || false
or_false true = refl
or_false false = refl

or_assoc : (a b c : Bool) → a || b || c ≡ a || (b || c)
or_assoc true b c = refl
or_assoc false b c = refl

or_true : (b : Bool) → true ≡ b || true
or_true true = refl
or_true false = refl

note_dial_keeps :
    (line : Text) (e : Evidence)
    → ((note_dial line e).fake_edges ≡ e.fake_edges)
      × ((note_dial line e).failed ≡ e.failed)
      × ((note_dial line e).ha_wanted ≡ e.ha_wanted)
      × (ltb 0 (note_dial line e).dial_fails ≡ ltb 0 e.dial_fails || shows_dial line)
unfolding note_dial shows_dial
note_dial_keeps line e = elim (Bool-cases (contains line (codes "Failed to dial"))) [
  | inl h ↦ rw h (refl, refl, refl, ground arith)
  | inr h ↦ rw h (refl, refl, refl, ground arith)
]

note_shortfall_keeps :
    (line : Text) (e : Evidence)
    → ((note_shortfall line e).fake_edges ≡ e.fake_edges)
      × ((note_shortfall line e).failed ≡ e.failed)
      × ((note_shortfall line e).dial_fails ≡ e.dial_fails)
      × (is_filled (note_shortfall line e).ha_wanted
          ≡ is_filled e.ha_wanted || shows_shortfall line)
unfolding note_shortfall shows_shortfall
note_shortfall_keeps line e =
    elim (Bool-cases (contains line (codes "HA connections but I can give you at most"))) [
      | inr h ↦ rw h (refl, refl, refl, ground arith)
      | inl h ↦ elim (Bool-cases (is_filled (ha_shortfall line).0)) [
        | inr k ↦ rw h (rw k (refl, refl, refl, ground arith))
        | inl k ↦ rw h (rw k (refl, refl, refl, k ∙ or_true (is_filled e.ha_wanted)))
      ]
    ]

note_precheck_keeps :
    (line : Text) (e : Evidence)
    → ((note_precheck line e).fake_edges ≡ e.fake_edges)
      × ((note_precheck line e).ha_wanted ≡ e.ha_wanted)
      × ((note_precheck line e).dial_fails ≡ e.dial_fails)
      × (is_some_text (note_precheck line e).failed ≡ is_some_text e.failed || fails_check line)
unfolding note_precheck fails_check
note_precheck_keeps line e = elim (Bool-cases (contains line (codes "precheck"))) [
  | inr h ↦ rw h (refl, refl, refl, ground arith)
  | inl h ↦ elim (Bool-cases (is_filled (log_field line (codes "component")))) [
    | inr k ↦ rw h (rw k (refl, refl, refl, ground arith))
    | inl k ↦ elim (Bool-cases (text_eq (log_field line (codes "status")) (codes "fail"))) [
      | inl f ↦ rw h (
          rw k (
            rw f (
              refl,
              refl,
              refl,
              is_some_text-add_unique e.failed (log_field line (codes "component"))
                  ∙ or_true (is_some_text e.failed),
            )))
      | inr f ↦ elim (Bool-cases (text_eq (log_field line (codes "status")) (codes "pass"))) [
        | inl g ↦ rw h (rw k (rw f (rw g (refl, refl, refl, ground arith))))
        | inr g ↦ rw h (rw k (rw f (rw g (refl, refl, refl, ground arith))))
      ]
    ]
  ]
]

module _ (to4 : Text → Option (ℕ × ℕ × ℕ × ℕ)) where
  note_edge_keeps :
      (line : Text) (e : Evidence)
      → ((note_edge to4 line e).failed ≡ e.failed)
        × ((note_edge to4 line e).ha_wanted ≡ e.ha_wanted)
        × ((note_edge to4 line e).dial_fails ≡ e.dial_fails)
        × (is_some_text (note_edge to4 line e).fake_edges
            ≡ is_some_text e.fake_edges || shows_fake to4 line)
  unfolding note_edge shows_fake
  note_edge_keeps line e = elim (Bool-cases (is_filled (edge_fake_ip to4 line))) [
    | inr h ↦ rw h (refl, refl, refl, ground arith)
    | inl h ↦ rw h (
      refl,
      refl,
      refl,
      is_some_text-add_unique e.fake_edges (edge_fake_ip to4 line)
          ∙ or_true (is_some_text e.fake_edges),
    )
  ]

  -- What one line adds to the evidence, cause by cause.
  note_line_lem :
      (line : Text) (e : Evidence)
      → (is_some_text (note_line to4 line e).fake_edges
          ≡ is_some_text e.fake_edges || shows_fake to4 line)
        × (is_some_text (note_line to4 line e).failed ≡ is_some_text e.failed || fails_check line)
        × (is_filled (note_line to4 line e).ha_wanted
            ≡ is_filled e.ha_wanted || shows_shortfall line)
        × (ltb 0 (note_line to4 line e).dial_fails ≡ ltb 0 e.dial_fails || shows_dial line)
  unfolding note_line
  note_line_lem line e =
      let e1 = note_edge to4 line e in
      let e2 = note_precheck line e1 in
      let e3 = note_shortfall line e2 in
      let k1 = note_edge_keeps line e in
      let k2 = note_precheck_keeps line e1 in
      let k3 = note_shortfall_keeps line e2 in
      let k4 = note_dial_keeps line e3 in
      (
        ap is_some_text (k4.0 ∙ k3.0 ∙ k2.0) ∙ k1.3,
        ap is_some_text (k4.1 ∙ k3.1) ∙ k2.3 ∙ ap (λ x. is_some_text x || fails_check line) k1.0,
        ap is_filled k4.2 ∙ k3.3 ∙ ap (λ x. is_filled x || shows_shortfall line) (k2.1 ∙ k1.1),
        k4.3 ∙ ap (λ n. ltb 0 n || shows_dial line) (k3.2 ∙ k2.2 ∙ k1.2),
      )

  gather_lem :
      (e : Evidence) (lines : List Text)
      → (is_some_text (gather to4 e lines).fake_edges
          ≡ is_some_text e.fake_edges || any (λ l. shows_fake to4 l) lines)
        × (is_some_text (gather to4 e lines).failed
            ≡ is_some_text e.failed || any (λ l. fails_check l) lines)
        × (is_filled (gather to4 e lines).ha_wanted
            ≡ is_filled e.ha_wanted || any (λ l. shows_shortfall l) lines)
        × (ltb 0 (gather to4 e lines).dial_fails
            ≡ ltb 0 e.dial_fails || any (λ l. shows_dial l) lines)
  unfolding gather
  gather_lem e [] = (or_false _, or_false _, or_false _, or_false _)
  gather_lem e (line ∷ lines) =
      let g = gather_lem (note_line to4 line e) lines in
      let n = note_line_lem line e in
      (
        g.0
            ∙ ap (λ b. b || any (λ l. shows_fake to4 l) lines) n.0
            ∙ or_assoc (is_some_text e.fake_edges) (shows_fake to4 line)
                (any (λ l. shows_fake to4 l) lines),
        g.1
            ∙ ap (λ b. b || any (λ l. fails_check l) lines) n.1
            ∙ or_assoc (is_some_text e.failed) (fails_check line) (any (λ l. fails_check l) lines),
        g.2
            ∙ ap (λ b. b || any (λ l. shows_shortfall l) lines) n.2
            ∙ or_assoc (is_filled e.ha_wanted) (shows_shortfall line)
                (any (λ l. shows_shortfall l) lines),
        g.3
            ∙ ap (λ b. b || any (λ l. shows_dial l) lines) n.3
            ∙ or_assoc (ltb 0 e.dial_fails) (shows_dial line) (any (λ l. shows_dial l) lines),
      )

  -- The cause of what was gathered is decided by which kinds of evidence there are.
  diagnose-cause :
      (alive : Bool) (e : Evidence)
      → cause (diagnose alive e)
        ≡ most_specific
            (is_some_text e.fake_edges)
            (is_some_text e.failed)
            (is_filled e.ha_wanted)
            (ltb 0 e.dial_fails && alive)
  unfolding diagnose cause
  diagnose-cause alive e = ground arith

  -- The cause that classifyStartupLog names is the most specific one that some line of the log shows,
  -- wherever the line stands: a fake edge address, a failed component, a shortfall, or, of a live
  -- process only, a failed dial; and none of a log that shows a registered connection.
  pub classify_startup_log-cause :
      (log : Text) (alive : Bool)
      → cause (classify_startup_log to4 log alive) ≡ deserved_cause to4 log alive
  unfolding classify_startup_log deserved_cause cause is_some_text is_filled
  classify_startup_log-cause log alive =
      let lines = split b'\n' log in
      let g = gather_lem no_evidence lines in
      elim (Bool-cases (contains log connected_marker)) [
        | inl h ↦ rw h refl
        | inr h ↦ rw h (
            diagnose-cause alive (gather to4 no_evidence lines)
            ∙ most_specific-cong g.0 g.1 g.2 (ap (λ b. b && alive) g.3))
      ]
