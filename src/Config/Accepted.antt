-- ===== src/Config/Accepted.antt =====
-- Which configurations Config.Validate of proxy/config.go accepts.
use slimproxy.Base.{
  ℤ, pos, negsuc, ℕ, suc, ◌≤◌, ◌≡◌, refl, sym, Bool, true, false, not, ◌&&◌, List, [], ◌∷◌, ◌++◌,
  arith, Bool-cases, inl, inr, ◌⊎◌, ◌↔◌, if◌then◌else◌, All,
}
use slimproxy.Text.{Text, codes, trim_space, has_prefix, contains}
use slimproxy.Config.Validate.{
  Config, Lib, Complaint, when, is_negative, is_port, is_blank, is_placeholder, blank_key,
  placeholder_key, key_complaints, is_empty, nothing_to_fall_from, not_http, not_loopback,
  storage_backend, port_out_of_range, no_api_keys, open_to_anyone, unknown_lang, unknown_ttl,
  models_listed, negative_retry, negative_interval, no_scheme, management_password, is_known_lang,
  is_known_ttl, storage_backend_env_vars, is_set, is_loopback_host, fallback_proxy_is_loopback,
  fallback_complaints, check_management_password_env, set_names, check_storage_backend_env,
  validate, tests, join_all,
}

-- A port that can be listened on.
unfoldable pub Port : ℤ → Type 0
Port (pos n) = (1 ≤ n) × (n ≤ 65535)
Port (negsuc n) = ⊥

-- A configuration that passes each test of Validate.
pub record Passed (lib : Lib) (c : Config) : Type 0 where
  pub port_works : Port c.port
  pub guarded :
      (is_empty c.api_keys ≡ false)
      ⊎ ((c.allow_unauthenticated ≡ true) × (is_loopback_host lib c.host ≡ true))
  pub keys_filled : All (λ k. is_blank k ≡ false) c.api_keys
  pub lang_known : is_known_lang c.lang ≡ true
  pub ttl_known : is_known_ttl (trim_space c.cache_ttl) ≡ true
  pub models_unlisted : is_empty c.models ≡ true
  pub retry_counts : is_negative c.request_retry ≡ false
  pub interval_counts : is_negative c.max_retry_interval ≡ false
  pub schemed : (is_empty c.proxy_url ≡ true) ⊎ (contains c.proxy_url (codes "://") ≡ true)
  pub falls_from :
      c.proxy_fallback_direct ≡ true
      → (is_empty c.proxy_url ≡ false)
        × (has_prefix c.proxy_url (codes "http://") ≡ true)
        × (fallback_proxy_is_loopback lib c.proxy_url ≡ true)
  pub keys_secret : All (λ k. is_placeholder k ≡ false) c.api_keys
  pub unmanaged : is_set (lib.env (codes "MANAGEMENT_PASSWORD")) ≡ false
  pub file_store : All (λ n. is_set (lib.env n) ≡ false) storage_backend_env_vars

split-nil : {A : Type 0} (xs ys : List A) → xs ++ ys ≡ [] → (xs ≡ []) × (ys ≡ [])
split-nil [] ys e = (refl, e)
split-nil (x ∷ xs) ys e = absurd (cc e)

joined : {A : Type 0} (xs ys : List A) → xs ≡ [] → ys ≡ [] → xs ++ ys ≡ []
joined xs ys e f = rw e f

when-nil : (b : Bool) (c : Complaint) → when b c ≡ [] → b ≡ false
unfolding when
when-nil true c e = absurd (cc e)
when-nil false c e = refl

no_when : (b : Bool) (c : Complaint) → b ≡ false → when b c ≡ []
unfolding when
no_when b c e = rw e refl

keys-nil :
    (bad : Text → Bool) (complaint : ℕ → Complaint) (i : ℕ) (ks : List Text)
    → key_complaints bad complaint i ks ≡ []
    → All (λ k. bad k ≡ false) ks
unfolding key_complaints
keys-nil bad complaint i [] e = tt
keys-nil bad complaint i (k ∷ ks) e =
    let s = split-nil (when (bad k) (complaint i)) (key_complaints bad complaint (suc i) ks) e in
    (when-nil (bad k) (complaint i) s.0, keys-nil bad complaint (suc i) ks s.1)

no_keys :
    (bad : Text → Bool) (complaint : ℕ → Complaint) (i : ℕ) (ks : List Text)
    → All (λ k. bad k ≡ false) ks
    → key_complaints bad complaint i ks ≡ []
unfolding key_complaints
no_keys bad complaint i [] a = refl
no_keys bad complaint i (k ∷ ks) a =
    joined (when (bad k) (complaint i)) (key_complaints bad complaint (suc i) ks)
      (no_when (bad k) (complaint i) a.0) (no_keys bad complaint (suc i) ks a.1)

is_port-Port : (p : ℤ) → (not (is_port p) ≡ false) ↔ Port p
unfolding is_port Port
is_port-Port (pos n) = ((λ e. ground (arith, e)), (λ h. ground (arith, h)))
is_port-Port (negsuc n) = ((λ e. absurd (cc e)), (λ h. absurd h))

negated : (b : Bool) → (not b ≡ false) ↔ (b ≡ true)
negated true = ((λ e. refl), (λ e. refl))
negated false = ((λ e. sym e), (λ e. sym e))

guard_lem :
    (empty allow loopback : Bool)
    → ((empty && not allow ≡ false) × (allow && empty && not loopback ≡ false))
      ↔ ((empty ≡ false) ⊎ ((allow ≡ true) × (loopback ≡ true)))
guard_lem false allow loopback = ((λ h. inl refl), (λ h. (refl, no_and allow)))
  where
    no_and : (b : Bool) → b && false && not loopback ≡ false
    no_and true = refl
    no_and false = refl
guard_lem true false loopback =
    ((λ h. absurd (cc h.0)), (λ h. absurd (elim h [ inl e ↦ cc e | inr e ↦ cc e.0 ])))
guard_lem true true true = ((λ h. inr (refl, refl)), (λ h. (refl, refl)))
guard_lem true true false =
    ((λ h. absurd (cc h.1)), (λ h. absurd (elim h [ inl e ↦ cc e | inr e ↦ cc e.1 ])))

scheme_lem : (empty has : Bool) → (not empty && not has ≡ false) ↔ ((empty ≡ true) ⊎ (has ≡ true))
scheme_lem true has = ((λ h. inl refl), (λ h. refl))
scheme_lem false true = ((λ h. inr refl), (λ h. refl))
scheme_lem false false =
    ((λ h. absurd (cc h)), (λ h. absurd (elim h [ inl e ↦ cc e | inr e ↦ cc e ])))

gate :
    (b empty http loopback : Bool)
    → ((if b
          then (if empty
              then nothing_to_fall_from ∷ []
              else if not http
              then not_http ∷ []
              else if not loopback
              then not_loopback ∷ []
              else [])
          else [])
        ≡ [])
      ↔ (b ≡ true → (empty ≡ false) × (http ≡ true) × (loopback ≡ true))
gate false empty http loopback = ((λ h e. absurd (cc e)), (λ h. refl))
gate true true http loopback = ((λ h. absurd (cc h)), (λ h. absurd (cc (h refl).0)))
gate true false false loopback = ((λ h. absurd (cc h)), (λ h. absurd (cc (h refl).1)))
gate true false true false = ((λ h. absurd (cc h)), (λ h. absurd (cc (h refl).2)))
gate true false true true = ((λ h e. (refl, refl, refl)), (λ h. refl))

fallback_lem :
    (lib : Lib) (b : Bool) (url : Text)
    → ((if b then fallback_complaints lib url else []) ≡ []) ↔ (
        b ≡ true
        → (is_empty url ≡ false)
          × (has_prefix url (codes "http://") ≡ true)
          × (fallback_proxy_is_loopback lib url ≡ true))
unfolding fallback_complaints
fallback_lem lib b url =
    gate b (is_empty url) (has_prefix url (codes "http://")) (fallback_proxy_is_loopback lib url)

names_lem :
    (lib : Lib) (ns : List Text)
    → (set_names lib ns ≡ []) ↔ All (λ n. is_set (lib.env n) ≡ false) ns
unfolding set_names
names_lem lib [] = ((λ e. tt), (λ e. refl))
names_lem lib (n ∷ ns) =
    let ih = names_lem lib ns in
    elim (Bool-cases (is_set (lib.env n))) [
      | inl e ↦ rw e ((λ h. absurd (cc h)), (λ h. absurd (cc h.0)))
      | inr e ↦ rw e ((λ h. (refl, ih.0 h)), (λ h. ih.1 h.1))
    ]

store_lem :
    (names : List Text)
    → ((if is_empty names then [] else storage_backend names ∷ []) ≡ []) ↔ (names ≡ [])
unfolding is_empty
store_lem [] = ((λ e. refl), (λ e. refl))
store_lem (n ∷ ns) = ((λ e. absurd (cc e)), (λ e. absurd (cc e)))

join_all-nil : (css : List (List Complaint)) → (join_all css ≡ []) ↔ All (λ cs. cs ≡ []) css
unfolding join_all
join_all-nil [] = ((λ e. tt), (λ a. refl))
join_all-nil (cs ∷ css) = (
  (λ e. let s = split-nil cs (join_all css) e in (s.0, (join_all-nil css).0 s.1)),
  (λ a. joined cs (join_all css) a.0 ((join_all-nil css).1 a.1)),
)

-- What the tests say of a configuration of which none complains; and that then none does.
silent-Passed : (lib : Lib) (c : Config) → All (λ cs. cs ≡ []) (tests lib c) → Passed lib c
unfolding tests check_management_password_env check_storage_backend_env
silent-Passed lib c s = record {
  port_works = (is_port-Port c.port).0 (when-nil _ port_out_of_range s.0);
  guarded =
      (guard_lem (is_empty c.api_keys) c.allow_unauthenticated (is_loopback_host lib c.host)).0
        (when-nil _ no_api_keys s.1.0, when-nil _ open_to_anyone s.1.1.0);
  keys_filled = keys-nil is_blank blank_key 0 c.api_keys s.1.1.1.0;
  lang_known = (negated (is_known_lang c.lang)).0 (when-nil _ unknown_lang s.1.1.1.1.0);
  ttl_known =
      (negated (is_known_ttl (trim_space c.cache_ttl))).0 (when-nil _ unknown_ttl s.1.1.1.1.1.0);
  models_unlisted = (negated (is_empty c.models)).0 (when-nil _ models_listed s.1.1.1.1.1.1.0);
  retry_counts = when-nil _ negative_retry s.1.1.1.1.1.1.1.0;
  interval_counts = when-nil _ negative_interval s.1.1.1.1.1.1.1.1.0;
  schemed =
      (scheme_lem (is_empty c.proxy_url) (contains c.proxy_url (codes "://"))).0
        (when-nil _ no_scheme s.1.1.1.1.1.1.1.1.1.0);
  falls_from = (fallback_lem lib c.proxy_fallback_direct c.proxy_url).0 s.1.1.1.1.1.1.1.1.1.1.0;
  keys_secret = keys-nil is_placeholder placeholder_key 0 c.api_keys s.1.1.1.1.1.1.1.1.1.1.1.0;
  unmanaged = when-nil _ management_password s.1.1.1.1.1.1.1.1.1.1.1.1.0;
  file_store =
      (names_lem lib storage_backend_env_vars).0
        ((store_lem (set_names lib storage_backend_env_vars)).0 s.1.1.1.1.1.1.1.1.1.1.1.1.1.0);
}

Passed-silent : (lib : Lib) (c : Config) → Passed lib c → All (λ cs. cs ≡ []) (tests lib c)
unfolding tests check_management_password_env check_storage_backend_env
Passed-silent lib c a =
    let g =
      (guard_lem (is_empty c.api_keys) c.allow_unauthenticated (is_loopback_host lib c.host)).1
        a.guarded in
    (
      no_when _ port_out_of_range ((is_port-Port c.port).1 a.port_works),
      (
        no_when _ no_api_keys g.0,
        (
          no_when _ open_to_anyone g.1,
          (
            no_keys is_blank blank_key 0 c.api_keys a.keys_filled,
            (
              no_when _ unknown_lang ((negated (is_known_lang c.lang)).1 a.lang_known),
              (
                no_when _ unknown_ttl
                    ((negated (is_known_ttl (trim_space c.cache_ttl))).1 a.ttl_known),
                (
                  no_when _ models_listed ((negated (is_empty c.models)).1 a.models_unlisted),
                  (
                    no_when _ negative_retry a.retry_counts,
                    (
                      no_when _ negative_interval a.interval_counts,
                      (
                        no_when _ no_scheme (
                            (scheme_lem (is_empty c.proxy_url)
                                (contains c.proxy_url (codes "://"))).1
                              a.schemed),
                        (
                          (fallback_lem lib c.proxy_fallback_direct c.proxy_url).1 a.falls_from,
                          (
                            no_keys is_placeholder placeholder_key 0 c.api_keys a.keys_secret,
                            (
                              no_when _ management_password a.unmanaged,
                              (
                                (store_lem (set_names lib storage_backend_env_vars)).1
                                    ((names_lem lib storage_backend_env_vars).1 a.file_store),
                                tt,
                              ),
                            ),
                          ),
                        ),
                      ),
                    ),
                  ),
                ),
              ),
            ),
          ),
        ),
      ),
    )

-- Validate accepts what passes each of its tests.
pub validate-Passed : (lib : Lib) (c : Config) → (validate lib c ≡ []) ↔ Passed lib c
unfolding validate
validate-Passed lib c = (
  (λ e. silent-Passed lib c ((join_all-nil (tests lib c)).0 e)),
  (λ a. (join_all-nil (tests lib c)).1 (Passed-silent lib c a)),
)
