-- ===== src/Config/Secure.antt =====
-- What a configuration that proxy/config.go accepts is, in words of its own.
use slimproxy.Base.{
  ℤ, pos, negsuc, ℕ, ◌≡◌, ◌≢◌, refl, sym, subst, Bool, true, false, not, ◌&&◌, ◌||◌, Option, none,
  some, any, List, [], ◌∷◌, Among, Bool-cases, inl, inr, ◌⊎◌, ◌↔◌, All, ◌==◌,
}
use slimproxy.Text.{
  Text, codes, trim_space, has_prefix, contains, text_eq, text_eq_sound, text_eq_refl,
}
use slimproxy.Text.Split.{is_filled, trim_by}
use slimproxy.Text.Among.{any-Among, Among-any}
use slimproxy.Config.Validate.{
  Config, Lib, is_negative, is_blank, is_placeholder, placeholder_api_keys, is_empty, is_known_lang,
  is_known_ttl, is_set, storage_backend_env_vars, trimmed_loopback, is_loopback_host, of_hostname,
  fallback_proxy_is_loopback, validate,
}
use slimproxy.Config.Accepted.{Port, Passed, validate-Passed}

-- A host that only this machine can reach: localhost, or a loopback address with or without its brackets.
unfoldable pub Local : Lib → Text → Type 0
Local lib host =
    (trim_space host ≢ [])
    × ((lib.equal_fold (trim_space host) (codes "localhost") ≡ true)
        ⊎ (lib.is_loopback_ip (trim_by (λ c. c == b'[' || c == b']') (trim_space host)) ≡ true))

-- A variable of the environment that is not there, or holds nothing but space.
unfoldable pub Unset : Lib → Text → Type 0
Unset lib name = (v : Text) → lib.env name ≡ some v → trim_space v ≡ []

-- The keys that the shipped examples publish.
abbrev pub published : List Text
published =
    codes "change-me-to-something-random"
    ∷ codes "your-api-key-1"
    ∷ codes "your-api-key-2"
    ∷ codes "your-api-key-3"
    ∷ codes "your-api-key"
    ∷ codes "changeme"
    ∷ []

-- The variables that select a store other than the files.
abbrev pub store_variables : List Text
store_variables =
    codes "PGSTORE_DSN"
    ∷ codes "PGSTORE_SCHEMA"
    ∷ codes "PGSTORE_LOCAL_PATH"
    ∷ codes "GITSTORE_GIT_URL"
    ∷ codes "GITSTORE_GIT_TOKEN"
    ∷ codes "GITSTORE_GIT_USERNAME"
    ∷ codes "GITSTORE_GIT_BRANCH"
    ∷ codes "GITSTORE_LOCAL_PATH"
    ∷ codes "OBJECTSTORE_ENDPOINT"
    ∷ codes "OBJECTSTORE_BUCKET"
    ∷ codes "OBJECTSTORE_ACCESS_KEY"
    ∷ codes "OBJECTSTORE_SECRET_KEY"
    ∷ codes "OBJECTSTORE_LOCAL_PATH"
    ∷ []

-- A configuration that the proxy may start with: who may reach it has a key, or it is only this machine that
-- may; no key is blank or published; what it does not support is not asked for; and nothing in the
-- environment opens another way in.
pub record Acceptable (lib : Lib) (c : Config) : Type 0 where
  pub port_works : Port c.port
  pub guarded : (c.api_keys ≢ []) ⊎ ((c.allow_unauthenticated ≡ true) × Local lib c.host)
  pub keys_secret : All (λ k. (trim_space k ≢ []) × ¬ Among (trim_space k) published) c.api_keys
  pub lang_known : Among c.lang ([] ∷ codes "zh" ∷ codes "en" ∷ [])
  pub ttl_known : Among (trim_space c.cache_ttl) ([] ∷ codes "5m" ∷ codes "1h" ∷ [])
  pub models_unlisted : c.models ≡ []
  pub retry_counts : (n : ℕ) × (c.request_retry ≡ pos n)
  pub interval_counts : (n : ℕ) × (c.max_retry_interval ≡ pos n)
  pub schemed : (c.proxy_url ≡ []) ⊎ (contains c.proxy_url (codes "://") ≡ true)
  pub falls_from :
      c.proxy_fallback_direct ≡ true
      → (has_prefix c.proxy_url (codes "http://") ≡ true)
        × (host : Text) × (lib.hostname_of c.proxy_url ≡ some host)
        × Local lib host
  pub unmanaged : Unset lib (codes "MANAGEMENT_PASSWORD")
  pub file_store : All (λ n. Unset lib n) store_variables

empty-nil : {A : Type 0} (xs : List A) → (is_empty xs ≡ true) ↔ (xs ≡ [])
unfolding is_empty
empty-nil [] = ((λ e. refl), (λ e. refl))
empty-nil (x ∷ xs) = ((λ e. absurd (cc e)), (λ e. absurd (cc e)))

empty-cons : {A : Type 0} (xs : List A) → (is_empty xs ≡ false) ↔ (xs ≢ [])
unfolding is_empty
empty-cons [] = ((λ e. absurd (cc e)), (λ n. absurd (n refl)))
empty-cons (x ∷ xs) = ((λ e f. cc f), (λ n. refl))

filled-cons : (t : Text) → (is_filled t ≡ true) ↔ (t ≢ [])
unfolding is_filled
filled-cons [] = ((λ e. absurd (cc e)), (λ n. absurd (n refl)))
filled-cons (x ∷ t) = ((λ e f. cc f), (λ n. refl))

filled-nil : (t : Text) → (is_filled t ≡ false) ↔ (t ≡ [])
unfolding is_filled
filled-nil [] = ((λ e. refl), (λ n. refl))
filled-nil (x ∷ t) = ((λ e. absurd (cc e)), (λ n. absurd (cc n)))

not-false : (b : Bool) → (not b ≡ false) ↔ (b ≡ true)
not-false true = ((λ e. refl), (λ e. refl))
not-false false = ((λ e. sym e), (λ e. sym e))

blank_lem : (k : Text) → (is_blank k ≡ false) ↔ (trim_space k ≢ [])
unfolding is_blank
blank_lem k =
    let f = filled-cons (trim_space k) in
    let n = not-false (is_filled (trim_space k)) in ((λ e. f.0 (n.0 e)), (λ c. n.1 (f.1 c)))

never : (b : Bool) → b ≡ true → b ≡ false → ⊥
never b t f = cc (t, f)

placeholder_lem : (k : Text) → (is_placeholder k ≡ false) ↔ ¬ Among (trim_space k) published
unfolding is_placeholder
placeholder_lem k = (
  (λ e m. never _ (Among-any (trim_space k) published m) e),
  (λ n. elim (Bool-cases (any (λ p. text_eq (trim_space k) p) placeholder_api_keys)) [
    | inl y ↦ absurd (n (any-Among (trim_space k) published y))
    | inr f ↦ f
  ]),
)

local_lem : (lib : Lib) (host : Text) → (is_loopback_host lib host ≡ true) ↔ Local lib host
unfolding is_loopback_host trimmed_loopback Local
local_lem lib host =
    let t = trim_space host in
    parts (is_filled t) (lib.equal_fold t (codes "localhost"))
      (lib.is_loopback_ip (trim_by (λ c. c == b'[' || c == b']') t)) (t ≢ []) (filled-cons t)
  where
    parts :
        (a b c : Bool) (P : Type 0)
        → (a ≡ true) ↔ P
        → (a && (b || c) ≡ true) ↔ (P × ((b ≡ true) ⊎ (c ≡ true)))
    parts false b c P (f, g) = ((λ e. absurd (cc e)), (λ h. absurd (cc (g h.0))))
    parts true true c P (f, g) = ((λ e. (f refl, inl refl)), (λ h. refl))
    parts true false true P (f, g) = ((λ e. (f refl, inr refl)), (λ h. refl))
    parts true false false P (f, g) =
        ((λ e. absurd (cc e)), (λ h. absurd (elim h.1 [ inl e ↦ cc e | inr e ↦ cc e ])))

set_lem : (o : Option Text) → (is_set o ≡ false) ↔ ((v : Text) → o ≡ some v → trim_space v ≡ [])
unfolding is_set
set_lem none = ((λ e v h. absurd (cc h)), (λ h. refl))
set_lem (some w) =
    let f = filled-nil (trim_space w) in
    ((λ e v h. subst (λ x. trim_space x ≡ []) (injective h) (f.0 e)), (λ h. f.1 (h w refl)))
  where
    injective : {v w : Text} → ◌≡◌ {A = Option Text} (some w) (some v) → w ≡ v
    injective e = cc e

all_iff :
    {A : Type 0} (P Q : A → Type 0) → ((a : A) → P a → Q a) → (xs : List A) → All P xs → All Q xs
all_iff P Q f [] a = tt
all_iff P Q f (x ∷ xs) a = (f x a.0, all_iff P Q f xs a.1)

zip_all :
    {A : Type 0} (P Q : A → Type 0) (xs : List A) → All P xs → All Q xs → All (λ x. P x × Q x) xs
zip_all P Q [] a b = tt
zip_all P Q (x ∷ xs) a b = ((a.0, b.0), zip_all P Q xs a.1 b.1)

or_cases : (x y z : Bool) → x || y || z ≡ true → (x ≡ true) ⊎ ((y ≡ true) ⊎ (z ≡ true))
or_cases true y z e = inl refl
or_cases false true z e = inr (inl refl)
or_cases false false true e = inr (inr refl)
or_cases false false false e = absurd (cc e)

or_joined : (x y z : Bool) → (x ≡ true) ⊎ ((y ≡ true) ⊎ (z ≡ true)) → x || y || z ≡ true
or_joined true y z h = refl
or_joined false true z h = refl
or_joined false false true h = refl
or_joined false false false (inl e) = e
or_joined false false false (inr (inl e)) = e
or_joined false false false (inr (inr e)) = e

known_lem :
    (t a b : Text) → (is_empty t || text_eq t a || text_eq t b ≡ true) ↔ Among t ([] ∷ a ∷ b ∷ [])
known_lem t a b = (
  (λ e. elim (or_cases (is_empty t) (text_eq t a) (text_eq t b) e) [
    | inl y ↦ inl ((empty-nil t).0 y)
    | inr (inl y) ↦ inr (inl (text_eq_sound t a y))
    | inr (inr y) ↦ inr (inr (inl (text_eq_sound t b y)))
  ]),
  (λ m. or_joined (is_empty t) (text_eq t a) (text_eq t b) (tested m)),
)
  where
    tested :
        Among t ([] ∷ a ∷ b ∷ [])
        → (is_empty t ≡ true) ⊎ ((text_eq t a ≡ true) ⊎ (text_eq t b ≡ true))
    tested (inl e) = inl ((empty-nil t).1 e)
    tested (inr (inl e)) = inr (inl (rw e (text_eq_refl a)))
    tested (inr (inr (inl e))) = inr (inr (rw e (text_eq_refl b)))
    tested (inr (inr (inr e))) = absurd e

lang_lem : (l : Text) → (is_known_lang l ≡ true) ↔ Among l ([] ∷ codes "zh" ∷ codes "en" ∷ [])
unfolding is_known_lang
lang_lem l = known_lem l (codes "zh") (codes "en")

ttl_lem : (t : Text) → (is_known_ttl t ≡ true) ↔ Among t ([] ∷ codes "5m" ∷ codes "1h" ∷ [])
unfolding is_known_ttl
ttl_lem t = known_lem t (codes "5m") (codes "1h")

sign_lem : (n : ℤ) → (is_negative n ≡ false) ↔ ((m : ℕ) × (n ≡ pos m))
unfolding is_negative
sign_lem (pos m) = ((λ e. (m, refl)), (λ h. refl))
sign_lem (negsuc m) = ((λ e. absurd (cc e)), (λ h. absurd (cc h.1)))

host_lem :
    (lib : Lib) (o : Option Text)
    → (of_hostname lib o ≡ true) ↔ ((host : Text) × (o ≡ some host) × Local lib host)
unfolding of_hostname
host_lem lib none = ((λ e. absurd (cc e)), (λ h. absurd (cc h.1)))
host_lem lib (some host) = (
  (λ e. (host, refl, (local_lem lib host).0 e)),
  (λ h. (local_lem lib host).1 (subst (Local lib) (injective h.1) h.2)),
)
  where
    injective : {v w : Text} → ◌≡◌ {A = Option Text} (some w) (some v) → v ≡ w
    injective e = cc e

prefix-cons : (url : Text) → has_prefix url (codes "http://") ≡ true → is_empty url ≡ false
unfolding has_prefix is_empty
prefix-cons [] e = absurd (cc e)
prefix-cons (c ∷ url) e = refl

fallback_lem :
    (lib : Lib) (url : Text)
    → ((is_empty url ≡ false)
        × (has_prefix url (codes "http://") ≡ true)
        × (fallback_proxy_is_loopback lib url ≡ true))
      ↔ ((has_prefix url (codes "http://") ≡ true)
          × (host : Text) × (lib.hostname_of url ≡ some host)
          × Local lib host)
unfolding fallback_proxy_is_loopback
fallback_lem lib url = (
  (λ h. let (host, e, l) = (host_lem lib (lib.hostname_of url)).0 h.2 in (h.1, host, e, l)),
  (λ h. (prefix-cons url h.0, h.0, (host_lem lib (lib.hostname_of url)).1 (h.1, h.2, h.3))),
)

unset_lem : (lib : Lib) (name : Text) → (is_set (lib.env name) ≡ false) ↔ Unset lib name
unfolding Unset
unset_lem lib name = set_lem (lib.env name)

Passed-Acceptable : (lib : Lib) (c : Config) → Passed lib c → Acceptable lib c
Passed-Acceptable lib c p = record {
  port_works = p.port_works;
  guarded = elim p.guarded [
    | inl e ↦ inl ((empty-cons c.api_keys).0 e)
    | inr e ↦ inr (e.0, (local_lem lib c.host).0 e.1)
  ];
  keys_secret =
      zip_all (λ k. trim_space k ≢ []) (λ k. ¬ Among (trim_space k) published) c.api_keys
        (all_iff (λ k. is_blank k ≡ false) (λ k. trim_space k ≢ []) (λ k. (blank_lem k).0)
          c.api_keys p.keys_filled)
        (all_iff (λ k. is_placeholder k ≡ false) (λ k. ¬ Among (trim_space k) published)
          (λ k. (placeholder_lem k).0) c.api_keys p.keys_secret);
  lang_known = (lang_lem c.lang).0 p.lang_known;
  ttl_known = (ttl_lem (trim_space c.cache_ttl)).0 p.ttl_known;
  models_unlisted = (empty-nil c.models).0 p.models_unlisted;
  retry_counts = (sign_lem c.request_retry).0 p.retry_counts;
  interval_counts = (sign_lem c.max_retry_interval).0 p.interval_counts;
  schemed = elim p.schemed [ inl e ↦ inl ((empty-nil c.proxy_url).0 e) | inr e ↦ inr e ];
  falls_from = λ e. (fallback_lem lib c.proxy_url).0 (p.falls_from e);
  unmanaged = (unset_lem lib (codes "MANAGEMENT_PASSWORD")).0 p.unmanaged;
  file_store =
      all_iff (λ n. is_set (lib.env n) ≡ false) (λ n. Unset lib n) (λ n. (unset_lem lib n).0)
        storage_backend_env_vars p.file_store;
}

Acceptable-Passed : (lib : Lib) (c : Config) → Acceptable lib c → Passed lib c
Acceptable-Passed lib c a = record {
  port_works = a.port_works;
  guarded = elim a.guarded [
    | inl n ↦ inl ((empty-cons c.api_keys).1 n)
    | inr e ↦ inr (e.0, (local_lem lib c.host).1 e.1)
  ];
  keys_filled =
      all_iff (λ k. (trim_space k ≢ []) × ¬ Among (trim_space k) published)
        (λ k. is_blank k ≡ false) (λ k h. (blank_lem k).1 h.0) c.api_keys a.keys_secret;
  lang_known = (lang_lem c.lang).1 a.lang_known;
  ttl_known = (ttl_lem (trim_space c.cache_ttl)).1 a.ttl_known;
  models_unlisted = (empty-nil c.models).1 a.models_unlisted;
  retry_counts = (sign_lem c.request_retry).1 a.retry_counts;
  interval_counts = (sign_lem c.max_retry_interval).1 a.interval_counts;
  schemed = elim a.schemed [ inl e ↦ inl ((empty-nil c.proxy_url).1 e) | inr e ↦ inr e ];
  falls_from = λ e. (fallback_lem lib c.proxy_url).1 (a.falls_from e);
  keys_secret =
      all_iff (λ k. (trim_space k ≢ []) × ¬ Among (trim_space k) published)
        (λ k. is_placeholder k ≡ false) (λ k h. (placeholder_lem k).1 h.1) c.api_keys a.keys_secret;
  unmanaged = (unset_lem lib (codes "MANAGEMENT_PASSWORD")).1 a.unmanaged;
  file_store =
      all_iff (λ n. Unset lib n) (λ n. is_set (lib.env n) ≡ false) (λ n. (unset_lem lib n).1)
        storage_backend_env_vars a.file_store;
}

-- Validate accepts exactly the configurations with a port that can be listened on, an API key, or, where
-- the operator asks to run without one, a host that only this machine can reach; no key that is blank or
-- one of the published placeholders; a language and a cache TTL that are known; no list of models; no
-- negative count; a proxy URL with a scheme; a fallback to the direct path only from an http proxy on
-- this machine; and an environment that names neither a management password nor another store.
pub validate_lem : (lib : Lib) (c : Config) → (validate lib c ≡ []) ↔ Acceptable lib c
validate_lem lib c = (
  (λ e. Passed-Acceptable lib c ((validate-Passed lib c).0 e)),
  (λ a. (validate-Passed lib c).1 (Acceptable-Passed lib c a)),
)
