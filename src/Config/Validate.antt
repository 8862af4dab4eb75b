-- ===== src/Config/Validate.antt =====
-- proxy/config.go: Config.Validate with what it calls.
use slimproxy.Base.{
  ℤ, pos, negsuc, ℕ, suc, Bool, true, false, not, ◌&&◌, ◌||◌, Option, none, some, List, [], ◌∷◌,
  ◌++◌, any, leb, ltb, ◌==◌, if◌then◌else◌,
}
use slimproxy.Text.{Text, codes, trim_space, has_prefix, contains, text_eq}
use slimproxy.Text.Split.{is_filled, trim_by}

-- Config: the fields that Validate reads.
pub record Config : Type 0 where
  pub host : Text
  pub port : ℤ
  pub api_keys : List Text
  pub allow_unauthenticated : Bool
  pub lang : Text
  pub cache_ttl : Text
  pub models : List Text
  pub request_retry : ℤ
  pub max_retry_interval : ℤ
  pub proxy_url : Text
  pub proxy_fallback_direct : Bool

-- strings.EqualFold, whether net.ParseIP reads a loopback address, the host name of what url.Parse reads, and
-- os.LookupEnv are parameters.
pub record Lib : Type 0 where
  pub equal_fold : Text → Text → Bool
  pub is_loopback_ip : Text → Bool
  pub hostname_of : Text → Option Text
  pub env : Text → Option Text

-- What Validate complains of.
pub data Complaint : Type 0 where
  port_out_of_range : Complaint
  no_api_keys : Complaint
  open_to_anyone : Complaint
  blank_key : ℕ → Complaint
  unknown_lang : Complaint
  unknown_ttl : Complaint
  models_listed : Complaint
  negative_retry : Complaint
  negative_interval : Complaint
  no_scheme : Complaint
  nothing_to_fall_from : Complaint
  not_http : Complaint
  not_loopback : Complaint
  placeholder_key : ℕ → Complaint
  management_password : Complaint
  storage_backend : List Text → Complaint

unfoldable pub when : Bool → Complaint → List Complaint
when b c = if b then c ∷ [] else []

-- errors.Join.
unfoldable pub join_all : List (List Complaint) → List Complaint
join_all [] = []
join_all (cs ∷ rest) = cs ++ join_all rest

unfoldable pub is_negative : ℤ → Bool
is_negative (pos n) = false
is_negative (negsuc n) = true

unfoldable pub is_port : ℤ → Bool
is_port (pos n) = ltb 0 n && leb n 65535
is_port (negsuc n) = false

-- placeholderAPIKeys.
abbrev pub placeholder_api_keys : List Text
placeholder_api_keys =
    codes "change-me-to-something-random"
    ∷ codes "your-api-key-1"
    ∷ codes "your-api-key-2"
    ∷ codes "your-api-key-3"
    ∷ codes "your-api-key"
    ∷ codes "changeme"
    ∷ []

unfoldable pub is_blank : Text → Bool
is_blank k = not (is_filled (trim_space k))

unfoldable pub is_placeholder : Text → Bool
is_placeholder k = any (λ p. text_eq (trim_space k) p) placeholder_api_keys

-- A loop over the keys, from an index on.
unfoldable pub key_complaints : (Text → Bool) → (ℕ → Complaint) → ℕ → List Text → List Complaint
unfolding when
key_complaints bad complaint i [] = []
key_complaints bad complaint i (k ∷ ks) =
    when (bad k) (complaint i) ++ key_complaints bad complaint (suc i) ks

unfoldable pub is_empty : {A : Type 0} → List A → Bool
is_empty [] = true
is_empty (x ∷ xs) = false

unfoldable pub is_known_lang : Text → Bool
is_known_lang l = is_empty l || text_eq l (codes "zh") || text_eq l (codes "en")

unfoldable pub is_known_ttl : Text → Bool
is_known_ttl t = is_empty t || text_eq t (codes "5m") || text_eq t (codes "1h")

-- storageBackendEnvVars.
abbrev pub storage_backend_env_vars : List Text
storage_backend_env_vars =
    codes "PGSTORE_DSN"
    ∷ codes "PGSTORE_SCHEMA"
    ∷ codes "PGSTORE_LOCAL_PATH"
    ∷ codes "GITSTORE_GIT_URL"
    ∷ codes "GITSTORE_GIT_TOKEN"
    ∷ codes "GITSTORE_GIT_USERNAME"
    ∷ codes "GITSTORE_GIT_BRANCH"
    ∷ codes "GITSTORE_LOCAL_PATH"
    ∷ codes "OBJECTSTORE_ENDPOINT"
    ∷ codes "OBJECTSTORE_BUCKET"
    ∷ codes "OBJECTSTORE_ACCESS_KEY"
    ∷ codes "OBJECTSTORE_SECRET_KEY"
    ∷ codes "OBJECTSTORE_LOCAL_PATH"
    ∷ []

unfoldable pub is_set : Option Text → Bool
is_set none = false
is_set (some v) = is_filled (trim_space v)

module _ (lib : Lib) where
  -- isLoopbackHost, of the trimmed host.
  unfoldable pub trimmed_loopback : Text → Bool
  trimmed_loopback host =
      is_filled host
      && (lib.equal_fold host (codes "localhost")
          || lib.is_loopback_ip (trim_by (λ c. c == b'[' || c == b']') host))

  unfoldable pub is_loopback_host : Text → Bool
  unfolding trimmed_loopback
  is_loopback_host host = trimmed_loopback (trim_space host)

  -- fallbackProxyIsLoopback.
  unfoldable pub of_hostname : Option Text → Bool
  unfolding is_loopback_host
  of_hostname none = false
  of_hostname (some host) = is_loopback_host host

  unfoldable pub fallback_proxy_is_loopback : Text → Bool
  unfolding of_hostname
  fallback_proxy_is_loopback raw = of_hostname (lib.hostname_of raw)

  unfoldable pub fallback_complaints : Text → List Complaint
  unfolding fallback_proxy_is_loopback is_empty
  fallback_complaints url =
      if is_empty url
      then nothing_to_fall_from ∷ []
      else if not (has_prefix url (codes "http://"))
      then not_http ∷ []
      else if not (fallback_proxy_is_loopback url)
      then not_loopback ∷ []
      else []

  -- checkManagementPasswordEnv.
  unfoldable pub check_management_password_env : List Complaint
  unfolding when is_set
  check_management_password_env =
      when (is_set (lib.env (codes "MANAGEMENT_PASSWORD"))) management_password

  -- checkStorageBackendEnv.
  unfoldable pub set_names : List Text → List Text
  unfolding is_set
  set_names [] = []
  set_names (n ∷ ns) = let rest = set_names ns in if is_set (lib.env n) then n ∷ rest else rest

  unfoldable pub check_storage_backend_env : List Complaint
  unfolding set_names is_empty
  check_storage_backend_env =
      let names = set_names storage_backend_env_vars in
      if is_empty names then [] else storage_backend names ∷ []

  -- Config.Validate: what each of its tests complains of, in order.
  unfoldable pub tests : Config → List (List Complaint)
  unfolding when is_port is_negative is_blank is_placeholder key_complaints is_known_lang
      is_known_ttl is_empty is_loopback_host fallback_complaints check_management_password_env
      check_storage_backend_env
  tests c =
      (when (not (is_port c.port)) port_out_of_range)
      ∷ (when (is_empty c.api_keys && not c.allow_unauthenticated) no_api_keys)
      ∷ (when (c.allow_unauthenticated && is_empty c.api_keys && not (is_loopback_host c.host))
          open_to_anyone)
      ∷ (key_complaints is_blank blank_key 0 c.api_keys)
      ∷ (when (not (is_known_lang c.lang)) unknown_lang)
      ∷ (when (not (is_known_ttl (trim_space c.cache_ttl))) unknown_ttl)
      ∷ (when (not (is_empty c.models)) models_listed)
      ∷ (when (is_negative c.request_retry) negative_retry)
      ∷ (when (is_negative c.max_retry_interval) negative_interval)
      ∷ (when (not (is_empty c.proxy_url) && not (contains c.proxy_url (codes "://"))) no_scheme)
      ∷ ((if c.proxy_fallback_direct then fallback_complaints c.proxy_url else []))
      ∷ (key_complaints is_placeholder placeholder_key 0 c.api_keys)
      ∷ (check_management_password_env)
      ∷ (check_storage_backend_env)
      ∷ []

  -- Config.Validate, which joins them.
  unfoldable pub validate : Config → List Complaint
  unfolding tests join_all
  validate c = join_all (tests c)
