-- ===== src/Config/Tests.antt =====
-- The theorems of Config/ at concrete configurations.
use slimproxy.Text.{contains, trim_space}
use slimproxy.Text.Split.{is_filled, trim_by}
use slimproxy.Base.{pos, negsuc, ◌≡◌, refl, true, false, none, [], ◌∷◌, ◌↔◌}
use slimproxy.Text.{codes, text_eq}
use slimproxy.Config.Validate.{
  Config, Lib, open_to_anyone, placeholder_key, blank_key, port_out_of_range, validate,
}
use slimproxy.Config.Secure.{Acceptable, validate_lem}

abbrev plain_lib : Lib
plain_lib = record {
  equal_fold = λ s t. text_eq s t;
  is_loopback_ip = λ s. text_eq s (codes "127.0.0.1");
  hostname_of = λ s. none;
  env = λ name. none;
}

abbrev local_open : Config
local_open = record {
  host = codes "127.0.0.1";
  port = pos 8080;
  api_keys = [];
  allow_unauthenticated = true;
  lang = [];
  cache_ttl = codes " 1h ";
  models = [];
  request_retry = pos 2;
  max_retry_interval = pos 0;
  proxy_url = codes "http://127.0.0.1:7890";
  proxy_fallback_direct = false;
}

is_accepted : validate plain_lib local_open ≡ []
unfolding validate is_filled trim_space text_eq trim_by contains
is_accepted = refl

opened : validate plain_lib (record local_open { host = [] }) ≡ open_to_anyone ∷ []
unfolding validate is_filled trim_space text_eq contains
opened = refl

bad_keys :
    validate plain_lib
      (record local_open { port = negsuc 0; api_keys = codes " " ∷ codes " changeme" ∷ [] })
    ≡ port_out_of_range ∷ blank_key 0 ∷ placeholder_key 1 ∷ []
unfolding validate is_filled trim_space text_eq contains
bad_keys = refl

validate_lem_example : (validate plain_lib local_open ≡ []) ↔ Acceptable plain_lib local_open
validate_lem_example = validate_lem plain_lib local_open
