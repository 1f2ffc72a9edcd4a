-- ===== src/Client.antt =====
-- spooled/config.go, and the checks of `NewClient` (spooled/client.go): what options make of a client.
pub mod Urls
pub mod Make
pub mod Lazy
use spooled_sdk_go.Common.{
  ℕ, Bool, true, false, not, ◌&&◌, ◌++◌, Option, none, some, ℤ, pos, Text, List, [], ◌∷◌, lit,
  is_empty, text_eq, has_prefix, trim_prefix, trim_suffix, if◌then◌else◌,
}
use spooled_sdk_go.Breaker.{CircuitBreakerConfig}
use spooled_sdk_go.Errors.Public.{validate_api_key, err_no_auth}
use spooled_sdk_go.Retry.{RetryConfig}

-- A logger only receives text and is left out.
pub record ClientConfig (Float : Type 0) : Type 0 where
  pub api_key : Text
  pub access_token : Text
  pub refresh_token : Text
  pub admin_key : Text
  pub base_url : Text
  pub ws_url : Text
  pub grpc_address : Text
  pub timeout : ℤ
  pub retry : RetryConfig Float
  pub circuit_breaker : CircuitBreakerConfig
  pub headers : List (Text × Text)
  pub user_agent : Text
  pub auto_refresh_token : Bool

-- The options, as `With...` makes them.
pub data ClientOption (Float : Type 0) : Type 0 where
  with_api_key with_access_token with_refresh_token with_admin_key : Text → ClientOption Float
  with_base_url with_ws_url with_grpc_address with_user_agent : Text → ClientOption Float
  with_timeout : ℤ → ClientOption Float
  with_retry : RetryConfig Float → ClientOption Float
  with_circuit_breaker : CircuitBreakerConfig → ClientOption Float
  with_headers : List (Text × Text) → ClientOption Float
  with_auto_refresh_token : Bool → ClientOption Float

abbrev pub default_base_url : Text
default_base_url = lit "https://api.spooled.cloud"

abbrev pub default_ws_url : Text
default_ws_url = lit "wss://api.spooled.cloud"

-- A write to a map.
unfoldable pub put_entry : Text → Text → List (Text × Text) → List (Text × Text)
put_entry k v [] = (k, v) ∷ []
put_entry k v ((j, w) ∷ m) = if text_eq j k then (k, v) ∷ m else (j, w) ∷ put_entry k v m

unfoldable pub put_entries : List (Text × Text) → List (Text × Text) → List (Text × Text)
unfolding put_entry
put_entries [] m = m
put_entries ((k, v) ∷ kvs) m = put_entries kvs (put_entry k v m)

module _ {Float : Type 0} where
  unfoldable pub apply_option : ClientOption Float → ClientConfig Float → ClientConfig Float
  unfolding put_entries
  apply_option (with_api_key key) c = record c { api_key = key }
  apply_option (with_access_token token) c = record c { access_token = token }
  apply_option (with_refresh_token token) c = record c { refresh_token = token }
  apply_option (with_admin_key key) c = record c { admin_key = key }
  apply_option (with_base_url url) c = record c { base_url = trim_suffix b'/' url }
  apply_option (with_ws_url url) c = record c { ws_url = trim_suffix b'/' url }
  apply_option (with_grpc_address addr) c = record c { grpc_address = addr }
  apply_option (with_user_agent ua) c = record c { user_agent = ua }
  apply_option (with_timeout d) c = record c { timeout = d }
  apply_option (with_retry r) c = record c { retry = r }
  apply_option (with_circuit_breaker b) c = record c { circuit_breaker = b }
  apply_option (with_headers kvs) c = record c { headers = put_entries kvs c.headers }
  apply_option (with_auto_refresh_token b) c = record c { auto_refresh_token = b }

  unfoldable pub apply_options : List (ClientOption Float) → ClientConfig Float → ClientConfig Float
  apply_options [] c = c
  apply_options (o ∷ os) c = apply_options os (apply_option o c)

unfoldable pub derive_ws_url : Text → Text
derive_ws_url base_url =
    if has_prefix (lit "https://") base_url
    then lit "wss://" ++ trim_prefix (lit "https://") base_url
    else if has_prefix (lit "http://") base_url
    then lit "ws://" ++ trim_prefix (lit "http://") base_url
    else base_url

-- The default configuration, with 2.0 as `two` and the user agent of package version.
unfoldable pub new_default_config : {Float : Type 0} → Float → Text → ClientConfig Float
new_default_config two user_agent = record {
  api_key = [];
  access_token = [];
  refresh_token = [];
  admin_key = [];
  base_url = default_base_url;
  ws_url = default_ws_url;
  grpc_address = lit "grpc.spooled.cloud:443";
  timeout = pos 30_000_000_000;
  retry = record {
    max_retries = pos 3;
    base_delay = pos 1_000_000_000;
    max_delay = pos 30_000_000_000;
    factor = two;
    jitter = true;
  };
  circuit_breaker = record {
    enabled = true;
    failure_threshold = pos 5;
    success_threshold = pos 3;
    timeout = pos 30_000_000_000;
  };
  headers = [];
  user_agent = user_agent;
  auto_refresh_token = true;
}

-- The WebSocket URL is derived from the base URL where it still is the default one and the base URL
-- is not.
unfoldable pub derive_urls : {Float : Type 0} → ClientConfig Float → ClientConfig Float
derive_urls c =
    if text_eq c.ws_url default_ws_url && not (text_eq c.base_url default_base_url)
    then record c { ws_url = derive_ws_url c.base_url }
    else c

unfoldable pub resolve_config :
    {Float : Type 0} → Float → Text → List (ClientOption Float) → ClientConfig Float
unfolding derive_urls
resolve_config two user_agent opts =
    derive_urls (apply_options opts (new_default_config two user_agent))

-- The checks of `NewClient`; `none` is a nil error.
unfoldable pub check_config : {Float : Type 0} → ClientConfig Float → Option Text
check_config c =
    if is_empty c.api_key && is_empty c.access_token
    then some err_no_auth
    else if not (is_empty c.api_key)
    then validate_api_key c.api_key
    else none
