-- ===== src/Transport.antt =====
-- internal/httpx/transport.go: a request with authentication, retries and the circuit breaker.
-- The fields of `Transport` that no request changes are the record `Transport`; those that a request
-- changes, with the world, are the record `State`.
pub mod Once
pub mod Loop
pub mod Rounds
pub mod Attempts
pub mod Limits
pub mod Circuit
pub mod Outage
pub mod Persist
pub mod Headers
use spooled_sdk_go.Common.{
  ℕ, Bool, true, false, not, ◌&&◌, ◌||◌, ◌++◌, Option, none, some, ℤ, pos, is_zero, Text, List, [],
  ◌∷◌, lit, is_empty, trim_suffix, if◌then◌else◌,
}
use spooled_sdk_go.Errors.{Error}
use spooled_sdk_go.Breaker.{CircuitBreaker, CircuitBreakerConfig, new_circuit_breaker}
use spooled_sdk_go.Retry.{Floats, RetryConfig, RetryPolicy, new_retry_policy}
use spooled_sdk_go.Runtime.{Runtime, HttpRequest}
use spooled_sdk_go.Auth.{TokenRefresher, new_token_refresher, set_access_token, set_refresh_token}

pub record Config (Float : Type 0) : Type 0 where
  pub base_url : Text
  pub api_key : Text
  pub access_token : Text
  pub refresh_token : Text
  pub admin_key : Text
  pub user_agent : Text
  pub headers : List (Text × Text)
  pub timeout : ℤ
  pub retry : RetryConfig Float
  pub circuit_breaker : CircuitBreakerConfig
  pub auto_refresh_token : Bool

pub record Transport (Float : Type 0) : Type 0 where
  pub client_timeout : ℤ
  pub base_url : Text
  pub api_key : Text
  pub admin_key : Text
  pub user_agent : Text
  pub headers : List (Text × Text)
  pub retry : RetryPolicy Float
  pub auto_refresh_token : Bool

-- What a value of `Body any` becomes: its JSON text, or the error of `json.Marshal`.
pub data Payload : Type 0 where
  marshals : Text → Payload
  unmarshalable : Error → Payload

pub record Request : Type 0 where
  pub method : Text
  pub path : Text
  pub body : Option Payload
  pub raw_body : Option Text
  pub query : List (Text × Text)
  pub headers : List (Text × Text)
  pub use_admin_key : Bool
  pub idempotent : Bool

pub record Response : Type 0 where
  pub status_code : ℕ
  pub body : Text
  pub header : Text → Text
  pub request_id : Text

-- What a call makes the outside do, oldest last. This log is the model's own.
pub data Action : Type 0 where
  sends : HttpRequest → Action
  waits : ℤ → Action

pub record State (World : Type 0) : Type 0 where
  pub access_token : Text
  pub circuit_breaker : Option CircuitBreaker
  pub token_refresher : Option TokenRefresher
  pub world : World
  pub log : List Action

module _ (rt : Runtime) where
  open rt use {World, floats, now}
  open floats use {Float, is_float_zero, two}

  abbrev pub default_retry_config : RetryConfig Float
  default_retry_config = record {
    max_retries = pos 3;
    base_delay = pos 1_000_000_000;
    max_delay = pos 30_000_000_000;
    factor = two;
    jitter = true;
  }

  -- `NewTransport`, at the version's user agent.
  unfoldable pub new_transport : Text → Config Float → World → Transport Float × State World
  new_transport version_agent cfg w =
      let c = cfg.retry in
      let retry =
        if is_zero c.base_delay && (is_zero c.max_delay && is_float_zero c.factor)
        then default_retry_config
        else c in
      (
        record {
          client_timeout = if is_zero cfg.timeout then pos 30_000_000_000 else cfg.timeout;
          base_url = trim_suffix b'/' cfg.base_url;
          api_key = cfg.api_key;
          admin_key = cfg.admin_key;
          user_agent = if is_empty cfg.user_agent then version_agent else cfg.user_agent;
          headers = cfg.headers;
          retry = new_retry_policy floats retry;
          auto_refresh_token = cfg.auto_refresh_token;
        },
        record {
          access_token = cfg.access_token;
          circuit_breaker =
              if cfg.circuit_breaker.enabled
              then some (new_circuit_breaker cfg.circuit_breaker (now w))
              else none;
          token_refresher =
              if cfg.auto_refresh_token
                && (not (is_empty cfg.access_token) || not (is_empty cfg.refresh_token))
              then some
                  (new_token_refresher cfg.base_url cfg.api_key cfg.refresh_token cfg.access_token)
              else none;
          world = w;
          log = [];
        },
      )

  -- `Transport.SetAccessToken` and `Transport.SetRefreshToken`.
  unfoldable pub set_transport_token : Text → State World → State World
  set_transport_token token s = elim s.token_refresher [
    | none ↦ record s { access_token = token }
    | some tr ↦ record s {
      access_token = token;
      token_refresher = some (set_access_token (now s.world) token (pos 0) tr);
    }
  ]

  unfoldable pub set_transport_refresh_token : Text → State World → State World
  set_transport_refresh_token token s = elim s.token_refresher [
    | none ↦ s
    | some tr ↦ record s { token_refresher = some (set_refresh_token token tr) }
  ]
