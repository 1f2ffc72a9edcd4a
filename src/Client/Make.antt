-- ===== src/Client/Make.antt =====
-- `NewClient` of spooled/client.go: the transport that it makes of the configuration.
pub mod Sends
use spooled_sdk_go.Common.{Text, List, Option, none, some, ◌⊎◌, inl, inr}
use spooled_sdk_go.Runtime.{Runtime}
use spooled_sdk_go.Transport.{Config, Transport, State, new_transport}
use spooled_sdk_go.Client.{ClientConfig, ClientOption, resolve_config, check_config}

-- The transport's configuration.
unfoldable pub transport_config : {Float : Type 0} → ClientConfig Float → Config Float
transport_config c = record {
  base_url = c.base_url;
  api_key = c.api_key;
  access_token = c.access_token;
  refresh_token = c.refresh_token;
  admin_key = c.admin_key;
  user_agent = c.user_agent;
  headers = c.headers;
  timeout = c.timeout;
  retry = c.retry;
  circuit_breaker = c.circuit_breaker;
  auto_refresh_token = c.auto_refresh_token;
}

-- An error, or the client's transport with its state. `agent` is the user agent of package version.
unfoldable pub new_client :
    (rt : Runtime)
    → Text
    → List (ClientOption rt.floats.Float)
    → rt.World
    → Text ⊎ (Transport rt.floats.Float × State rt.World)
unfolding transport_config
new_client rt agent opts w =
    let c = resolve_config rt.floats.two agent opts in
    elim (check_config c) [
      | some e ↦ inl e
      | none ↦ inr (new_transport rt agent (transport_config c) w)
    ]
