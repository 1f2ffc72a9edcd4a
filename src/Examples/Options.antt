-- ===== src/Examples/Options.antt =====
-- The configuration of config.go and client.go at concrete inputs.
use spooled_sdk_go.Common.{
  ◌≤◌, ◌≡◌, refl, false, List, [], ◌∷◌, ◌++◌, Text, lit, codes, ◌+◌, Returns, has_prefix, text_eq,
  trim_suffix, ℕ,
}
use spooled_sdk_go.Errors.Public.{validate_api_key, has_valid_prefix}
use spooled_sdk_go.Client.{
  ClientConfig, ClientOption, with_api_key, with_base_url, with_auto_refresh_token, resolve_config,
  apply_options, apply_option, new_default_config, check_config,
}
use spooled_sdk_go.Client.Urls.{resolve_config_urls}
use spooled_sdk_go.Transport.{Transport, State, new_transport}
use spooled_sdk_go.Transport.Loop.{do_request}
use spooled_sdk_go.Transport.Rounds.{sent, OneOf}
use spooled_sdk_go.Transport.Limits.{retry_budget}
use spooled_sdk_go.Client.Make.{new_client, transport_config}
use spooled_sdk_go.Client.Make.Sends.{client_sends}
use spooled_sdk_go.Examples.Requests.{dead_network, some_request}

abbrev agent : Text
agent = lit "spooled-go"

abbrev host : Text
host = codes "xample.com/"

abbrev key_option : ClientOption ℕ
key_option = with_api_key (lit "sk_test_0123456789ab")

abbrev token_option : ClientOption ℕ
token_option = with_auto_refresh_token false

resolve_config_urls_example :
    let c =
      resolve_config 4 agent
        ((key_option ∷ []) ++ with_base_url (lit "https://" ++ b'e' ∷ host) ∷ token_option ∷ []) in
    (c.base_url ≡ lit "https://" ++ trim_suffix b'/' (b'e' ∷ host))
    × (c.ws_url ≡ lit "wss://" ++ trim_suffix b'/' (b'e' ∷ host))
unfolding lit text_eq trim_suffix
resolve_config_urls_example =
    resolve_config_urls 4 agent (key_option ∷ []) (token_option ∷ []) b'e' host (refl, tt)
      (refl, tt) (refl, tt) refl

abbrev default_config : ClientConfig ℕ
default_config = new_default_config 4 agent

abbrev key_options : List (ClientOption ℕ)
key_options = key_option ∷ token_option ∷ []

abbrev some_client : Transport ℕ × State ℕ
some_client =
    new_transport dead_network agent (transport_config (resolve_config 4 agent key_options)) 20

client_sends_example :
    Returns
      (λ r. OneOf r.0 × (sent r.1.log ≤ retry_budget some_request 3 + 2))
      (do_request dead_network some_client.0 some_request some_client.1)
unfolding new_client resolve_config check_config validate_api_key has_valid_prefix lit text_eq
    apply_options apply_option new_default_config has_prefix
client_sends_example =
    client_sends dead_network agent key_options 20 some_client.0 some_client.1 some_request
      (refl, (refl, tt)) refl
