-- ===== src/Examples/Tokens.antt =====
-- The token refresher of httpx/auth.go at concrete inputs.
use spooled_sdk_go.Common.{◌+◌, ◌*◌, ◌≡◌, refl, false, none, some, pos, ltb, lit, arith, []}
use spooled_sdk_go.Runtime.{Runtime, Login, answered, decodes}
use spooled_sdk_go.Auth.{TokenRefresher, needs_refresh, refresh_internal, force_refresh}
use spooled_sdk_go.Auth.Refresh.{Keeps, refresh_internal-Keeps, force_refresh-needs_refresh}
use spooled_sdk_go.Examples.Requests.{dead_network}

abbrev pub some_refresher : TokenRefresher
some_refresher = record {
  refreshing = false;
  base_url = lit "https://api.spooled.cloud";
  api_key = [];
  refresh_token = lit "refresh";
  access_token = lit "old";
  expires_at = some (pos 5);
}

refresh_internal-Keeps_example :
    Keeps dead_network some_refresher (refresh_internal dead_network false some_refresher 20)
refresh_internal-Keeps_example = refresh_internal-Keeps dead_network false some_refresher 20 refl

abbrev some_login : Login
some_login = record { access_token = lit "new"; refresh_token = []; expires_in = pos (60 + 3540) }

abbrev accepting : Runtime
accepting = record dead_network {
  auth_do = λ url body w. (answered 200 (decodes some_login), w + 1);
}

force_refresh-needs_refresh_example :
    let (e, tr', w') = force_refresh accepting some_refresher 20 in
    (e ≡ none)
    × (tr'.access_token ≡ some_login.access_token)
    × (tr'.refresh_token ≡ some_refresher.refresh_token)
    × (needs_refresh 30 tr' ≡ ltb (w' + 3540 * 1_000_000_000) 30)
unfolding lit
force_refresh-needs_refresh_example =
    force_refresh-needs_refresh accepting some_refresher 20 some_login 3540 30 refl refl refl refl
      (omega arith) refl
