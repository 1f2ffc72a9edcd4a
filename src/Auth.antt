-- ===== src/Auth.antt =====
-- internal/httpx/auth.go: the token refresher, as one goroutine runs it. A refresh that another
-- goroutine has under way is waited for by `await_refresh` of the runtime.
pub mod Refresh
pub mod Flight
use spooled_sdk_go.Common.{
  ℕ, Bool, true, false, not, ◌&&◌, ◌++◌, Option, none, some, ℤ, pos, negsuc, ltb_ℤ, ◌+ℤ◌, scale,
  wrap64, Text, lit, is_empty, trim_suffix, if◌then◌else◌, ◌==◌,
}
use spooled_sdk_go.Errors.{Error, plain, wrapped}
use spooled_sdk_go.Runtime.{
  Runtime, LoginBody, AuthReply, no_request, no_answer, answered, undecodable, decodes,
}

-- A zero `expiresAt` is `none`. The channel `done` is left to the runtime.
pub record TokenRefresher : Type 0 where
  pub refreshing : Bool
  pub base_url : Text
  pub api_key : Text
  pub refresh_token : Text
  pub access_token : Text
  pub expires_at : Option ℤ

unfoldable pub new_token_refresher : Text → Text → Text → Text → TokenRefresher
new_token_refresher base_url api_key refresh_token access_token = record {
  refreshing = false;
  base_url = trim_suffix b'/' base_url;
  api_key = api_key;
  refresh_token = refresh_token;
  access_token = access_token;
  expires_at = none;
}

-- A minute before the token expires.
unfoldable pub expiry : ℕ → ℤ → ℤ
expiry now expires_in = pos now +ℤ wrap64 (scale 1_000_000_000 (wrap64 (expires_in +ℤ negsuc 59)))

unfoldable pub set_access_token : ℕ → Text → ℤ → TokenRefresher → TokenRefresher
set_access_token now token expires_in tr =
    let tr' = record tr { access_token = token } in
    if ltb_ℤ (pos 0) expires_in
    then record tr' { expires_at = some (expiry now expires_in) }
    else tr'

unfoldable pub set_refresh_token : Text → TokenRefresher → TokenRefresher
set_refresh_token token tr = record tr { refresh_token = token }

-- `NeedsRefresh` and `needsRefreshLocked`.
unfoldable pub needs_refresh : ℕ → TokenRefresher → Bool
needs_refresh now tr =
    if is_empty tr.access_token
    then false
    else elim tr.expires_at [ none ↦ false | some e ↦ ltb_ℤ e (pos now) ]

module _ (rt : Runtime) where
  open rt use {World, now, auth_do, await_refresh}

  -- What a call leaves: its error, the refresher and the world.
  abbrev Refreshed : Type 0
  Refreshed = Option Error × TokenRefresher × World

  login_body : TokenRefresher → World → LoginBody → Refreshed
  login_body tr w (undecodable e) =
      (some (wrapped (lit "failed to decode login response") e), tr, w)
  login_body tr w (decodes l) = (
    none,
    set_refresh_token l.refresh_token (set_access_token (now w) l.access_token l.expires_in tr),
    w,
  )

  login_answer : TokenRefresher → World → AuthReply → Refreshed
  unfolding login_body
  login_answer tr w (no_request e) =
      (some (wrapped (lit "failed to create login request") e), tr, w)
  login_answer tr w (no_answer e) = (some (wrapped (lit "login request failed") e), tr, w)
  login_answer tr w (answered status body) =
      if status == 200
      then login_body tr w body
      else (some (plain (lit "login failed with status")), tr, w)

  -- A fresh login with the API key.
  unfoldable pub refresh_with_api_key : Text → TokenRefresher → World → Refreshed
  unfolding login_answer
  refresh_with_api_key key tr w =
      let url = tr.base_url ++ lit "/api/v1/auth/login" in
      let body = lit "{\"api_key\":\"" ++ (key ++ lit "\"}") in
      let (reply, w') = auth_do url body w in login_answer tr w' reply

  refresh_body : TokenRefresher → World → LoginBody → Refreshed
  refresh_body tr w (undecodable e) =
      (some (wrapped (lit "failed to decode refresh response") e), tr, w)
  refresh_body tr w (decodes l) = (none, set_access_token (now w) l.access_token l.expires_in tr, w)

  refresh_answer : TokenRefresher → World → AuthReply → Refreshed
  unfolding refresh_body
  refresh_answer tr w (no_request e) =
      (some (wrapped (lit "failed to create refresh request") e), tr, w)
  refresh_answer tr w (no_answer e) = (some (wrapped (lit "refresh request failed") e), tr, w)
  refresh_answer tr w (answered status body) =
      if status == 200
      then refresh_body tr w body
      else if status == 401 && not (is_empty tr.api_key)
      then refresh_with_api_key tr.api_key tr w
      else (some (plain (lit "refresh failed with status")), tr, w)

  unfoldable pub refresh_with_token : Text → TokenRefresher → World → Refreshed
  unfolding refresh_answer
  refresh_with_token token tr w =
      let url = tr.base_url ++ lit "/api/v1/auth/refresh" in
      let body = lit "{\"refresh_token\":\"" ++ (token ++ lit "\"}") in
      let (reply, w') = auth_do url body w in refresh_answer tr w' reply

  -- The body of `refreshInternal` behind the flag.
  unfoldable pub refresh_by : TokenRefresher → World → Refreshed
  refresh_by tr w =
      if not (is_empty tr.refresh_token)
      then refresh_with_token tr.refresh_token tr w
      else if not (is_empty tr.api_key)
      then refresh_with_api_key tr.api_key tr w
      else (some (plain (lit "no refresh token or API key available")), tr, w)

  -- The deferred reset of the flag.
  unfoldable pub finish : Refreshed → Refreshed
  finish (e, tr, w) = (e, record tr { refreshing = false }, w)

  unfoldable pub refresh_internal : Bool → TokenRefresher → World → Refreshed
  unfolding refresh_by finish
  refresh_internal force tr w =
      if tr.refreshing
      then (let (e, w') = await_refresh w in (e, tr, w'))
      else if not force && not (needs_refresh (now w) tr) && not (is_empty tr.access_token)
      then (none, tr, w)
      else finish (refresh_by (record tr { refreshing = true }) w)

  unfoldable pub refresh : TokenRefresher → World → Refreshed
  unfolding refresh_internal
  refresh tr w = refresh_internal false tr w

  unfoldable pub force_refresh : TokenRefresher → World → Refreshed
  unfolding refresh_internal
  force_refresh tr w = refresh_internal true tr w

  unfoldable pub refresh_if_needed : TokenRefresher → World → Refreshed
  refresh_if_needed tr w = if needs_refresh (now w) tr then refresh tr w else (none, tr, w)
