-- ===== src/Auth/Refresh.antt =====
-- What a refresh leaves of the refresher.
use spooled_sdk_go.Common.{
  ℕ, ◌+◌, ◌*◌, ◌<◌, ◌^◌, ◌≡◌, refl, sym, ap, ◌∙◌, inl, inr, Bool, true, false, not, ◌&&◌, ◌++◌,
  Option, none, some, pos, negsuc, ltb, ◌+ℤ◌, scale, wrap64, Text, lit, is_empty, arith,
  if◌then◌else◌, ◌==◌, Bool-cases,
}
use spooled_sdk_go.Errors.{Error}
use spooled_sdk_go.Runtime.{
  Runtime, Login, LoginBody, AuthReply, no_request, no_answer, answered, undecodable, decodes,
}
use spooled_sdk_go.Auth.{
  TokenRefresher, expiry, set_access_token, set_refresh_token, needs_refresh, login_body,
  login_answer, refresh_with_api_key, refresh_body, refresh_answer, refresh_with_token, refresh_by,
  finish, refresh_internal, force_refresh,
}

either : {A : Type 0} (P : A → Type 0) (b : Bool) {x y : A} → P x → P y → P (if b then x else y)
either P true p q = p
either P false p q = q

by_false :
    {A : Type 0} (P : A → Type 0) (b : Bool) (x : A) {y : A}
    → b ≡ false
    → P y
    → P (if b then x else y)
by_false P b x h q = rw h q

wrap64_small : (n : ℕ) → n < 2 ^ 63 → wrap64 (pos n) ≡ pos n
unfolding wrap64
wrap64_small n b = ground arith

minute_less : (n : ℕ) → pos (60 + n) +ℤ negsuc 59 ≡ pos n
unfolding ◌+ℤ◌
minute_less n = ground arith

scale-pos : (k n : ℕ) → scale k (pos n) ≡ pos (n * k)
unfolding scale
scale-pos k n = ground arith

pos-add : (a b : ℕ) → pos a +ℤ pos b ≡ pos (a + b)
unfolding ◌+ℤ◌
pos-add a b = ground arith

-- Within the range of a duration, the expiry is the given time less a minute from now.
expiry-pos :
    (now n : ℕ)
    → n * 1_000_000_000 < 2 ^ 63
    → expiry now (pos (60 + n)) ≡ pos (now + n * 1_000_000_000)
unfolding expiry
expiry-pos now n b =
    ap (λ z. pos now +ℤ wrap64 (scale 1_000_000_000 (wrap64 z))) (minute_less n)
    ∙ ap (λ z. pos now +ℤ wrap64 (scale 1_000_000_000 z)) (wrap64_small n (omega arith))
    ∙ ap (λ z. pos now +ℤ wrap64 z) (scale-pos 1_000_000_000 n)
    ∙ ap (λ z. pos now +ℤ z) (wrap64_small (n * 1_000_000_000) b)
    ∙ pos-add now (n * 1_000_000_000)

stores :
    (now n : ℕ) (token : Text) (tr : TokenRefresher)
    → n * 1_000_000_000 < 2 ^ 63
    → set_access_token now token (pos (60 + n)) tr
      ≡ record tr { access_token = token; expires_at = some (pos (now + n * 1_000_000_000)) }
unfolding set_access_token
stores now n token tr b = rw (expiry-pos now n b) (ground arith)

module _ (rt : Runtime) where
  open rt use {World, now, auth_do}

  -- A failure leaves the refresher; a success keeps its flag, its URL and its API key.
  abbrev pub Keeps : TokenRefresher → Option Error × TokenRefresher × World → Type 0
  Keeps tr (some e, tr', w) = tr' ≡ tr
  Keeps tr (none, tr', w) =
      (tr'.refreshing ≡ tr.refreshing) × (tr'.base_url ≡ tr.base_url) × (tr'.api_key ≡ tr.api_key)

  login_body-Keeps :
      (tr : TokenRefresher) (w : World) (b : LoginBody) → Keeps tr (login_body rt tr w b)
  unfolding login_body set_access_token set_refresh_token
  login_body-Keeps tr w (undecodable e) = refl
  login_body-Keeps tr w (decodes l) = (ground arith, ground arith, ground arith)

  login_answer-Keeps :
      (tr : TokenRefresher) (w : World) (r : AuthReply) → Keeps tr (login_answer rt tr w r)
  unfolding login_answer
  login_answer-Keeps tr w (no_request e) = refl
  login_answer-Keeps tr w (no_answer e) = refl
  login_answer-Keeps tr w (answered status b) = elim (Bool-cases (status == 200)) [
    | inl h ↦ rw h (login_body-Keeps tr w b)
    | inr h ↦ rw h refl
  ]

  refresh_with_api_key-Keeps :
      (key : Text) (tr : TokenRefresher) (w : World) → Keeps tr (refresh_with_api_key rt key tr w)
  unfolding refresh_with_api_key
  refresh_with_api_key-Keeps key tr w =
      let url = tr.base_url ++ lit "/api/v1/auth/login" in
      let (reply, w') = auth_do url (lit "{\"api_key\":\"" ++ (key ++ lit "\"}")) w in
      login_answer-Keeps tr w' reply

  refresh_body-Keeps :
      (tr : TokenRefresher) (w : World) (b : LoginBody) → Keeps tr (refresh_body rt tr w b)
  unfolding refresh_body set_access_token
  refresh_body-Keeps tr w (undecodable e) = refl
  refresh_body-Keeps tr w (decodes l) = (ground arith, ground arith, ground arith)

  refresh_answer-Keeps :
      (tr : TokenRefresher) (w : World) (r : AuthReply) → Keeps tr (refresh_answer rt tr w r)
  unfolding refresh_answer
  refresh_answer-Keeps tr w (no_request e) = refl
  refresh_answer-Keeps tr w (no_answer e) = refl
  refresh_answer-Keeps tr w (answered status b) = elim (Bool-cases (status == 200)) [
    | inl h ↦ rw h (refresh_body-Keeps tr w b)
    | inr h ↦ rw h (elim (Bool-cases (status == 401 && not (is_empty tr.api_key))) [
      | inl k ↦ rw k (refresh_with_api_key-Keeps tr.api_key tr w)
      | inr k ↦ rw k refl
    ])
  ]

  pub refresh_by-Keeps : (tr : TokenRefresher) (w : World) → Keeps tr (refresh_by rt tr w)
  unfolding refresh_by refresh_with_token
  refresh_by-Keeps tr w = elim (Bool-cases (not (is_empty tr.refresh_token))) [
    | inl h ↦
        let url = tr.base_url ++ lit "/api/v1/auth/refresh" in
        let (reply, w') =
          auth_do url (lit "{\"refresh_token\":\"" ++ (tr.refresh_token ++ lit "\"}")) w in
        rw h (refresh_answer-Keeps tr w' reply)
    | inr h ↦ rw h (elim (Bool-cases (not (is_empty tr.api_key))) [
      | inl k ↦ rw k (refresh_with_api_key-Keeps tr.api_key tr w)
      | inr k ↦ rw k refl
    ])
  ]

  -- The flag is lowered again.
  finish-Keeps :
      (tr : TokenRefresher) (r : Option Error × TokenRefresher × World)
      → tr.refreshing ≡ false
      → Keeps (record tr { refreshing = true }) r
      → Keeps tr (finish rt r)
  unfolding finish
  finish-Keeps tr (some e, tr', w) f h =
      ap {A = TokenRefresher} (λ t. record t { refreshing = false }) h
      ∙ ap {B = TokenRefresher} (λ b. record tr { refreshing = b }) (sym f)
  finish-Keeps tr (none, tr', w) f (_, u, k) = (sym f, u, k)

  -- When no refresh is under way, one that fails leaves the refresher exactly as it was, and one
  -- that succeeds ends with none under way, the base URL and the API key as before.
  pub refresh_internal-Keeps :
      (force : Bool) (tr : TokenRefresher) (w : World)
      → tr.refreshing ≡ false
      → Keeps tr (refresh_internal rt force tr w)
  unfolding refresh_internal
  refresh_internal-Keeps force tr w f = by_false (Keeps tr) tr.refreshing _ f (
      either (Keeps tr)
        (not force && not (needs_refresh (now w) tr) && not (is_empty tr.access_token))
        (refl, refl, refl)
        (finish-Keeps tr (refresh_by rt (record tr { refreshing = true }) w) f
          (refresh_by-Keeps (record tr { refreshing = true }) w)))

  -- With no refresh under way, where the server accepts the refresh token and answers with a token
  -- that is not empty and expires in a minute and n seconds (within a duration), a forced refresh
  -- stores that token and keeps the refresh token; the token needs a refresh once more than n
  -- seconds have passed since the answer, and not before.
  pub force_refresh-needs_refresh :
      (tr : TokenRefresher) (w : World) (l : Login) (n time : ℕ)
      → tr.refreshing ≡ false
      → is_empty tr.refresh_token ≡ false
      → (auth_do
          (tr.base_url ++ lit "/api/v1/auth/refresh")
          (lit "{\"refresh_token\":\"" ++ (tr.refresh_token ++ lit "\"}"))
          w).0
        ≡ answered 200 (decodes l)
      → l.expires_in ≡ pos (60 + n)
      → n * 1_000_000_000 < 2 ^ 63
      → is_empty l.access_token ≡ false
      → let (e, tr', w') = force_refresh rt tr w in
        (e ≡ none)
        × (tr'.access_token ≡ l.access_token)
        × (tr'.refresh_token ≡ tr.refresh_token)
        × (needs_refresh time tr' ≡ ltb (now w' + n * 1_000_000_000) time)
  unfolding force_refresh refresh_internal refresh_by refresh_with_token refresh_answer refresh_body
      finish set_access_token needs_refresh
  force_refresh-needs_refresh tr w l n time f r a x b t =
      let w' =
        (auth_do (tr.base_url ++ lit "/api/v1/auth/refresh")
          (lit "{\"refresh_token\":\"" ++ (tr.refresh_token ++ lit "\"}")) w).1 in
      let e =
        ap (λ z. set_access_token (now w') l.access_token z (record tr { refreshing = true })) x
        ∙ stores (now w') n l.access_token (record tr { refreshing = true }) b in
      simp (f, r, a) (rw e (refl, refl, refl, rw t refl))
