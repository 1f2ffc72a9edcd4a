-- ===== src/Client/Urls.antt =====
-- What the options make of a client: its URLs and its credentials.
use spooled_sdk_go.Common.{
  ℕ, ◌≤◌, ◌≡◌, refl, sym, ap, ◌∙◌, ◌⊎◌, inl, inr, ◌↔◌, Bool, true, false, ◌++◌, none, Text, List,
  [], ◌∷◌, lit, is_empty, text_eq, text_eq_refl, has_prefix-append, trim_prefix-append, trim_suffix,
  trim_suffix-append, length, All, arith, Bool-cases, false≢true,
}
use spooled_sdk_go.Errors.Public.{
  validate_api_key, validate_api_key_iff, BeginsWith, valid_prefixes,
}
use spooled_sdk_go.Client.{
  ClientConfig, ClientOption, with_base_url, with_ws_url, apply_option, apply_options,
  default_base_url, default_ws_url, derive_ws_url, derive_urls, new_default_config, resolve_config,
  check_config,
}

module _ {Float : Type 0} where
  abbrev pub sets_ws_url : ClientOption Float → Bool
  sets_ws_url (with_ws_url url) = true
  sets_ws_url _ = false

  abbrev pub sets_base_url : ClientOption Float → Bool
  sets_base_url (with_base_url url) = true
  sets_base_url _ = false

  apply_options-append :
      (os ps : List (ClientOption Float)) (c : ClientConfig Float)
      → apply_options (os ++ ps) c ≡ apply_options ps (apply_options os c)
  unfolding apply_options
  apply_options-append [] ps c = refl
  apply_options-append (o ∷ os) ps c = apply_options-append os ps (apply_option o c)

  apply_option-ws_url :
      (o : ClientOption Float) (c : ClientConfig Float)
      → sets_ws_url o ≡ false
      → (apply_option o c).ws_url ≡ c.ws_url
  unfolding apply_option
  apply_option-ws_url (with_ws_url url) c h = cc
  apply_option-ws_url _ c h = refl

  apply_option-base_url :
      (o : ClientOption Float) (c : ClientConfig Float)
      → sets_base_url o ≡ false
      → (apply_option o c).base_url ≡ c.base_url
  unfolding apply_option
  apply_option-base_url (with_base_url url) c h = cc
  apply_option-base_url _ c h = refl

  apply_options-ws_url :
      (os : List (ClientOption Float)) (c : ClientConfig Float)
      → All (λ o. sets_ws_url o ≡ false) os
      → (apply_options os c).ws_url ≡ c.ws_url
  unfolding apply_options
  apply_options-ws_url [] c h = refl
  apply_options-ws_url (o ∷ os) c h =
      apply_options-ws_url os (apply_option o c) h.1 ∙ apply_option-ws_url o c h.0

  apply_options-base_url :
      (os : List (ClientOption Float)) (c : ClientConfig Float)
      → All (λ o. sets_base_url o ≡ false) os
      → (apply_options os c).base_url ≡ c.base_url
  unfolding apply_options
  apply_options-base_url [] c h = refl
  apply_options-base_url (o ∷ os) c h =
      apply_options-base_url os (apply_option o c) h.1 ∙ apply_option-base_url o c h.0

default-ws_url :
    {Float : Type 0} (two : Float) (agent : Text)
    → (new_default_config two agent).ws_url ≡ default_ws_url
unfolding new_default_config
default-ws_url two agent = refl

last-base_url :
    {Float : Type 0} (url : Text) (after : List (ClientOption Float)) (c : ClientConfig Float)
    → All (λ o. sets_base_url o ≡ false) after
    → (apply_options (with_base_url url ∷ after) c).base_url ≡ trim_suffix b'/' url
unfolding apply_options apply_option
last-base_url url after c h = apply_options-base_url after (apply_option (with_base_url url) c) h

derive_urls-ws_url :
    {Float : Type 0} (c : ClientConfig Float) (rest : Text)
    → c.ws_url ≡ default_ws_url
    → c.base_url ≡ lit "https://" ++ rest
    → text_eq (lit "https://" ++ rest) default_base_url ≡ false
    → ((derive_urls c).base_url ≡ lit "https://" ++ rest)
      × ((derive_urls c).ws_url ≡ lit "wss://" ++ rest)
unfolding derive_urls derive_ws_url
derive_urls-ws_url c rest ew eb other = (
  rw (ew, eb, text_eq_refl default_ws_url, other),
  rw (
    ew,
    eb,
    text_eq_refl default_ws_url,
    other,
    has_prefix-append (lit "https://") rest,
    trim_prefix-append (lit "https://") rest,
  ),
)

-- Without an option for the WebSocket URL, the last option for the base URL, if it is an https URL
-- of a host other than the default one, sets both: the base URL and the wss URL of that host, each
-- with a slash at its end taken off.
pub resolve_config_urls :
    {Float : Type 0} (two : Float) (agent : Text) (before after : List (ClientOption Float)) (h : ℕ)
    (host : Text)
    → All (λ o. sets_ws_url o ≡ false) before
    → All (λ o. sets_ws_url o ≡ false) after
    → All (λ o. sets_base_url o ≡ false) after
    → text_eq (lit "https://" ++ trim_suffix b'/' (h ∷ host)) default_base_url ≡ false
    → let c =
        resolve_config two agent (before ++ with_base_url (lit "https://" ++ h ∷ host) ∷ after) in
      (c.base_url ≡ lit "https://" ++ trim_suffix b'/' (h ∷ host))
      × (c.ws_url ≡ lit "wss://" ++ trim_suffix b'/' (h ∷ host))
unfolding resolve_config
resolve_config_urls two agent before after h host nb na nu other =
    let c0 = new_default_config two agent in
    let c1 = apply_options before c0 in
    let o = with_base_url (lit "https://" ++ h ∷ host) in
    let e = apply_options-append before (o ∷ after) c0 in
    derive_urls-ws_url (apply_options (before ++ o ∷ after) c0) (trim_suffix b'/' (h ∷ host))
      (ap (λ c. c.ws_url) e
        ∙ apply_options-ws_url (o ∷ after) c1 (refl, na)
        ∙ apply_options-ws_url before c0 nb
        ∙ default-ws_url two agent)
      (ap (λ c. c.base_url) e
        ∙ last-base_url (lit "https://" ++ h ∷ host) after c1 nu
        ∙ trim_suffix-append b'/' (lit "https://") h host)
      other

no-key :
    {Float : Type 0} (c : ClientConfig Float)
    → is_empty c.api_key ≡ true
    → (check_config c ≡ none) ↔ (is_empty c.access_token ≡ false)
unfolding check_config
no-key c e = rw e (elim (Bool-cases (is_empty c.access_token)) [
  | inl f ↦ rw f (λ h. grind arith, λ h. absurd (false≢true (sym h)))
  | inr f ↦ rw f (λ h. refl, λ h. refl)
])

some-key :
    {Float : Type 0} (c : ClientConfig Float)
    → is_empty c.api_key ≡ false
    → check_config c ≡ validate_api_key c.api_key
unfolding check_config
some-key c e = rw e

empty_invalid : (key : Text) → is_empty key ≡ true → 20 ≤ length key → ⊥
empty_invalid [] h l = omega arith
empty_invalid (a ∷ key) h l = false≢true h

-- `NewClient` accepts exactly the configurations with a valid API key, or with an access token and
-- no API key.
pub check_config_iff :
    {Float : Type 0} (c : ClientConfig Float)
    → (check_config c ≡ none) ↔ (
        ((is_empty c.api_key ≡ true) × (is_empty c.access_token ≡ false))
        ⊎ (BeginsWith valid_prefixes c.api_key × (20 ≤ length c.api_key)))
check_config_iff c = elim (Bool-cases (is_empty c.api_key)) [
  | inl e ↦ (
    λ h. inl (e, (no-key c e).0 h),
    λ h. elim h [
      | inl (_, t) ↦ (no-key c e).1 t
      | inr (_, l) ↦ absurd (empty_invalid c.api_key e l)
    ],
  )
  | inr e ↦ (
    λ h. inr ((validate_api_key_iff c.api_key).0 (sym (some-key c e) ∙ h)),
    λ h. elim h [
      | inl (f, _) ↦ absurd (false≢true (sym e ∙ f))
      | inr b ↦ some-key c e ∙ (validate_api_key_iff c.api_key).1 b
    ],
  )
]
