-- ===== src/Resources.antt =====
-- spooled/resources/base.go: what every resource does with the transport. Each resource has a module
-- of its own, its operations named as its methods, with the records of its requests and responses.
pub mod Values
pub mod Bounds
pub mod Jobs
pub mod Queues
pub mod Workers
pub mod Schedules
pub mod Workflows
pub mod ApiKeys
pub mod Organizations
pub mod Webhooks
pub mod Ingest
pub mod Admin
pub mod Login
pub mod Billing
pub mod Dashboard
pub mod Health
pub mod Metrics
use spooled_sdk_go.Common.{
  true, false, Option, none, some, ℤ, Text, List, [], ◌∷◌, lit, is_empty, text_eq, if◌then◌else◌,
}
use spooled_sdk_go.Errors.{Error, wrapped}
use spooled_sdk_go.Runtime.{Runtime}
use spooled_sdk_go.Transport.{Transport, Payload, marshals, unmarshalable, Request, Response, State}
use spooled_sdk_go.Transport.Once.{Result, ok, err}
use spooled_sdk_go.Transport.Loop.{Outcome, do_request}
use spooled_sdk_go.Resources.Values.{Json, null, Time}

-- What the resources use of packages encoding/json, time, strconv and crypto/hmac.
pub record Packages : Type 0 where
  -- `json.Marshal`.
  pub marshal : Json → Payload
  -- `json.Unmarshal` into a variable of type `any`.
  pub unmarshal_any : Text → Result Json
  -- A time as `json.Marshal` writes it.
  pub format_time : Time → Text
  -- `strconv.Itoa` and `strconv.FormatInt` to base 10.
  pub itoa : ℤ → Text
  -- The hexadecimal HMAC-SHA256 of a text under a key.
  pub hmac_sha256 : Text → Text → Text

-- `json.Unmarshal` into a new variable of the type.
pub record Decodes (B : Type 0) : Type 0 where
  pub unmarshal : Text → Result B

-- The transport that a resource holds, with the packages.
pub record Api : Type 1 where
  pub rt : Runtime
  pub packages : Packages
  pub transport : Transport rt.floats.Float

-- How a call of a resource ends: with a result, with an error, or with a nil dereference.
pub data Answer (B : Type 0) : Type 0 where
  returns : B → Answer B
  fails : Error → Answer B
  panics : Answer B

-- A result that a caller gets none of (`error` alone is returned).
pub data Nothing : Type 0 where
  nothing : Nothing

abbrev pub plain_request : Text → Text → Request
plain_request method path = record {
  method = method;
  path = path;
  body = none;
  raw_body = none;
  query = [];
  headers = [];
  use_admin_key = false;
  idempotent = false;
}

-- `url.Values.Set`.
unfoldable pub set_value : Text → Text → List (Text × Text) → List (Text × Text)
set_value k v [] = (k, v) ∷ []
set_value k v ((j, w) ∷ q) =
    let rest = set_value k v q in if text_eq j k then (k, v) ∷ q else (j, w) ∷ rest

-- `valuestoMap`: a parameter with an empty value is dropped.
unfoldable pub values_to_map : List (Text × Text) → List (Text × Text)
values_to_map [] = []
values_to_map ((k, v) ∷ q) =
    let rest = values_to_map q in if is_empty v then rest else (k, v) ∷ rest

abbrev pub set_option :
    {A : Type 0} → Text → (A → Text) → Option A → List (Text × Text) → List (Text × Text)
set_option k f none q = q
set_option k f (some x) q = set_value k (f x) q

module _ (api : Api) where
  open api use {rt, packages, transport}
  open rt use {World}
  open packages use {marshal, unmarshal_any, itoa}

  -- A call of the API: what it returns, with the state after it; `none` says that the fuel ran out.
  abbrev pub Call : Type 0 → Type 0
  Call B = State World → Option (Answer B × State World)

  -- `httpx.JSON[any]`; a nil pointer is `null`.
  unfoldable pub json_any : Response → Result Json
  json_any resp = if is_empty resp.body then ok null else elim (unmarshal_any resp.body) [
    | ok v ↦ ok v
    | err e ↦ err (wrapped (lit "failed to unmarshal response") e)
  ]

  -- `httpx.JSON` at a type; `none` is a nil pointer.
  unfoldable pub json_as : {B : Type 0} → ⦃d : Decodes B⦄ → Response → Result (Option B)
  json_as ⦃d⦄ resp = if is_empty resp.body then ok none else elim (d.unmarshal resp.body) [
    | ok b ↦ ok (some b)
    | err e ↦ err (wrapped (lit "failed to unmarshal response") e)
  ]

  -- `remarshal`.
  unfoldable pub remarshal : {B : Type 0} → ⦃d : Decodes B⦄ → Json → Answer B
  remarshal ⦃d⦄ v = elim (marshal v) [
    | unmarshalable e ↦ fails (wrapped (lit "failed to marshal") e)
    | marshals text ↦ elim (d.unmarshal text) [ ok b ↦ returns b | err e ↦ fails e ]
  ]

  -- `decodeResponse` into a result that is not nil.
  unfoldable pub decode_response : {B : Type 0} → ⦃d : Decodes B⦄ → Option Response → Answer B
  unfolding json_any remarshal
  decode_response none = panics
  decode_response (some resp) = elim (json_any resp) [ ok v ↦ remarshal v | err e ↦ fails e ]

  -- `decodeResponse` into nil, and a response that is not looked at.
  abbrev pub ignore_response : Option Response → Answer Nothing
  ignore_response resp = returns nothing

  -- What follows the transport's `Do`.
  unfoldable pub and_then :
      {B : Type 0}
      → (Option Response → Answer B)
      → Option (Outcome × State World)
      → Option (Answer B × State World)
  and_then f none = none
  and_then f (some (o, s)) = elim o.error [
    | some e ↦ some (fails e, s)
    | none ↦ some (f o.response, s)
  ]

  -- The transport's `Do`, and what a result makes of its response.
  unfoldable pub perform : {B : Type 0} → (Option Response → Answer B) → Request → Call B
  unfolding and_then
  perform f req s = and_then f (do_request rt transport req s)

  -- A second call, after the result of a first.
  unfoldable pub then_call :
      {A B : Type 0}
      → Option (Answer A × State World)
      → (A → Call B)
      → Option (Answer B × State World)
  then_call none f = none
  then_call (some (returns a, s)) f = f a s
  then_call (some (fails e, s)) f = some (fails e, s)
  then_call (some (panics, s)) f = some (panics, s)

  abbrev pub with_json : Option Json → Request → Request
  with_json none req = req
  with_json (some v) req = record req { body = some (marshal v) }

  abbrev pub as_admin : Request → Request
  as_admin req = record req { use_admin_key = true }

  unfoldable pub base_get : {B : Type 0} → ⦃d : Decodes B⦄ → Text → Call B
  unfolding perform decode_response
  base_get path = perform decode_response (plain_request (lit "GET") path)

  unfoldable pub base_get_with_query :
      {B : Type 0} → ⦃d : Decodes B⦄ → Text → List (Text × Text) → Call B
  unfolding perform decode_response values_to_map
  base_get_with_query path query =
      perform decode_response
        (record (plain_request (lit "GET") path) { query = values_to_map query })

  unfoldable pub base_post : {B : Type 0} → ⦃d : Decodes B⦄ → Text → Option Json → Call B
  unfolding perform decode_response
  base_post path body = perform decode_response (with_json body (plain_request (lit "POST") path))

  -- `Post` with a nil result.
  unfoldable pub base_post_only : Text → Option Json → Call Nothing
  unfolding perform
  base_post_only path body =
      perform ignore_response (with_json body (plain_request (lit "POST") path))

  unfoldable pub base_post_idempotent : {B : Type 0} → ⦃d : Decodes B⦄ → Text → Option Json → Call B
  unfolding perform decode_response
  base_post_idempotent path body =
      perform decode_response
        (record (with_json body (plain_request (lit "POST") path)) { idempotent = true })

  unfoldable pub base_put : {B : Type 0} → ⦃d : Decodes B⦄ → Text → Option Json → Call B
  unfolding perform decode_response
  base_put path body = perform decode_response (with_json body (plain_request (lit "PUT") path))

  unfoldable pub base_patch : {B : Type 0} → ⦃d : Decodes B⦄ → Text → Option Json → Call B
  unfolding perform decode_response
  base_patch path body = perform decode_response (with_json body (plain_request (lit "PATCH") path))

  unfoldable pub base_delete : Text → Call Nothing
  unfolding perform
  base_delete path = perform ignore_response (plain_request (lit "DELETE") path)

  unfoldable pub base_delete_with_body :
      {B : Type 0} → ⦃d : Decodes B⦄ → Text → Option Json → Call B
  unfolding perform decode_response
  base_delete_with_body path body =
      perform decode_response (with_json body (plain_request (lit "DELETE") path))

  unfoldable pub base_admin_get : {B : Type 0} → ⦃d : Decodes B⦄ → Text → Call B
  unfolding perform decode_response
  base_admin_get path = perform decode_response (as_admin (plain_request (lit "GET") path))

  unfoldable pub base_admin_post : {B : Type 0} → ⦃d : Decodes B⦄ → Text → Option Json → Call B
  unfolding perform decode_response
  base_admin_post path body =
      perform decode_response (as_admin (with_json body (plain_request (lit "POST") path)))

  unfoldable pub base_admin_post_only : Text → Option Json → Call Nothing
  unfolding perform
  base_admin_post_only path body =
      perform ignore_response (as_admin (with_json body (plain_request (lit "POST") path)))

  unfoldable pub base_admin_put : {B : Type 0} → ⦃d : Decodes B⦄ → Text → Option Json → Call B
  unfolding perform decode_response
  base_admin_put path body =
      perform decode_response (as_admin (with_json body (plain_request (lit "PUT") path)))

  unfoldable pub base_admin_delete : Text → Call Nothing
  unfolding perform
  base_admin_delete path = perform ignore_response (as_admin (plain_request (lit "DELETE") path))

  -- `AddPaginationParams`.
  unfoldable pub add_pagination_params :
      Option ℤ → Option ℤ → List (Text × Text) → List (Text × Text)
  unfolding set_value
  add_pagination_params limit offset q =
      set_option (lit "offset") itoa offset (set_option (lit "limit") itoa limit q)
