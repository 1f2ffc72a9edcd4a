-- ===== src/Transport/Once.antt =====
-- `doOnce` of internal/httpx/transport.go: one HTTP exchange.
use spooled_sdk_go.Common.{
  Bool, true, false, not, ◌&&◌, ◌++◌, Option, none, some, Text, List, [], ◌∷◌, lit, is_empty, leb,
  text_eq, if◌then◌else◌,
}
use spooled_sdk_go.Errors.{Error, wrapped, new_network_error, new_timeout_error}
use spooled_sdk_go.Errors.Parse.{parse_error_from_response}
use spooled_sdk_go.Runtime.{Runtime, HttpRequest, Reply, no_reply, unreadable, replied}
use spooled_sdk_go.Transport.{Transport, Request, Response, marshals, unmarshalable, State, sends}

pub data Result {ℓ} (A : Type ℓ) : Type ℓ where
  ok : A → Result A
  err : Error → Result A

-- `Header.Set` under a canonical name: the value replaces the one that is there.
unfoldable pub put_header : Text → Text → List (Text × Text) → List (Text × Text)
put_header k v [] = (k, v) ∷ []
put_header k v ((j, w) ∷ hs) = if text_eq j k then (k, v) ∷ hs else (j, w) ∷ put_header k v hs

-- `Header.Get` under a canonical name: the empty text if it is absent.
unfoldable pub get_header : Text → List (Text × Text) → Text
get_header k [] = []
get_header k ((j, w) ∷ hs) = if text_eq j k then w else get_header k hs

-- The body to send: the raw one, else the JSON text, else none.
unfoldable pub prepare_body : Request → Result (Option Text)
prepare_body req = elim req.raw_body [
  | some raw ↦ ok (some raw)
  | none ↦ elim req.body [
    | none ↦ ok none
    | some (marshals t) ↦ ok (some t)
    | some (unmarshalable e) ↦ err (wrapped (lit "failed to marshal request body") e)
  ]
]

abbrev pub has_body : Request → Bool
has_body req = elim req.body [
  | some p ↦ true
  | none ↦ elim req.raw_body [ some raw ↦ true | none ↦ false ]
]

module _ (rt : Runtime) where
  open rt use {
    World, floats, decoders, client_do, ctx_err, check_request, canonical, encode_query, error_text,
    timeout_text,
  }
  open floats use {Float}

  unfoldable pub full_url : Transport Float → Request → Text
  full_url t req =
      let url = t.base_url ++ req.path in
      if is_empty req.query
      then url
      else let encoded = encode_query req.query in
        if is_empty encoded then url else url ++ (lit "?" ++ encoded)

  unfoldable pub set_header : Text → Text → List (Text × Text) → List (Text × Text)
  unfolding put_header
  set_header k v hs = put_header (canonical k) v hs

  -- The loops over the maps of headers, in the order in which the map is walked.
  unfoldable pub set_headers : List (Text × Text) → List (Text × Text) → List (Text × Text)
  unfolding set_header
  set_headers [] hs = hs
  set_headers ((k, v) ∷ kvs) hs = set_headers kvs (set_header k v hs)

  -- The admin key, else the access token, else the API key.
  unfoldable pub set_auth :
      Transport Float → Request → Text → List (Text × Text) → List (Text × Text)
  unfolding set_header
  set_auth t req access_token hs =
      if req.use_admin_key && not (is_empty t.admin_key)
      then set_header (lit "X-Admin-Key") t.admin_key hs
      else if not (is_empty access_token)
      then set_header (lit "Authorization") (lit "Bearer " ++ access_token) hs
      else if not (is_empty t.api_key)
      then set_header (lit "Authorization") (lit "Bearer " ++ t.api_key) hs
      else hs

  unfoldable pub request_headers : Transport Float → Request → Text → List (Text × Text)
  unfolding set_header set_auth set_headers
  request_headers t req access_token =
      let agent = set_header (lit "User-Agent") t.user_agent [] in
      let accept = set_header (lit "Accept") (lit "application/json") agent in
      let content =
        if has_body req
        then set_header (lit "Content-Type") (lit "application/json") accept
        else accept in
      set_headers req.headers (set_headers t.headers (set_auth t req access_token content))

  -- What `doOnce` makes of the reply; `w` is the world after it.
  unfoldable pub read_reply : Transport Float → World → Reply → Result Response
  read_reply t w (no_reply e) = elim (ctx_err w) [
    | some c ↦ err (new_timeout_error t.client_timeout (timeout_text t.client_timeout) c)
    | none ↦ err (new_network_error (error_text e) e)
  ]
  read_reply t w (unreadable e) =
      let cause = wrapped (lit "failed to read response body") e in
      err (new_network_error (error_text cause) cause)
  read_reply t w (replied status body header) =
      if leb 400 status
      then err (parse_error_from_response decoders status body header)
      else ok (record {
        status_code = status;
        body = body;
        header = header;
        request_id = header (lit "X-Request-ID");
      })

  -- `client.Do`, which the log keeps.
  unfoldable pub exchange :
      Transport Float → HttpRequest → State World → Result Response × State World
  unfolding read_reply
  exchange t http_req s =
      let (reply, w) = client_do http_req s.world in
      (read_reply t w reply, record s { world = w; log = sends http_req ∷ s.log })

  unfoldable pub do_once : Transport Float → Request → State World → Result Response × State World
  unfolding prepare_body full_url request_headers
  do_once t req s = elim (prepare_body req) [
    | err e ↦ (err e, s)
    | ok body ↦ elim (check_request req.method (full_url t req)) [
      | some e ↦ (err (wrapped (lit "failed to create request") e), s)
      | none ↦
          exchange t
            (record {
              method = req.method;
              url = full_url t req;
              body = body;
              headers = request_headers t req s.access_token;
            })
            s
    ]
  ]
