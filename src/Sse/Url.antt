-- ===== src/Sse/Url.antt =====
-- `buildSSEURL` of spooled/realtime/sse.go: the address of the stream for a filter.
use spooled_sdk_go.Common.{
  ◌≡◌, refl, ◌++◌, Option, none, some, Text, List, [], ◌∷◌, lit, is_empty, join, trim_suffix,
  if◌then◌else◌,
}
use spooled_sdk_go.Socket.{SubscriptionFilter}

-- The parameters that are not empty; `url.Values` orders them when it writes them.
abbrev with_param : Text → Text → List (Text × Text) → List (Text × Text)
with_param k v q = if is_empty v then q else (k, v) ∷ q

unfoldable pub stream_params : SubscriptionFilter → List (Text × Text)
unfolding join
stream_params f = with_param (lit "queue") f.queue_name (
    with_param (lit "job_id") f.job_id (
      with_param (lit "worker_id") f.worker_id
        (if is_empty f.events then [] else (lit "events", join (lit ",") f.events) ∷ [])))

-- `encode` is `url.Values.Encode`.
unfoldable pub build_sse_url : (List (Text × Text) → Text) → Text → Option SubscriptionFilter → Text
unfolding stream_params
build_sse_url encode base_url none = trim_suffix b'/' base_url ++ lit "/api/v1/events"
build_sse_url encode base_url (some f) =
    let sse_url = trim_suffix b'/' base_url ++ lit "/api/v1/events" in
    let params = stream_params f in
    if is_empty params then sse_url else sse_url ++ (lit "?" ++ encode params)

-- A filter with nothing in it is the same stream as none.
pub build_sse_url-blank :
    (encode : List (Text × Text) → Text) (base_url : Text)
    → build_sse_url encode base_url
        (some (record { queue_name = []; job_id = []; worker_id = []; events = [] }))
      ≡ build_sse_url encode base_url none
unfolding build_sse_url
build_sse_url-blank encode base_url = refl
