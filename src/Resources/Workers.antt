-- ===== src/Resources/Workers.antt =====
-- spooled/resources/workers.go.
pub mod Types
pub mod Sends
use spooled_sdk_go.Common.{◌++◌, some, Text, lit}
use spooled_sdk_go.Resources.Values.{Slice}
use spooled_sdk_go.Resources.{
  Decodes, Api, Nothing, Call, base_get, base_post, base_post_only, base_delete,
}
use spooled_sdk_go.Resources.Workers.Types.{
  Worker, RegisterWorkerRequest, RegisterWorkerResponse, WorkerHeartbeatRequest,
  register_worker_request_json, worker_heartbeat_request_json,
}

module _ (api : Api) where
  unfoldable pub list : ⦃d : Decodes (Slice Worker)⦄ → Call api (Slice Worker)
  unfolding base_get
  list = base_get api (lit "/api/v1/workers")

  unfoldable pub get : ⦃d : Decodes Worker⦄ → Text → Call api Worker
  unfolding base_get
  get id = base_get api (lit "/api/v1/workers/" ++ id)

  unfoldable pub register :
      ⦃d : Decodes RegisterWorkerResponse⦄ → RegisterWorkerRequest → Call api RegisterWorkerResponse
  unfolding base_post
  register req =
      base_post api (lit "/api/v1/workers/register") (some (register_worker_request_json req))

  unfoldable pub heartbeat : Text → WorkerHeartbeatRequest → Call api Nothing
  unfolding base_post_only
  heartbeat id req =
      base_post_only api (lit "/api/v1/workers/" ++ (id ++ lit "/heartbeat"))
        (some (worker_heartbeat_request_json req))

  unfoldable pub deregister : Text → Call api Nothing
  unfolding base_delete
  deregister id = base_delete api (lit "/api/v1/workers/" ++ id)
