-- ===== src/Resources/Workers/Sends.antt =====
-- How often the operations of spooled/resources/workers.go that a worker uses reach the API.
use spooled_sdk_go.Common.{ℕ, ◌+◌, ◌<◌, ◌^◌, ◌≡◌, some, pos, Text, ◌++◌, lit, text_eq, Returns}
use spooled_sdk_go.Transport.{State}
use spooled_sdk_go.Resources.{Api, Decodes, plain_request, ignore_response, base_delete}
use spooled_sdk_go.Resources.Bounds.{Sends, base_post-Sends, base_post_only-Sends, perform-Sends}
use spooled_sdk_go.Resources.Workers.Types.{
  RegisterWorkerRequest, RegisterWorkerResponse, WorkerHeartbeatRequest,
  register_worker_request_json, worker_heartbeat_request_json,
}
use spooled_sdk_go.Resources.Workers.{register, heartbeat, deregister}

module _ (api : Api) where
  open api use {rt, transport}
  open rt use {World}

  module _ (n : ℕ) (m : transport.retry.max_retries ≡ pos n) (b : n + 1 < 2 ^ 63) where
    pub register-Sends :
        ⦃d : Decodes RegisterWorkerResponse⦄ (req : RegisterWorkerRequest) (s : State World)
        → Returns (Sends api 2 s) (register api req s)
    unfolding register
    register-Sends req s =
        base_post-Sends api RegisterWorkerResponse (lit "/api/v1/workers/register")
          (some (register_worker_request_json req)) n s m b

    pub heartbeat-Sends :
        (id : Text) (req : WorkerHeartbeatRequest) (s : State World)
        → Returns (Sends api 2 s) (heartbeat api id req s)
    unfolding heartbeat
    heartbeat-Sends id req s =
        base_post_only-Sends api (lit "/api/v1/workers/" ++ (id ++ lit "/heartbeat"))
          (some (worker_heartbeat_request_json req)) n s m b

    pub deregister-Sends :
        (id : Text) (s : State World) → Returns (Sends api (n + 2) s) (deregister api id s)
    unfolding deregister base_delete lit text_eq
    deregister-Sends id s =
        perform-Sends api (ignore_response api)
          (plain_request (lit "DELETE") (lit "/api/v1/workers/" ++ id)) n s (λ resp. tt) m b
