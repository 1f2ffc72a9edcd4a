-- ===== src/Resources/Queues.antt =====
-- spooled/resources/queues.go.
pub mod Types
use spooled_sdk_go.Common.{◌++◌, Option, none, some, Text, [], lit}
use spooled_sdk_go.Resources.Values.{Slice}
use spooled_sdk_go.Resources.{
  Decodes, Api, Nothing, Call, base_get, base_post, base_put, base_delete,
}
use spooled_sdk_go.Resources.Queues.Types.{
  QueueListItem, QueueConfig, UpdateQueueConfigRequest, QueueStats, PauseQueueRequest,
  PauseQueueResponse, ResumeQueueResponse, update_queue_config_request_json,
  pause_queue_request_json,
}

module _ (api : Api) where
  unfoldable pub list : ⦃d : Decodes (Slice QueueListItem)⦄ → Call api (Slice QueueListItem)
  unfolding base_get
  list = base_get api (lit "/api/v1/queues")

  unfoldable pub get : ⦃d : Decodes QueueConfig⦄ → Text → Call api QueueConfig
  unfolding base_get
  get name = base_get api (lit "/api/v1/queues/" ++ name)

  unfoldable pub update_config :
      ⦃d : Decodes QueueConfig⦄ → Text → UpdateQueueConfigRequest → Call api QueueConfig
  unfolding base_put
  update_config name req =
      base_put api (lit "/api/v1/queues/" ++ name) (some (update_queue_config_request_json req))

  unfoldable pub get_stats : ⦃d : Decodes QueueStats⦄ → Text → Call api QueueStats
  unfolding base_get
  get_stats name = base_get api (lit "/api/v1/queues/" ++ (name ++ lit "/stats"))

  unfoldable pub pause :
      ⦃d : Decodes PauseQueueResponse⦄
      → Text
      → Option PauseQueueRequest
      → Call api PauseQueueResponse
  unfolding base_post
  pause name req =
      let body : PauseQueueRequest = elim req [ some r ↦ r | none ↦ record { reason = none } ] in
      base_post api (lit "/api/v1/queues/" ++ (name ++ lit "/pause"))
        (some (pause_queue_request_json body))

  unfoldable pub resume : ⦃d : Decodes ResumeQueueResponse⦄ → Text → Call api ResumeQueueResponse
  unfolding base_post
  resume name = base_post api (lit "/api/v1/queues/" ++ (name ++ lit "/resume")) none

  unfoldable pub delete : Text → Call api Nothing
  unfolding base_delete
  delete name = base_delete api (lit "/api/v1/queues/" ++ name)
