-- ===== src/Resources/Schedules.antt =====
-- spooled/resources/schedules.go.
pub mod Types
use spooled_sdk_go.Common.{◌++◌, Option, none, some, ℤ, Text, List, [], lit, if◌then◌else◌}
use spooled_sdk_go.Resources.Values.{Slice}
use spooled_sdk_go.Resources.{
  Decodes, Api, Nothing, set_value, set_option, Call, base_get, base_get_with_query, base_post,
  base_put, base_delete, add_pagination_params,
}
use spooled_sdk_go.Resources.Schedules.Types.{
  Schedule, ListSchedulesParams, CreateScheduleRequest, UpdateScheduleRequest,
  TriggerScheduleResponse, ScheduleRun, create_schedule_request_json, update_schedule_request_json,
}

module _ (api : Api) where
  unfoldable pub list_query : Option ListSchedulesParams → List (Text × Text)
  unfolding add_pagination_params set_value
  list_query none = []
  list_query (some p) = add_pagination_params api p.limit p.offset (
      set_option (lit "is_active") (λ b. if b then lit "true" else lit "false") p.is_active
        (set_option (lit "queue_name") (λ t. t) p.queue_name []))

  unfoldable pub list :
      ⦃d : Decodes (Slice Schedule)⦄ → Option ListSchedulesParams → Call api (Slice Schedule)
  unfolding base_get_with_query list_query
  list params = base_get_with_query api (lit "/api/v1/schedules") (list_query params)

  unfoldable pub create : ⦃d : Decodes Schedule⦄ → CreateScheduleRequest → Call api Schedule
  unfolding base_post
  create req = base_post api (lit "/api/v1/schedules") (some (create_schedule_request_json req))

  unfoldable pub get : ⦃d : Decodes Schedule⦄ → Text → Call api Schedule
  unfolding base_get
  get id = base_get api (lit "/api/v1/schedules/" ++ id)

  unfoldable pub update : ⦃d : Decodes Schedule⦄ → Text → UpdateScheduleRequest → Call api Schedule
  unfolding base_put
  update id req =
      base_put api (lit "/api/v1/schedules/" ++ id) (some (update_schedule_request_json req))

  unfoldable pub delete : Text → Call api Nothing
  unfolding base_delete
  delete id = base_delete api (lit "/api/v1/schedules/" ++ id)

  unfoldable pub pause : ⦃d : Decodes Schedule⦄ → Text → Call api Schedule
  unfolding base_post
  pause id = base_post api (lit "/api/v1/schedules/" ++ (id ++ lit "/pause")) none

  unfoldable pub resume : ⦃d : Decodes Schedule⦄ → Text → Call api Schedule
  unfolding base_post
  resume id = base_post api (lit "/api/v1/schedules/" ++ (id ++ lit "/resume")) none

  unfoldable pub trigger :
      ⦃d : Decodes TriggerScheduleResponse⦄ → Text → Call api TriggerScheduleResponse
  unfolding base_post
  trigger id = base_post api (lit "/api/v1/schedules/" ++ (id ++ lit "/trigger")) none

  unfoldable pub history :
      ⦃d : Decodes (Slice ScheduleRun)⦄ → Text → Option ℤ → Call api (Slice ScheduleRun)
  unfolding base_get_with_query add_pagination_params
  history id limit =
      base_get_with_query api (lit "/api/v1/schedules/" ++ (id ++ lit "/history"))
        (add_pagination_params api limit none [])
