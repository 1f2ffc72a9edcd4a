-- ===== src/Resources/Jobs.antt =====
-- spooled/resources/jobs.go.
pub mod Types
pub mod Many
pub mod Sends
use spooled_sdk_go.Common.{
  true, ◌++◌, Option, none, some, Text, List, [], lit, is_empty, if◌then◌else◌, ltb, length, join,
}
use spooled_sdk_go.Resources.Values.{Slice}
use spooled_sdk_go.Resources.{
  Decodes, Api, returns, fails, Nothing, set_value, set_option, Call, base_get, base_get_with_query,
  base_post, base_post_only, base_put, base_delete, add_pagination_params, then_call,
}
use spooled_sdk_go.Errors.{plain}
use spooled_sdk_go.Resources.Jobs.Types.{
  Job, CreateJobRequest, CreateJobResponse, ListJobsParams, BoostPriorityRequest,
  BoostPriorityResponse, JobStats, BatchJobStatus, ClaimJobsRequest, ClaimJobsResponse,
  CompleteJobRequest, FailJobRequest, HeartbeatRequest, RenewLeaseRequest, RenewLeaseResponse,
  UpdateProgressRequest, create_job_request_json, boost_priority_request_json,
  claim_jobs_request_json, complete_job_request_json, fail_job_request_json, heartbeat_request_json,
  update_progress_request_json,
}
use spooled_sdk_go.Resources.Jobs.Many.{
  BulkEnqueueRequest, BulkEnqueueResponse, ListDlqParams, RetryDlqRequest, RetryDlqResponse,
  PurgeDlqRequest, PurgeDlqResponse, bulk_enqueue_request_json, retry_dlq_request_json,
  purge_dlq_request_json,
}

module _ (api : Api) where
  open api use {packages}
  open packages use {format_time}

  unfoldable pub create :
      ⦃d : Decodes CreateJobResponse⦄ → CreateJobRequest → Call api CreateJobResponse
  unfolding base_post
  create req = base_post api (lit "/api/v1/jobs") (some (create_job_request_json format_time req))

  unfoldable pub get : ⦃d : Decodes Job⦄ → Text → Call api Job
  unfolding base_get
  get id = base_get api (lit "/api/v1/jobs/" ++ id)

  unfoldable pub list_query : Option ListJobsParams → List (Text × Text)
  unfolding add_pagination_params set_value
  list_query none = []
  list_query (some p) = add_pagination_params api p.limit p.offset (
      set_option (lit "tag") (λ t. t) p.tag
        (set_option (lit "status") (λ t. t) p.status
          (set_option (lit "queue_name") (λ t. t) p.queue_name [])))

  unfoldable pub list : ⦃d : Decodes (Slice Job)⦄ → Option ListJobsParams → Call api (Slice Job)
  unfolding base_get_with_query list_query
  list params = base_get_with_query api (lit "/api/v1/jobs") (list_query params)

  unfoldable pub cancel : Text → Call api Nothing
  unfolding base_delete
  cancel id = base_delete api (lit "/api/v1/jobs/" ++ id)

  unfoldable pub retry : ⦃d : Decodes Job⦄ → Text → Call api Job
  unfolding base_post
  retry id = base_post api (lit "/api/v1/jobs/" ++ (id ++ lit "/retry")) none

  unfoldable pub boost_priority :
      ⦃d : Decodes BoostPriorityResponse⦄
      → Text
      → BoostPriorityRequest
      → Call api BoostPriorityResponse
  unfolding base_put
  boost_priority id req =
      base_put api (lit "/api/v1/jobs/" ++ (id ++ lit "/priority"))
        (some (boost_priority_request_json req))

  unfoldable pub get_stats : ⦃d : Decodes JobStats⦄ → Call api JobStats
  unfolding base_get
  get_stats = base_get api (lit "/api/v1/jobs/stats")

  -- The result is an empty slice for no ids, and otherwise what the API answers.
  unfoldable pub batch_status :
      ⦃d : Decodes (Slice BatchJobStatus)⦄ → List Text → Call api (Slice BatchJobStatus)
  unfolding base_get_with_query set_value join
  batch_status ids s =
      if is_empty ids
      then some (returns (some []), s)
      else if ltb 100 (length ids)
      then some (fails (plain (lit "maximum 100 job IDs allowed per request")), s)
      else base_get_with_query api (lit "/api/v1/jobs/status")
          (set_value (lit "ids") (join (lit ",") ids) []) s

  unfoldable pub bulk_enqueue :
      ⦃d : Decodes BulkEnqueueResponse⦄ → BulkEnqueueRequest → Call api BulkEnqueueResponse
  unfolding base_post
  bulk_enqueue req =
      base_post api (lit "/api/v1/jobs/bulk") (some (bulk_enqueue_request_json format_time req))

  unfoldable pub claim :
      ⦃d : Decodes ClaimJobsResponse⦄ → ClaimJobsRequest → Call api ClaimJobsResponse
  unfolding base_post
  claim req = base_post api (lit "/api/v1/jobs/claim") (some (claim_jobs_request_json req))

  unfoldable pub complete : Text → CompleteJobRequest → Call api Nothing
  unfolding base_post_only
  complete id req =
      base_post_only api (lit "/api/v1/jobs/" ++ (id ++ lit "/complete"))
        (some (complete_job_request_json req))

  unfoldable pub fail : Text → FailJobRequest → Call api Nothing
  unfolding base_post_only
  fail id req =
      base_post_only api (lit "/api/v1/jobs/" ++ (id ++ lit "/fail"))
        (some (fail_job_request_json req))

  unfoldable pub heartbeat : Text → HeartbeatRequest → Call api Nothing
  unfolding base_post_only
  heartbeat id req =
      base_post_only api (lit "/api/v1/jobs/" ++ (id ++ lit "/heartbeat"))
        (some (heartbeat_request_json req))

  unfoldable pub renew_lease :
      ⦃d : Decodes RenewLeaseResponse⦄ → Text → RenewLeaseRequest → Call api RenewLeaseResponse
  unfolding base_post then_call
  renew_lease id req s =
      let hb_req : HeartbeatRequest = record {
        worker_id = req.worker_id;
        lease_duration_secs = some req.lease_duration_secs;
      } in
      then_call api {A = RenewLeaseResponse}
        (base_post api (lit "/api/v1/jobs/" ++ (id ++ lit "/heartbeat"))
          (some (heartbeat_request_json hb_req)) s)
        (λ result s'. some (returns (record result { success = true }), s'))

  unfoldable pub update_progress : Text → UpdateProgressRequest → Call api Nothing
  unfolding base_post_only
  update_progress id req =
      base_post_only api (lit "/api/v1/jobs/" ++ (id ++ lit "/progress"))
        (some (update_progress_request_json req))

  unfoldable pub dlq_list_query : Option ListDlqParams → List (Text × Text)
  unfolding add_pagination_params set_value
  dlq_list_query none = []
  dlq_list_query (some p) =
      add_pagination_params api p.limit p.offset
        (set_option (lit "queue_name") (λ t. t) p.queue_name [])

  unfoldable pub dlq_list : ⦃d : Decodes (Slice Job)⦄ → Option ListDlqParams → Call api (Slice Job)
  unfolding base_get_with_query dlq_list_query
  dlq_list params = base_get_with_query api (lit "/api/v1/jobs/dlq") (dlq_list_query params)

  unfoldable pub dlq_retry :
      ⦃d : Decodes RetryDlqResponse⦄ → RetryDlqRequest → Call api RetryDlqResponse
  unfolding base_post
  dlq_retry req = base_post api (lit "/api/v1/jobs/dlq/retry") (some (retry_dlq_request_json req))

  unfoldable pub dlq_purge :
      ⦃d : Decodes PurgeDlqResponse⦄ → PurgeDlqRequest → Call api PurgeDlqResponse
  unfolding base_post
  dlq_purge req = base_post api (lit "/api/v1/jobs/dlq/purge") (some (purge_dlq_request_json req))

  unfoldable pub create_and_get :
      ⦃c : Decodes CreateJobResponse⦄ → ⦃d : Decodes Job⦄ → CreateJobRequest → Call api Job
  unfolding then_call create get
  create_and_get req s = then_call api (create req s) (λ resp. get resp.id)
