-- ===== src/Resources/Jobs/Sends.antt =====
-- How often the operations of spooled/resources/jobs.go reach the API.
use spooled_sdk_go.Common.{
  ℕ, ◌+◌, ◌≤◌, ◌<◌, ◌^◌, ◌≡◌, refl, inl, inr, ◌⊎◌, Bool-cases, ◌++◌, true, false, Option, none,
  some, pos, Text, List, [], ◌∷◌, lit, is_empty, join, length, ltb, text_eq, arith, Returns,
  if◌then◌else◌,
}
use spooled_sdk_go.Errors.{plain}
use spooled_sdk_go.Transport.{State}
use spooled_sdk_go.Resources.Values.{Slice}
use spooled_sdk_go.Resources.{
  Api, Decodes, returns, fails, plain_request, base_post, perform, decode_response,
  base_get_with_query, values_to_map, set_value, set_option, add_pagination_params,
}
use spooled_sdk_go.Resources.Bounds.{
  Sends, base_post-Sends, base_post_only-Sends, base_get-Sends, then_call-Sends,
}
use spooled_sdk_go.Resources.Jobs.Types.{
  Job, CreateJobRequest, CreateJobResponse, ClaimJobsRequest, ClaimJobsResponse, CompleteJobRequest,
  FailJobRequest, HeartbeatRequest, RenewLeaseRequest, RenewLeaseResponse, UpdateProgressRequest,
  update_progress_request_json, BatchJobStatus, ListJobsParams, create_job_request_json,
  claim_jobs_request_json, complete_job_request_json, fail_job_request_json, heartbeat_request_json,
}
use spooled_sdk_go.Resources.Jobs.Many.{
  BulkEnqueueRequest, BulkEnqueueResponse, bulk_enqueue_request_json,
}
use spooled_sdk_go.Resources.Jobs.{
  create, create_and_get, get, claim, bulk_enqueue, retry, complete, fail, heartbeat, renew_lease,
  update_progress, batch_status, list, list_query,
}

set_option-skip :
    {A : Type 0} (j k : Text) (f : A → Text) (o : Option A) (q : List (Text × Text))
    → text_eq j k ≡ false
    → set_option k f o ((j, []) ∷ q) ≡ (j, []) ∷ set_option k f o q
unfolding set_value
set_option-skip j k f none q h = refl
set_option-skip j k f (some x) q h = rw h refl

filters_differ :
    (text_eq (lit "queue_name") (lit "status") ≡ false)
    × (text_eq (lit "queue_name") (lit "tag") ≡ false)
    × (text_eq (lit "queue_name") (lit "limit") ≡ false)
    × (text_eq (lit "queue_name") (lit "offset") ≡ false)
unfolding lit text_eq
filters_differ = (refl, refl, refl, refl)

module _ (api : Api) where
  open api use {rt, packages, transport}
  open rt use {World}

  module _ (n : ℕ) (m : transport.retry.max_retries ≡ pos n) (b : n + 1 < 2 ^ 63) where
    create-Sends :
        ⦃d : Decodes CreateJobResponse⦄ (req : CreateJobRequest) (s : State World)
        → Returns (Sends api 2 s) (create api req s)
    unfolding create
    create-Sends req s =
        base_post-Sends api CreateJobResponse (lit "/api/v1/jobs")
          (some (create_job_request_json packages.format_time req)) n s m b

    get-Sends :
        ⦃d : Decodes Job⦄ (id : Text) (s : State World)
        → Returns (Sends api (n + 2) s) (get api id s)
    unfolding get
    get-Sends id s = base_get-Sends api Job (lit "/api/v1/jobs/" ++ id) n s m b

    pub claim-Sends :
        ⦃d : Decodes ClaimJobsResponse⦄ (req : ClaimJobsRequest) (s : State World)
        → Returns (Sends api 2 s) (claim api req s)
    unfolding claim
    claim-Sends req s =
        base_post-Sends api ClaimJobsResponse (lit "/api/v1/jobs/claim")
          (some (claim_jobs_request_json req)) n s m b

    pub complete-Sends :
        (id : Text) (req : CompleteJobRequest) (s : State World)
        → Returns (Sends api 2 s) (complete api id req s)
    unfolding complete
    complete-Sends id req s =
        base_post_only-Sends api (lit "/api/v1/jobs/" ++ (id ++ lit "/complete"))
          (some (complete_job_request_json req)) n s m b

    pub fail-Sends :
        (id : Text) (req : FailJobRequest) (s : State World)
        → Returns (Sends api 2 s) (fail api id req s)
    unfolding fail
    fail-Sends id req s =
        base_post_only-Sends api (lit "/api/v1/jobs/" ++ (id ++ lit "/fail"))
          (some (fail_job_request_json req)) n s m b

    pub update_progress-Sends :
        (id : Text) (req : UpdateProgressRequest) (s : State World)
        → Returns (Sends api 2 s) (update_progress api id req s)
    unfolding update_progress
    update_progress-Sends id req s =
        base_post_only-Sends api (lit "/api/v1/jobs/" ++ (id ++ lit "/progress"))
          (some (update_progress_request_json req)) n s m b

    pub renew_lease-Sends :
        ⦃d : Decodes RenewLeaseResponse⦄ (id : Text) (req : RenewLeaseRequest) (s : State World)
        → Returns (Sends api 2 s) (renew_lease api id req s)
    unfolding renew_lease
    renew_lease-Sends id req s =
        let hb_req : HeartbeatRequest = record {
          worker_id = req.worker_id;
          lease_duration_secs = some req.lease_duration_secs;
        } in
        then_call-Sends api {A = RenewLeaseResponse} 2 0 s
          (base_post api (lit "/api/v1/jobs/" ++ (id ++ lit "/heartbeat"))
            (some (heartbeat_request_json hb_req)) s)
          (λ result s'. some (returns (record result { success = true }), s'))
          (base_post-Sends api RenewLeaseResponse (lit "/api/v1/jobs/" ++ (id ++ lit "/heartbeat"))
            (some (heartbeat_request_json hb_req)) n s m b)
          (λ result s'. (tt, omega arith))

    create_and_get-Sends :
        ⦃c : Decodes CreateJobResponse⦄ ⦃d : Decodes Job⦄ (req : CreateJobRequest) (s : State World)
        → Returns (Sends api (2 + (n + 2)) s) (create_and_get api req s)
    unfolding create_and_get
    create_and_get-Sends req s =
        then_call-Sends api 2 (n + 2) s (create api req s) (λ resp. get api resp.id)
          (create-Sends req s) (λ resp s'. get-Sends resp.id s')

    -- With n retries configured (n + 1 within an `int`), `Create`, `BulkEnqueue`, `Claim`, `Retry`,
    -- `Complete`, `Fail` and `Heartbeat` of jobs each send at most two requests through the
    -- transport's client, `CreateAndGet` at most n + 4 (two to create the job and n + 2 to read it),
    -- and none panics. The requests of the token refresher are not counted.
    pub job_posts_send :
        ⦃c : Decodes CreateJobResponse⦄ ⦃e : Decodes BulkEnqueueResponse⦄
        ⦃f : Decodes ClaimJobsResponse⦄ ⦃g : Decodes Job⦄ (id : Text) (s : State World)
        → ((req : CreateJobRequest) → Returns (Sends api 2 s) (create api req s))
          × ((req : BulkEnqueueRequest) → Returns (Sends api 2 s) (bulk_enqueue api req s))
          × ((req : ClaimJobsRequest) → Returns (Sends api 2 s) (claim api req s))
          × Returns (Sends api 2 s) (retry api id s)
          × ((req : CompleteJobRequest) → Returns (Sends api 2 s) (complete api id req s))
          × ((req : FailJobRequest) → Returns (Sends api 2 s) (fail api id req s))
          × ((req : HeartbeatRequest) → Returns (Sends api 2 s) (heartbeat api id req s))
          × ((req : CreateJobRequest)
              → Returns (Sends api (2 + (n + 2)) s) (create_and_get api req s))
    unfolding bulk_enqueue claim retry complete fail heartbeat
    job_posts_send id s = (
      λ req. create-Sends req s,
      λ req.
          base_post-Sends api BulkEnqueueResponse (lit "/api/v1/jobs/bulk")
            (some (bulk_enqueue_request_json packages.format_time req)) n s m b,
      λ req. claim-Sends req s,
      base_post-Sends api Job (lit "/api/v1/jobs/" ++ (id ++ lit "/retry")) none n s m b,
      λ req. complete-Sends id req s,
      λ req. fail-Sends id req s,
      λ req.
          base_post_only-Sends api (lit "/api/v1/jobs/" ++ (id ++ lit "/heartbeat"))
            (some (heartbeat_request_json req)) n s m b,
      λ req. create_and_get-Sends req s,
    )

  -- The status of no jobs is no jobs, without a request; that of more than 100 is an error, without
  -- a request; and that of others is read by one GET with the ids joined by commas, or without that
  -- parameter if the joined text is empty (one empty id).
  pub batch_status_cases :
      ⦃d : Decodes (Slice BatchJobStatus)⦄ (ids : List Text) (s : State World)
      → ((ids ≡ []) × (batch_status api ids s ≡ some (returns (some []), s)))
        ⊎ ((100 < length ids)
            × (batch_status api ids s
                ≡ some (fails (plain (lit "maximum 100 job IDs allowed per request")), s)))
        ⊎ ((1 ≤ length ids)
            × (length ids ≤ 100)
            × (batch_status api ids s
                ≡ perform api
                    (decode_response api)
                    (record (plain_request (lit "GET") (lit "/api/v1/jobs/status")) {
                      query =
                          if is_empty (join (lit ",") ids)
                          then []
                          else (lit "ids", join (lit ",") ids) ∷ [];
                    })
                    s))
  unfolding batch_status base_get_with_query set_value values_to_map
  batch_status_cases [] s = inl (refl, refl)
  batch_status_cases (id ∷ ids) s = elim (Bool-cases (ltb 100 (length (id ∷ ids)))) [
    | inl h ↦ inr (inl (ground (arith, h), rw (batch_status, h) refl))
    | inr h ↦ inr (inr (omega arith, ground (arith, h), rw (batch_status, h) refl))
  ]

  list_query-blank :
      (p : ListJobsParams)
      → values_to_map (list_query api (some (record p { queue_name = some [] })))
        ≡ values_to_map (list_query api (some (record p { queue_name = none })))
  unfolding list_query add_pagination_params set_value values_to_map
  list_query-blank p =
      let (a, b, c, d) = filters_differ in
      let q = set_option (lit "status") (λ t. t) p.status [] in
      let q' = set_option (lit "tag") (λ t. t) p.tag q in
      let q'' = set_option (lit "limit") packages.itoa p.limit q' in
      rw
        (
          list_query,
          add_pagination_params,
          set_option-skip (lit "queue_name") (lit "status") (λ t. t) p.status [] a,
          set_option-skip (lit "queue_name") (lit "tag") (λ t. t) p.tag q b,
          set_option-skip (lit "queue_name") (lit "limit") packages.itoa p.limit q' c,
          set_option-skip (lit "queue_name") (lit "offset") packages.itoa p.offset q'' d,
        )
        refl

  -- A filter by an empty queue name is dropped: `List` then makes the call that it makes without
  -- the filter, which lists the jobs of every queue.
  pub blank_filter :
      ⦃d : Decodes (Slice Job)⦄ (p : ListJobsParams) (s : State World)
      → list api (some (record p { queue_name = some [] })) s
        ≡ list api (some (record p { queue_name = none })) s
  unfolding list base_get_with_query
  blank_filter p s = rw (list, base_get_with_query, list_query-blank p) refl
