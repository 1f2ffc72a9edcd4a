-- ===== src/Examples/Calls.antt =====
-- The resources at concrete inputs: a network that never answers.
use spooled_sdk_go.Common.{
  ◌+◌, ◌≡◌, refl, ◌⊎◌, ◌&&◌, ◌||◌, ◌++◌, true, false, none, some, [], lit, is_empty, arith, Returns,
}
use spooled_sdk_go.Errors.{Error}
use spooled_sdk_go.Transport.{marshals}
use spooled_sdk_go.Transport.Once.{ok, err}
use spooled_sdk_go.Resources.Values.{null}
use spooled_sdk_go.Resources.{Packages, Decodes, Api, fails, perform, ignore_response}
use spooled_sdk_go.Resources.Bounds.{Sends}
use spooled_sdk_go.Resources.Jobs.Types.{
  Job, CreateJobRequest, CreateJobResponse, ClaimJobsRequest, ClaimJobsResponse, CompleteJobRequest,
  FailJobRequest, HeartbeatRequest,
}
use spooled_sdk_go.Resources.Jobs.Many.{BulkEnqueueRequest, BulkEnqueueResponse}
use spooled_sdk_go.Resources.Jobs.{
  create, create_and_get, claim, bulk_enqueue, retry, complete, fail, heartbeat,
}
use spooled_sdk_go.Resources.Jobs.Sends.{job_posts_send}
use spooled_sdk_go.Resources.Ingest.Types.{GithubIngestOptions}
use spooled_sdk_go.Resources.Ingest.{github, github_headers, ingest_request}
use spooled_sdk_go.Resources.Ingest.Signed.{hub_signature, github_cases}
use spooled_sdk_go.Examples.Requests.{dead_network, refused, some_transport, fresh_state}

abbrev pub some_packages : Packages
some_packages = record {
  marshal = λ v. marshals (lit "null");
  unmarshal_any = λ text. ok null;
  format_time = λ at. lit "1970-01-01T00:00:00Z";
  itoa = λ n. lit "1";
  hmac_sha256 = λ key text. key ++ text;
}

abbrev pub some_api : Api
some_api = record { rt = dead_network; packages = some_packages; transport = some_transport }

-- Decoders that know no text.
instance abbrev pub job_decoder : Decodes Job
job_decoder = record { unmarshal = λ text. err refused }

instance abbrev pub created_decoder : Decodes CreateJobResponse
created_decoder = record { unmarshal = λ text. err refused }

instance abbrev pub bulk_decoder : Decodes BulkEnqueueResponse
bulk_decoder = record { unmarshal = λ text. err refused }

instance abbrev pub claim_decoder : Decodes ClaimJobsResponse
claim_decoder = record { unmarshal = λ text. err refused }

abbrev some_job : CreateJobRequest
some_job = record {
  queue_name = lit "emails";
  payload = none;
  priority = none;
  max_retries = none;
  timeout_seconds = none;
  scheduled_at = none;
  expires_at = none;
  idempotency_key = none;
  tags = none;
  parent_job_id = none;
  completion_webhook = none;
}

job_posts_send_example :
    ((req : CreateJobRequest)
      → Returns (Sends some_api 2 fresh_state) (create some_api req fresh_state))
    × ((req : BulkEnqueueRequest)
        → Returns (Sends some_api 2 fresh_state) (bulk_enqueue some_api req fresh_state))
    × ((req : ClaimJobsRequest)
        → Returns (Sends some_api 2 fresh_state) (claim some_api req fresh_state))
    × Returns (Sends some_api 2 fresh_state) (retry some_api (lit "j1") fresh_state)
    × ((req : CompleteJobRequest)
        → Returns (Sends some_api 2 fresh_state) (complete some_api (lit "j1") req fresh_state))
    × ((req : FailJobRequest)
        → Returns (Sends some_api 2 fresh_state) (fail some_api (lit "j1") req fresh_state))
    × ((req : HeartbeatRequest)
        → Returns (Sends some_api 2 fresh_state) (heartbeat some_api (lit "j1") req fresh_state))
    × ((req : CreateJobRequest)
        → Returns
            (Sends some_api (2 + (3 + 2)) fresh_state)
            (create_and_get some_api req fresh_state))
job_posts_send_example = job_posts_send some_api 3 refl (omega arith) (lit "j1") fresh_state

abbrev some_push : GithubIngestOptions
some_push = record {
  github_event = lit "push";
  signature = [];
  secret = lit "secret";
  webhook_token = [];
  forwarded_proto = [];
}

github_cases_example :
    ((((is_empty some_push.github_event
          || (is_empty some_push.signature && is_empty some_push.secret))
        ≡ true)
      × ((e : Error) × (github some_api (lit "org") (lit "{}") (some some_push) fresh_state
            ≡ some (fails e, fresh_state)))))
    ⊎ (((is_empty some_push.github_event
            || (is_empty some_push.signature && is_empty some_push.secret))
          ≡ false)
        × (github some_api (lit "org") (lit "{}") (some some_push) fresh_state
            ≡ perform some_api
                (ignore_response some_api)
                (ingest_request some_api
                  (lit "/api/v1/webhooks/" ++ (lit "org" ++ lit "/github"))
                  (lit "{}")
                  (github_headers some_api some_push (hub_signature some_api some_push (lit "{}"))))
                fresh_state))
github_cases_example = github_cases some_api (lit "org") (lit "{}") some_push fresh_state
