-- ===== src/Exports/Fresh.antt =====
-- What the functions of spooled/exports.go do first with a client that `CreateClient` made.
use spooled_sdk_go.Common.{
  ◌+◌, ◌≤◌, ◌≡◌, refl, sym, ap, subst, ◌∙◌, inl, inr, ◌↔◌, Bool, true, false, ◌++◌, Option, none,
  some, pos, Text, [], ◌∷◌, lit, is_empty, text_eq, length, arith, Returns,
}
use spooled_sdk_go.Runtime.{Runtime}
use spooled_sdk_go.Errors.Public.{BeginsWith, valid_prefixes}
use spooled_sdk_go.Transport.{Transport, Request, Response, State, new_transport}
use spooled_sdk_go.Transport.Rounds.{refreshes}
use spooled_sdk_go.Transport.Limits.{retry_budget}
use spooled_sdk_go.Client.{
  ClientConfig, with_api_key, apply_option, apply_options, new_default_config, derive_urls,
  resolve_config, check_config,
}
use spooled_sdk_go.Client.Urls.{check_config_iff}
use spooled_sdk_go.Client.Make.{transport_config, new_client}
use spooled_sdk_go.Client.Make.Sends.{made_of, three_retries, default_retries}
use spooled_sdk_go.Auth.{TokenRefresher}
use spooled_sdk_go.Resources.{
  Packages, Api, Decodes, Answer, returns, perform, plain_request, with_json, decode_response,
  ignore_response, base_post, base_get, base_delete, base_get_with_query,
}
use spooled_sdk_go.Resources.Values.{Json, JsonObject, Slice, Time}
use spooled_sdk_go.Resources.Jobs
use spooled_sdk_go.Resources.Jobs.{create, cancel, list}
use spooled_sdk_go.Resources.Jobs.Types.{
  Job, CreateJobRequest, CreateJobResponse, ListJobsParams, create_job_request_json,
}
use spooled_sdk_go.Resources.Workers.{register}
use spooled_sdk_go.Resources.Workers.Types.{
  Worker, RegisterWorkerRequest, RegisterWorkerResponse, register_worker_request_json,
}
use spooled_sdk_go.Resources.Webhooks
use spooled_sdk_go.Resources.Webhooks.Types.{
  OutgoingWebhook, CreateOutgoingWebhookRequest, create_outgoing_webhook_request_json,
}
use spooled_sdk_go.Resources.Health
use spooled_sdk_go.Resources.Queues
use spooled_sdk_go.Resources.Queues.Types.{QueueStats}
use spooled_sdk_go.Resources.Workers
use spooled_sdk_go.Resources.Dashboard
use spooled_sdk_go.Resources.Dashboard.Types.{DashboardData}
use spooled_sdk_go.Resources.Health.Types.{HealthResponse}
use spooled_sdk_go.Resources.Bounds.{
  Sends, IsTotal, budget, perform-budget, post_budget, decode_response-IsTotal, then_call-Sends,
}
use spooled_sdk_go.Exports.{
  create_client, job_for, create_job, create_job_with_options, create_scheduled_job, get_job,
  cancel_job, list_jobs, register_worker, create_webhook, get_health, get_queue_stats, list_workers,
  get_dashboard,
}

module _ {Float : Type 0} where
  derive_urls-keys :
      (c : ClientConfig Float)
      → ((derive_urls c).api_key ≡ c.api_key)
        × ((derive_urls c).access_token ≡ c.access_token)
        × ((derive_urls c).refresh_token ≡ c.refresh_token)
  unfolding derive_urls
  derive_urls-keys c = (ground arith, ground arith, ground arith)

  -- The configuration of a client with only an API key.
  key_config :
      (two : Float) (agent key : Text)
      → let c = resolve_config two agent (with_api_key key ∷ []) in
        (c.api_key ≡ key) × (c.access_token ≡ []) × (c.refresh_token ≡ [])
  unfolding resolve_config apply_options apply_option new_default_config
  key_config two agent key =
      derive_urls-keys (apply_options (with_api_key key ∷ []) (new_default_config two agent))

  key_config-checks :
      (two : Float) (agent key : Text)
      → let c = resolve_config two agent (with_api_key key ∷ []) in
        (check_config c ≡ none) ↔ (BeginsWith valid_prefixes key × (20 ≤ length key))
  key_config-checks two agent key =
      let c = resolve_config two agent (with_api_key key ∷ []) in
      let (k, a, _) = key_config two agent key in
      let (there, back) = check_config_iff c in
      (
        λ h. elim (there h) [
          | inl (_, n) ↦ absurd (grind (arith, ap is_empty a))
          | inr g ↦ subst (λ x. BeginsWith valid_prefixes x × (20 ≤ length x)) k g
        ],
        λ g. back (inr (subst (λ x. BeginsWith valid_prefixes x × (20 ≤ length x)) (sym k) g)),
      )

-- The result of `NewClient` is a client exactly if there is no error.
made_of_none :
    {A : Type 0} (o : Option Text) (p : A)
    → ((q : A) × (elim o [ some e ↦ inl e | none ↦ inr p ] ≡ inr q)) ↔ (o ≡ none)
made_of_none none p = (λ h. refl, λ h. (p, refl))
made_of_none (some e) p = (λ (q, h). cc, λ h. cc)

module _ (rt : Runtime) where
  open rt use {World, floats}
  open floats use {Float, two}

  no_refresher :
      (agent : Text) (c : ClientConfig Float) (w : World)
      → c.access_token ≡ []
      → c.refresh_token ≡ []
      → (new_transport rt agent (transport_config c) w).1.token_refresher ≡ none
  unfolding new_transport transport_config
  no_refresher agent c w a r = ground arith

  -- `CreateClient` makes a client exactly of an API key that begins with one of the four prefixes and
  -- is at least 20 bytes long.
  pub create_client_iff :
      (agent key : Text) (w : World)
      → ((ts : Transport Float × State World) × (create_client rt agent key w ≡ inr ts))
        ↔ (BeginsWith valid_prefixes key × (20 ≤ length key))
  unfolding create_client new_client
  create_client_iff agent key w =
      let c = resolve_config two agent (with_api_key key ∷ []) in
      let (there, back) =
        made_of_none (check_config c) (new_transport rt agent (transport_config c) w) in
      let (there', back') = key_config-checks two agent key in
      (λ h. there' (there h), λ g. back (back' g))

  -- The client has three retries, no token to refresh, and has sent nothing.
  fresh :
      (agent key : Text) (w : World) (t : Transport Float) (s : State World)
      → create_client rt agent key w ≡ inr (t, s)
      → (t.retry.max_retries ≡ pos 3) × (s.token_refresher ≡ none) × (s.log ≡ [])
  unfolding create_client
  fresh agent key w t s h =
      let os = with_api_key key ∷ [] in
      let c = resolve_config two agent os in
      let m = made_of rt agent os w t s h in
      let (r, l) = three_retries rt agent c w (default_retries two agent os (refl, tt)) in
      let (_, a, f) = key_config two agent key in
      (
        ap (λ p. p.0.retry.max_retries) (sym m) ∙ r,
        ap (λ p. p.1.token_refresher) (sym m) ∙ no_refresher agent c w a f,
        ap (λ p. p.1.log) (sym m) ∙ l,
      )

  -- What the resources of a client hold.
  abbrev pub client_api : Packages → Transport Float → Api
  client_api packages t = record { rt = rt; packages = packages; transport = t }

  module _ (packages : Packages) (agent key : Text) (w : World) (t : Transport Float)
      (s : State World) (made : create_client rt agent key w ≡ inr (t, s)) where
    abbrev api : Api
    api = client_api packages t

    no_refreshes : (b : Bool) (o : Option TokenRefresher) → o ≡ none → refreshes b false o ≡ 0
    no_refreshes true o h = rw h refl
    no_refreshes false o h = refl

    first_call :
        {B : Type 0} (f : Option Response → Answer B) (req : Request)
        → IsTotal api f
        → Returns (Sends api (retry_budget req 3 + 1) s) (perform api f req s)
    first_call f req total =
        let (r, k, _) = fresh agent key w t s made in
        let e : budget api req 3 s ≡ retry_budget req 3 + 1 =
          omega (arith, no_refreshes t.auto_refresh_token s.token_refresher k) in
        subst (λ m. Returns (Sends api m s) (perform api f req s)) e
          (perform-budget api f req 3 s total r (omega arith))

    first_post :
        (B : Type 0) ⦃d : Decodes B⦄ (path : Text) (body : Option Json)
        → Returns (Sends api {B = B} 1 s) (base_post api path body s)
    unfolding base_post
    first_post B path body =
        subst (λ m. Returns (Sends api {B = B} (m + 1) s) (base_post api path body s))
          (post_budget api path body 3)
          (first_call (decode_response api) (with_json api body (plain_request (lit "POST") path))
            (decode_response-IsTotal api B))

    first_get :
        (B : Type 0) ⦃d : Decodes B⦄ (path : Text)
        → Returns (Sends api {B = B} 4 s) (base_get api path s)
    unfolding base_get lit text_eq
    first_get B path =
        first_call (decode_response api) (plain_request (lit "GET") path)
          (decode_response-IsTotal api B)

    first_create :
        ⦃d : Decodes CreateJobResponse⦄ (req : CreateJobRequest)
        → Returns (Sends api 1 s) (create_job_with_options api req s)
    unfolding create_job_with_options create
    first_create req =
        then_call-Sends api 1 0 s (create api req s) (λ resp s'. some (returns resp.id, s'))
          (first_post CreateJobResponse (lit "/api/v1/jobs")
            (some (create_job_request_json packages.format_time req)))
          (λ resp s'. (tt, omega arith))

    -- With a client that `CreateClient` has made, the first call of `CreateJob`,
    -- `CreateJobWithOptions`, `CreateScheduledJob`, `RegisterWorker` or `CreateWebhook` sends at most
    -- one request, and that of `GetJob`, `CancelJob`, `ListJobs`, `GetQueueStats`, `ListWorkers`,
    -- `GetDashboard` or `GetHealth` at most four; none panics.
    pub first_calls :
        ⦃c : Decodes CreateJobResponse⦄ ⦃d : Decodes RegisterWorkerResponse⦄
        ⦃e : Decodes OutgoingWebhook⦄ ⦃f : Decodes Job⦄ ⦃g : Decodes (Slice Job)⦄
        ⦃h : Decodes HealthResponse⦄ ⦃i : Decodes QueueStats⦄ ⦃j : Decodes (Slice Worker)⦄
        ⦃k : Decodes DashboardData⦄
        → ((q : Text) (p : JsonObject) → Returns (Sends api 1 s) (create_job api q p s))
          × ((q : Text) (p : JsonObject) (at : Time)
              → Returns (Sends api 1 s) (create_scheduled_job api q p at s))
          × ((r : RegisterWorkerRequest) → Returns (Sends api 1 s) (register_worker api r s))
          × ((r : CreateOutgoingWebhookRequest) → Returns (Sends api 1 s) (create_webhook api r s))
          × ((id : Text) → Returns (Sends api 4 s) (get_job api id s))
          × ((id : Text) → Returns (Sends api 4 s) (cancel_job api id s))
          × ((o : Option ListJobsParams) → Returns (Sends api 4 s) (list_jobs api o s))
          × Returns (Sends api 4 s) (get_health api s)
          × ((r : CreateJobRequest) → Returns (Sends api 1 s) (create_job_with_options api r s))
          × ((name : Text) → Returns (Sends api 4 s) (get_queue_stats api name s))
          × Returns (Sends api 4 s) (list_workers api s)
          × Returns (Sends api 4 s) (get_dashboard api s)
    unfolding create_job create_scheduled_job create_job_with_options register_worker register
        create_webhook Webhooks.create get_job Jobs.get cancel_job cancel list_jobs list get_health
        Health.get get_queue_stats Queues.get_stats list_workers Workers.list get_dashboard
        Dashboard.get base_delete base_get_with_query lit text_eq
    first_calls = (
      λ q p. first_create (job_for q p none),
      λ q p at. first_create (job_for q p (some at)),
      λ r.
          first_post RegisterWorkerResponse (lit "/api/v1/workers/register")
            (some (register_worker_request_json r)),
      λ r.
          first_post OutgoingWebhook (lit "/api/v1/outgoing-webhooks")
            (some (create_outgoing_webhook_request_json r)),
      λ id. first_get Job (lit "/api/v1/jobs/" ++ id),
      λ id.
          first_call (ignore_response api)
            (plain_request (lit "DELETE") (lit "/api/v1/jobs/" ++ id)) (λ resp. tt),
      λ o. first_call (decode_response api) _ (decode_response-IsTotal api (Slice Job)),
      first_get HealthResponse (lit "/health"),
      λ r. first_create r,
      λ name. first_get QueueStats (lit "/api/v1/queues/" ++ (name ++ lit "/stats")),
      first_get (Slice Worker) (lit "/api/v1/workers"),
      first_get DashboardData (lit "/api/v1/dashboard"),
    )
