-- ===== src/Resources/Workflows.antt =====
-- spooled/resources/workflows.go.
pub mod Types
use spooled_sdk_go.Common.{◌++◌, Option, none, some, Text, List, [], lit}
use spooled_sdk_go.Resources.Values.{Slice}
use spooled_sdk_go.Resources.{
  Decodes, Api, Nothing, set_value, set_option, Call, base_get, base_get_with_query, base_post,
  base_post_only, add_pagination_params,
}
use spooled_sdk_go.Resources.Workflows.Types.{
  Workflow, ListWorkflowsParams, CreateWorkflowRequest, CreateWorkflowResponse, WorkflowJob,
  WorkflowJobStatusResponse, JobWithDependencies, AddDependenciesRequest, AddDependenciesResponse,
  create_workflow_request_json, add_dependencies_request_json,
}

module _ (api : Api) where
  unfoldable pub list_query : Option ListWorkflowsParams → List (Text × Text)
  unfolding add_pagination_params set_value
  list_query none = []
  list_query (some p) =
      add_pagination_params api p.limit p.offset (set_option (lit "status") (λ t. t) p.status [])

  unfoldable pub list :
      ⦃d : Decodes (Slice Workflow)⦄ → Option ListWorkflowsParams → Call api (Slice Workflow)
  unfolding base_get_with_query list_query
  list params = base_get_with_query api (lit "/api/v1/workflows") (list_query params)

  unfoldable pub create :
      ⦃d : Decodes CreateWorkflowResponse⦄ → CreateWorkflowRequest → Call api CreateWorkflowResponse
  unfolding base_post
  create req = base_post api (lit "/api/v1/workflows") (some (create_workflow_request_json req))

  unfoldable pub get : ⦃d : Decodes Workflow⦄ → Text → Call api Workflow
  unfolding base_get
  get id = base_get api (lit "/api/v1/workflows/" ++ id)

  unfoldable pub cancel : Text → Call api Nothing
  unfolding base_post_only
  cancel id = base_post_only api (lit "/api/v1/workflows/" ++ (id ++ lit "/cancel")) none

  unfoldable pub retry : ⦃d : Decodes Workflow⦄ → Text → Call api Workflow
  unfolding base_post
  retry id = base_post api (lit "/api/v1/workflows/" ++ (id ++ lit "/retry")) none

  unfoldable pub list_jobs : ⦃d : Decodes (Slice WorkflowJob)⦄ → Text → Call api (Slice WorkflowJob)
  unfolding base_get
  list_jobs workflow_id = base_get api (lit "/api/v1/workflows/" ++ (workflow_id ++ lit "/jobs"))

  unfoldable pub get_job : ⦃d : Decodes WorkflowJob⦄ → Text → Text → Call api WorkflowJob
  unfolding base_get
  get_job workflow_id job_id =
      base_get api (lit "/api/v1/workflows/" ++ (workflow_id ++ (lit "/jobs/" ++ job_id)))

  unfoldable pub get_jobs_status :
      ⦃d : Decodes WorkflowJobStatusResponse⦄ → Text → Call api WorkflowJobStatusResponse
  unfolding base_get
  get_jobs_status workflow_id =
      base_get api (lit "/api/v1/workflows/" ++ (workflow_id ++ lit "/jobs/status"))

  unfoldable pub get_job_dependencies :
      ⦃d : Decodes JobWithDependencies⦄ → Text → Call api JobWithDependencies
  unfolding base_get
  get_job_dependencies job_id =
      base_get api (lit "/api/v1/jobs/" ++ (job_id ++ lit "/dependencies"))

  unfoldable pub add_job_dependencies :
      ⦃d : Decodes AddDependenciesResponse⦄
      → Text
      → AddDependenciesRequest
      → Call api AddDependenciesResponse
  unfolding base_post
  add_job_dependencies job_id req =
      base_post api (lit "/api/v1/jobs/" ++ (job_id ++ lit "/dependencies"))
        (some (add_dependencies_request_json req))
