-- ===== src/Resources/Workflows/Types.antt =====
-- The requests and the responses of spooled/resources/workflows.go, and the requests as JSON.
use spooled_sdk_go.Common.{Bool, Option, ℤ, Text, List, [], ◌∷◌, lit}
use spooled_sdk_go.Resources.Values.{
  Json, integer, string, object, no_fields, field, JsonObject, Slice, Time, slice_json, object_json,
  omit_nil, omit_slice, omit_object,
}
use spooled_sdk_go.Resources.Jobs.Types.{Job, JobStatus}

abbrev pub WorkflowStatus : Type 0
WorkflowStatus = Text

-- The constants of `WorkflowStatus`.
abbrev pub workflow_status_values : List WorkflowStatus
workflow_status_values =
    lit "pending" ∷ lit "running" ∷ lit "completed" ∷ lit "failed" ∷ lit "cancelled" ∷ []

abbrev pub DependencyMode : Type 0
DependencyMode = Text

-- The constants of `DependencyMode`.
abbrev pub dependency_mode_values : List DependencyMode
dependency_mode_values = lit "all" ∷ lit "any" ∷ []

pub record Workflow : Type 0 where
  pub id : Text
  pub organization_id : Text
  pub name : Text
  pub description : Option Text
  pub status : WorkflowStatus
  pub total_jobs : ℤ
  pub completed_jobs : ℤ
  pub failed_jobs : ℤ
  pub created_at : Time
  pub started_at : Option Time
  pub completed_at : Option Time
  pub metadata : JsonObject

pub record ListWorkflowsParams : Type 0 where
  pub status : Option WorkflowStatus
  pub limit : Option ℤ
  pub offset : Option ℤ

pub record WorkflowJobDefinition : Type 0 where
  pub key : Text
  pub queue_name : Text
  pub payload : JsonObject
  pub depends_on : Slice Text
  pub dependency_mode : Option DependencyMode
  pub priority : Option ℤ
  pub max_retries : Option ℤ
  pub timeout_seconds : Option ℤ

unfoldable pub workflow_job_definition_json : WorkflowJobDefinition → Json
workflow_job_definition_json r = object (
    (field (lit "key") (string r.key) (
      field (lit "queue_name") (string r.queue_name) (
        field (lit "payload") (object_json r.payload) (
          omit_slice (lit "depends_on") string r.depends_on (
            omit_nil (lit "dependency_mode") string r.dependency_mode (
              omit_nil (lit "priority") integer r.priority (
                omit_nil (lit "max_retries") integer r.max_retries
                  (omit_nil (lit "timeout_seconds") integer r.timeout_seconds no_fields)))))))))

pub record CreateWorkflowRequest : Type 0 where
  pub name : Text
  pub description : Option Text
  pub jobs : Slice WorkflowJobDefinition
  pub metadata : JsonObject

unfoldable pub create_workflow_request_json : CreateWorkflowRequest → Json
create_workflow_request_json r = object (
    (field (lit "name") (string r.name) (
      omit_nil (lit "description") string r.description (
        field (lit "jobs") ((slice_json workflow_job_definition_json) r.jobs)
          (omit_object (lit "metadata") r.metadata no_fields)))))

pub record WorkflowJobMapping : Type 0 where
  pub key : Text
  pub job_id : Text

pub record CreateWorkflowResponse : Type 0 where
  pub workflow_id : Text
  pub job_ids : Slice WorkflowJobMapping

pub record WorkflowJob : Type 0 where
  pub id : Text
  pub key : Text
  pub queue_name : Text
  pub status : JobStatus
  pub depends_on : Slice Text
  pub dependency_mode : Option Text
  pub created_at : Time
  pub started_at : Option Time
  pub completed_at : Option Time

pub record WorkflowJobStatus : Type 0 where
  pub key : Text
  pub job_id : Text
  pub status : JobStatus
  pub depends_on : Slice Text

pub record WorkflowJobStatusResponse : Type 0 where
  pub jobs : Slice WorkflowJobStatus

pub record JobWithDependencies : Type 0 where
  pub job : Job
  pub dependencies : Slice Text
  pub dependents : Slice Text

pub record AddDependenciesRequest : Type 0 where
  pub depends_on : Slice Text
  pub dependency_mode : Option DependencyMode

unfoldable pub add_dependencies_request_json : AddDependenciesRequest → Json
add_dependencies_request_json r = object (
    (field (lit "depends_on") ((slice_json string) r.depends_on)
      (omit_nil (lit "dependency_mode") string r.dependency_mode no_fields)))

pub record AddDependenciesResponse : Type 0 where
  pub success : Bool
  pub dependencies : Slice Text
