-- ===== src/ApiTypes/Workflows.antt =====
-- spooled/types/workflows.go. A type that has the fields of the same name and tags in spooled/resources is the
-- record of the resources.
use spooled_sdk_go.Common.{List, Option, Text, ℤ}
use spooled_sdk_go.Resources.Values.{Float64, JsonObject, Slice, Time}
use spooled_sdk_go.Resources.Workflows.Types
use spooled_sdk_go.ApiTypes.Jobs.{Job}

abbrev pub WorkflowStatus : Type 0
WorkflowStatus = Types.WorkflowStatus

abbrev pub workflow_status_values : List WorkflowStatus
workflow_status_values = Types.workflow_status_values

abbrev pub DependencyMode : Type 0
DependencyMode = Types.DependencyMode

abbrev pub dependency_mode_values : List DependencyMode
dependency_mode_values = Types.dependency_mode_values

pub record Workflow : Type 0 where
  pub id : Text
  pub organization_id : Text
  pub name : Text
  pub description : Option Text
  pub status : WorkflowStatus
  pub total_jobs : ℤ
  pub completed_jobs : ℤ
  pub failed_jobs : ℤ
  pub created_at : Time
  pub started_at : Option Time
  pub completed_at : Option Time
  pub metadata : Option JsonObject

pub record WorkflowResponse : Type 0 where
  pub id : Text
  pub name : Text
  pub status : WorkflowStatus
  pub total_jobs : ℤ
  pub completed_jobs : ℤ
  pub failed_jobs : ℤ
  pub progress_percent : Float64
  pub created_at : Time
  pub completed_at : Option Time

abbrev pub WorkflowJobDefinition : Type 0
WorkflowJobDefinition = Types.WorkflowJobDefinition

pub record CreateWorkflowRequest : Type 0 where
  pub name : Text
  pub description : Option Text
  pub jobs : Slice WorkflowJobDefinition
  pub metadata : Option JsonObject

abbrev pub WorkflowJobMapping : Type 0
WorkflowJobMapping = Types.WorkflowJobMapping

abbrev pub CreateWorkflowResponse : Type 0
CreateWorkflowResponse = Types.CreateWorkflowResponse

abbrev pub ListWorkflowsParams : Type 0
ListWorkflowsParams = Types.ListWorkflowsParams

abbrev pub WorkflowJob : Type 0
WorkflowJob = Types.WorkflowJob

abbrev pub WorkflowJobStatus : Type 0
WorkflowJobStatus = Types.WorkflowJobStatus

pub record JobWithDependencies : Type 0 where
  pub job : Job
  pub dependencies : Slice Text
  pub dependents : Slice Text

abbrev pub AddDependenciesRequest : Type 0
AddDependenciesRequest = Types.AddDependenciesRequest

abbrev pub AddDependenciesResponse : Type 0
AddDependenciesResponse = Types.AddDependenciesResponse
