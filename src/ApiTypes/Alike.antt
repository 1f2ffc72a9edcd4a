-- ===== src/ApiTypes/Alike.antt =====
-- spooled/types/jobs.go and workers.go beside spooled/resources: when a request of the one package is the
-- same JSON as that of the other.
use spooled_sdk_go.Common.{ℕ, suc, false, Option, none, some, Text, lit, ◌≡◌, ◌↔◌, refl, ap, arith}
use spooled_sdk_go.Resources.Values.{
  Json, object, no_fields, field, Fields, JsonObject, Time, object_json, omit_nil, omit_object,
  integer, string,
}
use spooled_sdk_go.Resources.Jobs.Types as JobTypes
use spooled_sdk_go.Resources.Workers.Types as WorkerTypes
use spooled_sdk_go.ApiTypes.Jobs.{CreateJobRequest, CompleteJobRequest}
use spooled_sdk_go.ApiTypes.Workers.{RegisterWorkerRequest, WorkerHeartbeatRequest}
use spooled_sdk_go.ApiTypes.Requests

number_of_fields : Fields → ℕ
number_of_fields no_fields = 0
number_of_fields (field k v fs) = suc (number_of_fields fs)

rest_of : Fields → Fields
rest_of no_fields = no_fields
rest_of (field k v fs) = fs

fields_of : Json → Fields
fields_of (object fs) = fs
fields_of _ = no_fields

object-cancel : (fs gs : Fields) → object fs ≡ object gs → fs ≡ gs
unfolding fields_of
object-cancel fs gs p = ap fields_of p

field-cancel : (k : Text) (v : Json) (fs gs : Fields) → field k v fs ≡ field k v gs → fs ≡ gs
unfolding rest_of
field-cancel k v fs gs p = ap rest_of p

omit_nil-cancel :
    {A : Type 0}
    → (k : Text) (f : A → Json) (x : Option A) (fs gs : Fields)
    → omit_nil k f x fs ≡ omit_nil k f x gs
    → fs ≡ gs
omit_nil-cancel k f none fs gs p = p
omit_nil-cancel k f (some x) fs gs p = field-cancel k (f x) fs gs p

field-grows : (k : Text) (v : Json) (fs : Fields) → field k v fs ≡ fs → ⊥
unfolding number_of_fields
field-grows k v fs p =
    let q : suc (number_of_fields fs) ≡ number_of_fields fs = ap number_of_fields p in
    absurd (omega arith)

omit_nil-omit_object :
    (k : Text) (p : Option JsonObject) (fs : Fields)
    → (omit_nil k object_json p fs ≡ omit_object k (Requests.value_of p) fs)
      ↔ (Requests.points_to_empty p ≡ false)
unfolding Requests.value_of Requests.points_to_empty
omit_nil-omit_object k none fs = (λ _. refl, λ _. refl)
omit_nil-omit_object k (some none) fs = (λ e. absurd (field-grows k _ fs e), λ e. cc)
omit_nil-omit_object k (some (some no_fields)) fs = (λ e. absurd (field-grows k _ fs e), λ e. cc)
omit_nil-omit_object k (some (some (field j v gs))) fs = (λ _. refl, λ _. refl)

complete_job_request-alike :
    (r : CompleteJobRequest)
    → (Requests.complete_job_request_json r
        ≡ JobTypes.complete_job_request_json (Requests.complete_job_request_of r))
      ↔ (Requests.points_to_empty r.result ≡ false)
unfolding Requests.complete_job_request_json JobTypes.complete_job_request_json
    Requests.complete_job_request_of
complete_job_request-alike r =
    let same = omit_nil-omit_object (lit "result") r.result no_fields in
    (
      λ e. same.0 (field-cancel _ _ _ _ (object-cancel _ _ e)),
      λ full. ap (λ fs. object (field (lit "worker_id") (string r.worker_id) fs)) (same.1 full),
    )

create_job_request-alike :
    (format : Time → Text) (r : CreateJobRequest)
    → (Requests.create_job_request_json format r
        ≡ JobTypes.create_job_request_json format (Requests.create_job_request_of r))
      ↔ (Requests.points_to_empty r.tags ≡ false)
unfolding Requests.create_job_request_json JobTypes.create_job_request_json
    Requests.create_job_request_of
create_job_request-alike format r =
    let later : Fields =
      omit_nil (lit "parent_job_id") string r.parent_job_id
        (omit_nil (lit "completion_webhook") string r.completion_webhook no_fields) in
    let before : Fields → Fields = λ fs. field (lit "queue_name") (string r.queue_name) (
      field (lit "payload") (object_json r.payload) (
        omit_nil (lit "priority") integer r.priority (
          omit_nil (lit "max_retries") integer r.max_retries (
            omit_nil (lit "timeout_seconds") integer r.timeout_seconds (
              omit_nil (lit "scheduled_at") (λ at. string (format at)) r.scheduled_at
                (omit_nil (lit "expires_at") (λ at. string (format at)) r.expires_at
                  (omit_nil (lit "idempotency_key") string r.idempotency_key fs))))))) in
    let same = omit_nil-omit_object (lit "tags") r.tags later in
    (
      λ e. same.0 (
          omit_nil-cancel _ _ r.idempotency_key _ _ (
            omit_nil-cancel _ _ r.expires_at _ _ (
              omit_nil-cancel _ _ r.scheduled_at _ _ (
                omit_nil-cancel _ _ r.timeout_seconds _ _ (
                  omit_nil-cancel _ _ r.max_retries _ _ (
                    omit_nil-cancel _ _ r.priority _ _
                      (field-cancel _ _ _ _ (field-cancel _ _ _ _ (object-cancel _ _ e))))))))),
      λ full. ap (λ fs. object (before fs)) (same.1 full),
    )

register_worker_request-alike :
    (r : RegisterWorkerRequest)
    → (Requests.register_worker_request_json r
        ≡ WorkerTypes.register_worker_request_json (Requests.register_worker_request_of r))
      ↔ (Requests.points_to_empty r.metadata ≡ false)
unfolding Requests.register_worker_request_json WorkerTypes.register_worker_request_json
    Requests.register_worker_request_of
register_worker_request-alike r =
    let later : Fields = omit_nil (lit "version") string r.version no_fields in
    let before : Fields → Fields = λ fs. field (lit "queue_name") (string r.queue_name) (
      field (lit "hostname") (string r.hostname) (
        omit_nil (lit "worker_type") string r.worker_type
          (omit_nil (lit "max_concurrency") integer r.max_concurrency fs))) in
    let same = omit_nil-omit_object (lit "metadata") r.metadata later in
    (
      λ e. same.0 (
          omit_nil-cancel _ _ r.max_concurrency _ _ (
            omit_nil-cancel _ _ r.worker_type _ _
              (field-cancel _ _ _ _ (field-cancel _ _ _ _ (object-cancel _ _ e))))),
      λ full. ap (λ fs. object (before fs)) (same.1 full),
    )

worker_heartbeat_request-alike :
    (r : WorkerHeartbeatRequest)
    → (Requests.worker_heartbeat_request_json r
        ≡ WorkerTypes.worker_heartbeat_request_json (Requests.worker_heartbeat_request_of r))
      ↔ (Requests.points_to_empty r.metadata ≡ false)
unfolding Requests.worker_heartbeat_request_json WorkerTypes.worker_heartbeat_request_json
    Requests.worker_heartbeat_request_of
worker_heartbeat_request-alike r =
    let before : Fields → Fields = λ fs.
      field (lit "current_jobs") (integer r.current_jobs)
        (omit_nil (lit "status") string r.status fs) in
    let same = omit_nil-omit_object (lit "metadata") r.metadata no_fields in
    (
      λ e. same.0 (omit_nil-cancel _ _ r.status _ _ (field-cancel _ _ _ _ (object-cancel _ _ e))),
      λ full. ap (λ fs. object (before fs)) (same.1 full),
    )

-- A request of package types to create or complete a job, to register a worker or for its heartbeat is
-- the same JSON as the request of package resources with the same fields exactly if its pointer to an
-- object (tags, result, metadata) is not one to a nil or an empty map.
pub requests_alike :
    (format : Time → Text) (create : CreateJobRequest) (complete : CompleteJobRequest)
    (register : RegisterWorkerRequest) (heartbeat : WorkerHeartbeatRequest)
    → ((Requests.create_job_request_json format create
          ≡ JobTypes.create_job_request_json format (Requests.create_job_request_of create))
        ↔ (Requests.points_to_empty create.tags ≡ false))
      × ((Requests.complete_job_request_json complete
            ≡ JobTypes.complete_job_request_json (Requests.complete_job_request_of complete))
          ↔ (Requests.points_to_empty complete.result ≡ false))
      × ((Requests.register_worker_request_json register
            ≡ WorkerTypes.register_worker_request_json
                (Requests.register_worker_request_of register))
          ↔ (Requests.points_to_empty register.metadata ≡ false))
      × ((Requests.worker_heartbeat_request_json heartbeat
            ≡ WorkerTypes.worker_heartbeat_request_json
                (Requests.worker_heartbeat_request_of heartbeat))
          ↔ (Requests.points_to_empty heartbeat.metadata ≡ false))
requests_alike format create complete register heartbeat = (
  create_job_request-alike format create,
  complete_job_request-alike complete,
  register_worker_request-alike register,
  worker_heartbeat_request-alike heartbeat,
)
