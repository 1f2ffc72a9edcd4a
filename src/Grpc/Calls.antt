-- ===== src/Grpc/Calls.antt =====
-- The calls of the two services that spooled/grpc/client.go makes, with the messages that they send.
use spooled_sdk_go.Common.{Option, none, some, pos, Text, [], map}
use spooled_sdk_go.Errors.{Error}
use spooled_sdk_go.Transport.Once.{Result}
use spooled_sdk_go.Resources.Values.{JsonObject, Time}
use spooled_sdk_go.Grpc.Messages.{PbJob, PbEnqueueRequest}
use spooled_sdk_go.Grpc.Requests.{
  EnqueueRequest, EnqueueResponse, DequeueRequest, DequeueResponse, Job, CompleteRequest,
  FailRequest, RenewLeaseRequest, RenewLeaseResponse, QueueStats, RegisterWorkerRequest,
  RegisterWorkerResponse, WorkerHeartbeatRequest,
}
use spooled_sdk_go.Grpc.{Services, Metadata, GrpcClient, with_auth, convert}

module _ (sv : Services) where
  open sv use {World, Struct, Timestamp, Stream}

  -- A map as a `Struct`; nil, and a map that has no such form, are nil.
  unfoldable pub struct_of : JsonObject → Option Struct
  struct_of none = none
  struct_of (some fs) = sv.new_struct fs

  unfoldable pub time_of : Option Timestamp → Option Time
  time_of none = none
  time_of (some t) = some (sv.as_time t)

  unfoldable pub pb_job_to_job : Option (PbJob Struct Timestamp) → Option Job
  unfolding time_of
  pb_job_to_job none = none
  pb_job_to_job (some j) = some (record {
    id = j.id;
    queue_name = j.queue_name;
    payload = elim j.payload [ none ↦ none | some s ↦ some (sv.as_map s) ];
    priority = j.priority;
    retry_count = j.retry_count;
    max_retries = j.max_retries;
    timeout_seconds = j.timeout_seconds;
    lease_expires_at = time_of j.lease_expires_at;
  })

  -- The message that `Enqueue` sends.
  unfoldable pub enqueue_message : EnqueueRequest → PbEnqueueRequest Struct Timestamp
  unfolding struct_of
  enqueue_message req = record {
    queue_name = req.queue_name;
    payload = struct_of req.payload;
    priority = req.priority;
    max_retries = req.max_retries;
    timeout_seconds = req.timeout_seconds;
    scheduled_at = elim req.scheduled_at [ none ↦ none | some t ↦ some (sv.new_timestamp t) ];
    idempotency_key = req.idempotency_key;
    tags = [];
  }

  unfoldable pub enqueue :
      GrpcClient sv → Metadata → EnqueueRequest → World → Result EnqueueResponse × World
  unfolding with_auth enqueue_message
  enqueue c ctx req w =
      convert (λ resp. record { job_id = resp.job_id; created = resp.created })
        (sv.rpc_enqueue c.conn (with_auth sv c ctx) (enqueue_message req) w)

  unfoldable pub dequeue :
      GrpcClient sv → Metadata → DequeueRequest → World → Result DequeueResponse × World
  unfolding with_auth pb_job_to_job
  dequeue c ctx req w =
      convert (λ resp. record { jobs = map pb_job_to_job resp.jobs })
        (sv.rpc_dequeue c.conn (with_auth sv c ctx)
          (record {
            queue_name = req.queue_name;
            worker_id = req.worker_id;
            batch_size = req.batch_size;
            lease_duration_secs = req.lease_duration_sec;
          })
          w)

  unfoldable pub complete :
      GrpcClient sv → Metadata → CompleteRequest → World → Option Error × World
  unfolding with_auth struct_of
  complete c ctx req w =
      sv.rpc_complete c.conn (with_auth sv c ctx)
        (record { job_id = req.job_id; worker_id = req.worker_id; result = struct_of req.result }) w

  unfoldable pub fail : GrpcClient sv → Metadata → FailRequest → World → Option Error × World
  unfolding with_auth
  fail c ctx req w =
      sv.rpc_fail c.conn (with_auth sv c ctx)
        (record {
          job_id = req.job_id;
          worker_id = req.worker_id;
          error = req.error;
          retry = req.retry;
        })
        w

  unfoldable pub renew_lease :
      GrpcClient sv → Metadata → RenewLeaseRequest → World → Result RenewLeaseResponse × World
  unfolding with_auth time_of
  renew_lease c ctx req w =
      convert
        (λ resp. record { success = resp.success; new_expires_at = time_of resp.new_expires_at })
        (sv.rpc_renew_lease c.conn (with_auth sv c ctx)
          (record {
            job_id = req.job_id;
            worker_id = req.worker_id;
            extension_secs = req.extension_secs;
          })
          w)

  unfoldable pub get_job : GrpcClient sv → Metadata → Text → World → Result (Option Job) × World
  unfolding with_auth pb_job_to_job
  get_job c ctx job_id w =
      convert (λ resp. pb_job_to_job resp.job)
        (sv.rpc_get_job c.conn (with_auth sv c ctx) (record { job_id = job_id }) w)

  unfoldable pub get_queue_stats :
      GrpcClient sv → Metadata → Text → World → Result QueueStats × World
  unfolding with_auth
  get_queue_stats c ctx queue_name w =
      convert
        (λ resp. record {
          queue_name = resp.queue_name;
          pending = resp.pending;
          scheduled = resp.scheduled;
          processing = resp.processing;
          completed = resp.completed;
          failed = resp.failed;
          deadletter = resp.deadletter;
          total = resp.total;
          max_age_ms = resp.max_age_ms;
        })
        (sv.rpc_get_queue_stats c.conn (with_auth sv c ctx) (record { queue_name = queue_name }) w)

  unfoldable pub stream_jobs :
      GrpcClient sv → Metadata → Text → Text → World → Result Stream × World
  unfolding with_auth
  stream_jobs c ctx queue_name worker_id w =
      sv.rpc_stream_jobs c.conn (with_auth sv c ctx)
        (record { queue_name = queue_name; worker_id = worker_id; lease_duration_secs = pos 0 }) w

  unfoldable pub process_jobs : GrpcClient sv → Metadata → World → Result Stream × World
  unfolding with_auth
  process_jobs c ctx w = sv.rpc_process_jobs c.conn (with_auth sv c ctx) w

  unfoldable pub register_worker :
      GrpcClient sv
      → Metadata
      → RegisterWorkerRequest
      → World
      → Result RegisterWorkerResponse × World
  unfolding with_auth
  register_worker c ctx req w =
      convert
        (λ resp. record {
          worker_id = resp.worker_id;
          heartbeat_interval_sec = resp.heartbeat_interval_secs;
          lease_duration_sec = resp.lease_duration_secs;
        })
        (sv.rpc_register c.conn (with_auth sv c ctx)
          (record {
            queue_name = req.queue_name;
            hostname = req.hostname;
            worker_type = [];
            max_concurrency = req.max_concurrency;
            version = req.version;
            metadata = req.metadata;
          })
          w)

  unfoldable pub worker_heartbeat :
      GrpcClient sv → Metadata → WorkerHeartbeatRequest → World → Option Error × World
  unfolding with_auth
  worker_heartbeat c ctx req w =
      sv.rpc_heartbeat c.conn (with_auth sv c ctx)
        (record {
          worker_id = req.worker_id;
          current_jobs = req.current_jobs;
          status = req.status;
          metadata = [];
        })
        w

  unfoldable pub deregister_worker : GrpcClient sv → Metadata → Text → World → Option Error × World
  unfolding with_auth
  deregister_worker c ctx worker_id w =
      sv.rpc_deregister c.conn (with_auth sv c ctx) (record { worker_id = worker_id }) w
