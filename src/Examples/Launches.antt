-- ===== src/Examples/Launches.antt =====
-- The worker of spooled/client.go and the gRPC client at concrete inputs.
use spooled_sdk_go.Common.{ℕ, ◌≡◌, refl, ◌↔◌, true, Option, none, some, pos, Text, [], ◌∷◌, lit}
use spooled_sdk_go.Errors.{Error, plain}
use spooled_sdk_go.Transport.Once.{ok, err}
use spooled_sdk_go.Launch.{
  SpooledWorkerOptions, SpooledWorker, Registered, refused, accepted, new_spooled_worker,
  start_spooled, process_spooled, starts_with, stops_it, spooled_calls, start_worker, made_worker,
}
use spooled_sdk_go.Launch.Sticks.{IsStuck, failed_start_final}
use spooled_sdk_go.Worker.{start, process, new_worker, register_failed}
use spooled_sdk_go.Resources.Values.{Fields, field, other}
use spooled_sdk_go.Grpc.{ClientOptions, insecure, Services, dial_of, address_of}
use spooled_sdk_go.Grpc.Tls.{IsPlaintext, dial_insecure_iff}

abbrev some_options : SpooledWorkerOptions
some_options = record {
  queue_name = lit "emails";
  concurrency = pos 0;
  lease_duration = pos 0;
  worker_type = [];
  version = [];
  has_handler = true;
}

abbrev unlucky : SpooledWorker
unlucky = (start_spooled refused (new_spooled_worker some_options)).1

failed_start_final_example :
    let last = spooled_calls (starts_with (accepted (lit "w1")) ∷ stops_it ∷ []) unlucky in
    IsStuck last
    × ((r : Registered) → start_spooled r last ≡ (none, last))
    × (process_spooled last ≡ none)
unfolding new_spooled_worker start_spooled start_worker made_worker start process new_worker
    register_failed
failed_start_final_example =
    failed_start_final refused (new_spooled_worker some_options) (lit "failed to register worker")
      refl refl (starts_with (accepted (lit "w1")) ∷ stops_it ∷ [])

-- `NewStruct` refuses a map whose first value has no JSON form.
abbrev first_json : Fields → Option Fields
first_json (field k (other n) fs) = none
first_json fs = some fs

abbrev unavailable : Error
unavailable = plain (lit "unavailable")

abbrev no_server : Services
no_server = record {
  World = ℕ;
  Conn = Text;
  Struct = Fields;
  Timestamp = ℕ;
  Tls = Text;
  Opt = Text;
  Stream = Text;
  dial = λ d w. (ok d.address, w);
  close_conn = λ c w. (none, w);
  new_struct = first_json;
  as_map = λ s. s;
  new_timestamp = λ t. 0;
  as_time = λ t. pos t;
  rpc_enqueue = λ c md m w. (ok (record { job_id = m.queue_name; created = true }), w);
  rpc_dequeue = λ c md m w. (err unavailable, w);
  rpc_complete = λ c md m w. (none, w);
  rpc_fail = λ c md m w. (none, w);
  rpc_renew_lease = λ c md m w. (err unavailable, w);
  rpc_get_job = λ c md m w. (err unavailable, w);
  rpc_get_queue_stats = λ c md m w. (err unavailable, w);
  rpc_stream_jobs = λ c md m w. (err unavailable, w);
  rpc_process_jobs = λ c md w. (err unavailable, w);
  rpc_register = λ c md m w. (err unavailable, w);
  rpc_heartbeat = λ c md m w. (none, w);
  rpc_deregister = λ c md m w. (none, w);
}

abbrev remote : ClientOptions Text Text
remote = record {
  address = lit "grpc.example.com:50051";
  api_key = lit "sk_test_0123456789ab";
  use_tls = none;
  tls_config = none;
  dial_options = [];
  timeout = pos 0;
}

dial_insecure_iff_example :
    ((dial_of no_server remote).credentials ≡ insecure)
    ↔ IsPlaintext remote.use_tls (address_of no_server remote)
dial_insecure_iff_example = dial_insecure_iff no_server remote
