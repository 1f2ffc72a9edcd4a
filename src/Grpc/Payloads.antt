-- ===== src/Grpc/Payloads.antt =====
-- What the gRPC client makes of a payload, and of the jobs that it gets.
use spooled_sdk_go.Common.{◌≡◌, refl, none, some}
use spooled_sdk_go.Resources.Values.{Fields}
use spooled_sdk_go.Grpc.{Services, GrpcClient, Metadata}
use spooled_sdk_go.Grpc.Requests.{EnqueueRequest, CompleteRequest}
use spooled_sdk_go.Grpc.Calls.{struct_of, enqueue_message, enqueue, complete}

module _ (sv : Services) where
  open sv use {World, Struct, Timestamp}

  struct_of-refused :
      (p : Fields) → sv.new_struct p ≡ none → struct_of sv (some p) ≡ struct_of sv none
  unfolding struct_of
  struct_of-refused p h = h

  -- A payload that has no protobuf form is dropped without an error: `Enqueue` then sends what it
  -- sends without a payload and returns what that call returns, and `Complete` does so with its
  -- result.
  pub payload_dropped :
      (p : Fields)
      → sv.new_struct p ≡ none
      → ((c : GrpcClient sv) (ctx : Metadata) (req : EnqueueRequest) (w : World)
          → enqueue sv c ctx (record req { payload = some p }) w
            ≡ enqueue sv c ctx (record req { payload = none }) w)
        × ((c : GrpcClient sv) (ctx : Metadata) (req : CompleteRequest) (w : World)
            → complete sv c ctx (record req { result = some p }) w
              ≡ complete sv c ctx (record req { result = none }) w)
  unfolding enqueue enqueue_message complete
  payload_dropped p h = (
    λ c ctx req w. rw (enqueue, enqueue_message, struct_of-refused p h) refl,
    λ c ctx req w. rw (complete, struct_of-refused p h) refl,
  )
