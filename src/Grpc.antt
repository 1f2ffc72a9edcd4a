-- ===== src/Grpc.antt =====
-- spooled/grpc/client.go: the gRPC client. Packages grpc, structpb and timestamppb and the generated
-- stubs of the two services are a parameter.
pub mod Messages
pub mod Requests
pub mod Calls
pub mod Tls
pub mod Payloads
use spooled_sdk_go.Common.{
  Bool, true, not, ◌&&◌, ◌++◌, Option, none, some, ℤ, pos, is_zero, Text, List, [], ◌∷◌, lit,
  is_empty, has_suffix, contains, if◌then◌else◌,
}
use spooled_sdk_go.Errors.{Error, wrapped}
use spooled_sdk_go.Transport.Once.{Result, ok, err}
use spooled_sdk_go.Resources.Values.{Fields, Time}
use spooled_sdk_go.Grpc.Messages.{
  PbEnqueueRequest, PbEnqueueResponse, PbDequeueRequest, PbDequeueResponse, PbCompleteRequest,
  PbFailRequest, PbRenewLeaseRequest, PbRenewLeaseResponse, PbGetJobRequest, PbGetJobResponse,
  PbGetQueueStatsRequest, PbGetQueueStatsResponse, PbStreamJobsRequest, PbRegisterWorkerRequest,
  PbRegisterWorkerResponse, PbHeartbeatRequest, PbDeregisterRequest,
}

-- `Tls` is the type of `*tls.Config`'s target and `Opt` that of a further dial option.
pub record ClientOptions (Tls Opt : Type 0) : Type 0 where
  pub address : Text
  pub api_key : Text
  pub use_tls : Option Bool
  pub tls_config : Option Tls
  pub dial_options : List Opt
  pub timeout : ℤ

-- The transport credentials that a connection is dialled with; `tls12` has only `MinVersion` set.
pub data Credentials (Tls : Type 0) : Type 0 where
  tls : Tls → Credentials Tls
  tls12 : Credentials Tls
  insecure : Credentials Tls

-- The arguments of `grpc.DialContext`; the timeout is its context's.
pub record Dial (Tls Opt : Type 0) : Type 0 where
  pub address : Text
  pub credentials : Credentials Tls
  pub options : List Opt
  pub timeout : ℤ

-- The metadata of the outgoing context.
abbrev pub Metadata : Type 0
Metadata = List (Text × Text)

pub record Services : Type 1 where
  pub World : Type 0
  pub Conn : Type 0
  pub Struct : Type 0
  pub Timestamp : Type 0
  pub Tls : Type 0
  pub Opt : Type 0
  pub Stream : Type 0
  -- `grpc.DialContext` and `ClientConn.Close`; `none` is a nil error.
  pub dial : Dial Tls Opt → World → Result Conn × World
  pub close_conn : Conn → World → Option Error × World
  -- `structpb.NewStruct` (`none` is an error), `AsMap`, `timestamppb.New` and `AsTime`.
  pub new_struct : Fields → Option Struct
  pub as_map : Struct → Fields
  pub new_timestamp : Time → Timestamp
  pub as_time : Timestamp → Time
  -- The stubs of the queue service.
  pub rpc_enqueue :
      Conn → Metadata → PbEnqueueRequest Struct Timestamp → World → Result PbEnqueueResponse × World
  pub rpc_dequeue :
      Conn
      → Metadata
      → PbDequeueRequest
      → World
      → Result (PbDequeueResponse Struct Timestamp) × World
  pub rpc_complete : Conn → Metadata → PbCompleteRequest Struct → World → Option Error × World
  pub rpc_fail : Conn → Metadata → PbFailRequest → World → Option Error × World
  pub rpc_renew_lease :
      Conn
      → Metadata
      → PbRenewLeaseRequest
      → World
      → Result (PbRenewLeaseResponse Timestamp) × World
  pub rpc_get_job :
      Conn → Metadata → PbGetJobRequest → World → Result (PbGetJobResponse Struct Timestamp) × World
  pub rpc_get_queue_stats :
      Conn → Metadata → PbGetQueueStatsRequest → World → Result PbGetQueueStatsResponse × World
  pub rpc_stream_jobs : Conn → Metadata → PbStreamJobsRequest → World → Result Stream × World
  pub rpc_process_jobs : Conn → Metadata → World → Result Stream × World
  -- The stubs of the worker service.
  pub rpc_register :
      Conn → Metadata → PbRegisterWorkerRequest → World → Result PbRegisterWorkerResponse × World
  pub rpc_heartbeat : Conn → Metadata → PbHeartbeatRequest → World → Option Error × World
  pub rpc_deregister : Conn → Metadata → PbDeregisterRequest → World → Option Error × World

abbrev pub default_address : Text
default_address = lit "grpc.spooled.cloud:443"

-- A result whose value a call converts.
abbrev pub convert : {A B W : Type 0} → (A → B) → Result A × W → Result B × W
convert f (ok a, w) = (ok (f a), w)
convert f (err e, w) = (err e, w)

-- `useTLS` of `NewClient`, for the address with its default.
unfoldable pub uses_tls : Option Bool → Text → Bool
uses_tls (some b) address = b
uses_tls none address =
    if not (has_suffix (lit ":443") address) && not (contains (lit "localhost") address)
    then has_suffix (lit ":443") address
    else true

module _ (sv : Services) where
  open sv use {World, Conn, Struct, Timestamp, Tls, Opt, Stream}

  pub record GrpcClient : Type 0 where
    pub conn : Conn
    pub api_key : Text

  abbrev pub address_of : ClientOptions Tls Opt → Text
  address_of opts = if is_empty opts.address then default_address else opts.address

  -- What `NewClient` dials.
  unfoldable pub dial_of : ClientOptions Tls Opt → Dial Tls Opt
  unfolding uses_tls
  dial_of opts = record {
    address = address_of opts;
    credentials =
        if uses_tls opts.use_tls (address_of opts)
        then elim opts.tls_config [ some config ↦ tls config | none ↦ tls12 ]
        else insecure;
    options = opts.dial_options;
    timeout = if is_zero opts.timeout then pos 30_000_000_000 else opts.timeout;
  }

  unfoldable pub client_of : Text → Result Conn × World → Result GrpcClient × World
  client_of api_key (ok conn, w) = (ok (record { conn = conn; api_key = api_key }), w)
  client_of api_key (err e, w) = (err (wrapped (lit "failed to connect to gRPC server") e), w)

  -- `NewClient`.
  unfoldable pub new_client : ClientOptions Tls Opt → World → Result GrpcClient × World
  unfolding dial_of client_of
  new_client opts w = client_of opts.api_key (sv.dial (dial_of opts) w)

  -- `Close`, of a client that `NewClient` made.
  unfoldable pub close : GrpcClient → World → Option Error × World
  close c w = sv.close_conn c.conn w

  unfoldable pub with_auth : GrpcClient → Metadata → Metadata
  with_auth c ctx = if is_empty c.api_key then ctx else ctx ++ ((lit "x-api-key", c.api_key) ∷ [])
