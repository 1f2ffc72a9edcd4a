-- ===== src/Lib.antt =====
-- Verification of the Spooled SDK for Go: the transport of its HTTP requests with retries, token
-- refresh and circuit breaker; its errors; the configuration of a client; the resources of the API;
-- the polling worker; the clients of the event stream; and the gRPC client.
--
-- How the parts fit: `NewClient` (spooled/client.go) resolves the options (spooled/config.go),
-- checks the credentials (spooled/errors.go) and makes a transport (internal/httpx/transport.go).
-- `Do` asks the circuit breaker (internal/httpx/circuit_breaker.go), lets the token refresher
-- (internal/httpx/auth.go) renew the token, and loops over attempts: each sends one request, whose
-- failure becomes an error (internal/httpx/errors.go) that says whether another attempt is worth
-- the delay (internal/httpx/retry.go). The resources (spooled/resources) build the requests and
-- decode the responses; the worker (spooled/worker), which `SpooledWorker` (spooled/client.go)
-- wraps, calls them. The event stream (spooled/realtime) and gRPC (spooled/grpc) are clients beside
-- it.
--
-- Which file models what:
-- - Common and its children: Boolean tests, lists, Go's integers with their wrap-around, and texts
--   as lists of bytes with the functions of package strings.
-- - Breaker: internal/httpx/circuit_breaker.go. `allow`, `record_success`, `record_failure` and
--   `reset` are `Allow`, `RecordSuccess`, `RecordFailure` and `Reset`; the mutex makes each one
--   step, and `calls` is the order in which goroutines take it.
-- - Errors, with Errors.Parse (`ParseErrorFromResponse`): internal/httpx/errors.go. `Error` is the
--   tree of wrapped errors that `errors.As` walks. Errors.Public: spooled/errors.go.
-- - Retry: internal/httpx/retry.go, over a record of floating-point operations.
-- - Runtime: what lies outside, as a record: HTTP, JSON, the clock, timers, contexts and
--   randomness.
-- - Auth: internal/httpx/auth.go, as one goroutine runs it. Auth.Flight: `refreshInternal` as any
--   number of goroutines run it, each step what one does between two points where others may act;
--   `enter`, `settle` and `end_flight` are its stretch under the mutex, its exchange and its
--   deferred function.
-- - Transport, with Transport.Once (`doOnce`) and Transport.Loop (`Do`):
--   internal/httpx/transport.go. A call is a function of the state, which holds the world and a log
--   of what is sent and waited for.
-- - Client: spooled/config.go. Client.Make: `NewClient` of spooled/client.go. Client.Lazy: its
--   `GRPC`.
-- - Worker: spooled/worker/worker.go and types.go. Each function is what one goroutine does between
--   two waits, and `Worker.Steps` has the orders in which they may come. Worker.Live: the same with
--   the calls of the API, through Resources and Transport.
-- - Launch: `SpooledWorker` of spooled/client.go, over Worker. Exports: the functions of
--   spooled/exports.go, over Client.Make, Resources and Launch.
-- - Resources: spooled/resources/base.go, a function `base_get` for the method `Get` and so on.
--   Resources.Jobs and its siblings: a module for each file of spooled/resources (Resources.Login
--   is auth.go), with a function for each method, over the records of Resources.Jobs.Types,
--   Resources.Jobs.Many and so on, in which `create_job_request_json` is what `json.Marshal` makes
--   of a `CreateJobRequest` by its tags.
-- - ApiTypes and its children: the types of spooled/types, a module for each file (ApiTypes.Login is
--   auth.go). ApiTypes.Requests: their JSON, where it differs from that of the resources.
-- - Grpc and Grpc.Calls: spooled/grpc/client.go, over the records of Grpc.Requests (its own) and of
--   Grpc.Messages (those of spooled/grpc/pb/spooled.pb.go that it sends and reads).
-- - Sse: the reader of spooled/realtime/sse.go; Sse.Received: its whole loop, with the handlers;
--   Sse.Url: the stream's address. Realtime: its connection, and the types of
--   spooled/realtime/types.go; Realtime.Notices: `setState` of both clients. Socket and Socket.Link:
--   the commands, the subscriptions and the connection of spooled/realtime/websocket.go;
--   Socket.Turns: its reader among the goroutines that run commands. Dispatch: the handlers of both
--   clients.
-- - Examples: the results at concrete inputs.
--
-- Bounds: `int`, `int64` and `time.Duration` are integers whose wrap-around at 64 bits is written
-- out where the code computes (`wrap64`); the counters of the circuit breaker and of jobs are
-- natural numbers. `Do` runs on fuel: `rounds` is the number of retries and three more, since the
-- attempts are one more than the retries, one round may be a token refresh, and the last one finds
-- the loop's end.
--
-- Not modelled: logging; the texts of `Error()`; the intervals of the worker's tickers; how JSON
-- decodes a response, which is an instance argument `Decodes` of each operation; a nil pointer to a
-- request, but where the code treats it; generated code. JSON texts, floating-point numbers, HMAC,
-- gRPC and the network are parameters.
pub mod Common
pub mod Breaker
pub mod Errors
pub mod Retry
pub mod Runtime
pub mod Auth
pub mod Transport
pub mod Worker
pub mod Launch
pub mod Resources
pub mod ApiTypes
pub mod Grpc
pub mod Sse
pub mod Realtime
pub mod Socket
pub mod Dispatch
pub mod Client
pub mod Exports
mod Examples
