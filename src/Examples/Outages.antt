-- ===== src/Examples/Outages.antt =====
-- `Do` of httpx/transport.go at concrete inputs, where a server answers every request with 404.
use spooled_sdk_go.Common.{ℕ, ◌+◌, ◌≡◌, refl, none, some, [], arith, Returns}
use spooled_sdk_go.Errors.{Error, api, not_found, is_authentication_error}
use spooled_sdk_go.Errors.Parse.{fresh_error, parse_error_from_response}
use spooled_sdk_go.Breaker.{CircuitBreaker}
use spooled_sdk_go.Runtime.{Runtime, replied}
use spooled_sdk_go.Transport.{State}
use spooled_sdk_go.Transport.Once.{do_once, exchange, read_reply, prepare_body}
use spooled_sdk_go.Transport.Loop.{do_request}
use spooled_sdk_go.Transport.Rounds.{sent}
use spooled_sdk_go.Transport.Circuit.{HasCircuit}
use spooled_sdk_go.Transport.Outage.{IsFailing, retries, do_outage}
use spooled_sdk_go.Examples.Circuits.{closed_breaker}
use spooled_sdk_go.Examples.Requests.{dead_network, some_transport, some_request, fresh_state}

abbrev missing : Runtime
missing = record dead_network { client_do = λ h w. (replied 404 [] (λ name. []), w + 1) }

abbrev not_there : Error
not_there = api not_found (fresh_error 404 [] (λ name. []))

missing-IsFailing : IsFailing missing some_transport some_request not_there
unfolding do_once exchange read_reply prepare_body parse_error_from_response is_authentication_error
missing-IsFailing = record {
  fails = λ s. refl;
  sends_one = λ s. omega arith;
  other = refl;
  waits_out = λ d w. refl;
}

-- One more failure opens it.
abbrev tired_breaker : CircuitBreaker
tired_breaker = record closed_breaker { failure_count = 1 }

abbrev tired_state : State ℕ
tired_state = record fresh_state { circuit_breaker = some tired_breaker }

do_outage_example :
    Returns
      (λ r.
        (r.0 ≡ record { response = none; error = some not_there })
        × (sent r.1.log ≡ sent tired_state.log + (retries missing some_request not_there 3 + 1))
        × HasCircuit 2 (1 + (retries missing some_request not_there 3 + 1)) r.1.circuit_breaker)
      (do_request missing some_transport some_request tired_state)
do_outage_example =
    do_outage missing some_transport some_request not_there 3 2 1 tired_state missing-IsFailing refl
      (omega arith) (omega arith) (refl, (refl, refl))
