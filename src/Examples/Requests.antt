-- ===== src/Examples/Requests.antt =====
-- The retry policy of httpx/retry.go and the transport of httpx/transport.go at concrete inputs: the
-- floating-point numbers are natural numbers of halves, and no server answers.
use spooled_sdk_go.Common.{
  ℕ, ◌+◌, ◌*◌, ◌/◌, ◌^◌, ◌≡◌, refl, true, false, none, some, [], ◌∷◌, pos, negsuc, pos_part, ltb,
  leb_ℤ, ◌==◌, lit, text_eq, if◌then◌else◌, arith, Returns,
}
use spooled_sdk_go.Errors.{Error, plain}
use spooled_sdk_go.Retry.{Floats, RetryPolicy, exponential, delay}
use spooled_sdk_go.Retry.Bounds.{IsFloat64, delay_bounds}
use spooled_sdk_go.Runtime.{Runtime, no_reply, no_answer}
use spooled_sdk_go.Transport.{Transport, Request, State}
use spooled_sdk_go.Transport.Once.{get_header, put_header, request_headers}
use spooled_sdk_go.Transport.Loop.{do_request}
use spooled_sdk_go.Transport.Limits.{do_sends, Within}
use spooled_sdk_go.Transport.Persist.{IsDead}
use spooled_sdk_go.Transport.Headers.{
  get_header-put_header, request_headers-authorization, credentials,
}
use spooled_sdk_go.Examples.Circuits.{open_breaker}

abbrev halves : Floats
halves = record {
  Float = ℕ;
  of_int = λ n. 2 * pos_part n;
  to_int = λ x. pos (x / 2);
  add = λ x y. x + y;
  mul = λ x y. x * y / 2;
  pow = λ x y. 2 * (x / 2) ^ (y / 2);
  gt = λ x y. ltb y x;
  is_float_zero = λ x. x == 0;
  half = 1;
  one = 2;
  two = 4;
}

halved : (n : ℕ) → pos (2 * n / 2) ≡ pos n
halved n = ground arith

truncated :
    (d n : ℕ)
    → ltb (2 * n) d ≡ false
    → (leb_ℤ (pos 0) (pos (d / 2)) ≡ true) × (leb_ℤ (pos (d / 2)) (pos n) ≡ true)
truncated d n h = (ground arith, ground arith)

abbrev halves-IsFloat64 : IsFloat64 halves
halves-IsFloat64 = record {
  is_nan = λ d. false;
  exact = λ n h. halved n;
  truncates = λ d n h e l o. truncated d n o;
  mul-one = λ d. omega arith;
}

abbrev doubling : RetryPolicy ℕ
doubling = record {
  max_retries = pos 3;
  base_delay = pos 1000;
  max_delay = pos 5000;
  factor = 4;
  jitter = false;
}

delay_bounds_example :
    (leb_ℤ (pos 0) (delay halves doubling 3 0) ≡ true)
    × (leb_ℤ (delay halves doubling 3 0) (pos 5000) ≡ true)
    × (ltb 10_000 (exponential halves doubling 3) ≡ true → delay halves doubling 3 0 ≡ pos 5000)
unfolding exponential
delay_bounds_example =
    delay_bounds halves halves-IsFloat64 doubling 3 5000 0 refl refl (omega arith) refl refl

abbrev pub refused : Error
refused = plain (lit "connection refused")

abbrev pub dead_network : Runtime
dead_network = record {
  World = ℕ;
  floats = halves;
  decoders = record {
    error_body = λ text. none;
    atoi = λ text. (pos 0, false);
    until_rfc1123 = λ text. none;
    parse_int = λ text. none;
  };
  now = λ w. w;
  client_do = λ h w. (no_reply refused, w + 1);
  ctx_err = λ w. none;
  wait = λ d w. (none, w + pos_part d);
  random = λ w. (1, w);
  check_request = λ method url. none;
  canonical = λ name. name;
  encode_query = λ q. [];
  error_text = λ e. lit "connection refused";
  timeout_text = λ d. lit "timeout";
  auth_do = λ url body w. (no_answer refused, w + 1);
  await_refresh = λ w. (none, w);
}

dead_network-IsDead : IsDead dead_network refused
dead_network-IsDead = record { silent = λ h w. refl; undone = λ w. refl; waits_out = λ d w. refl }

abbrev pub some_transport : Transport ℕ
some_transport = record {
  client_timeout = pos 30_000_000_000;
  base_url = lit "https://api.spooled.cloud";
  api_key = lit "sk_test_0123456789ab";
  admin_key = [];
  user_agent = lit "spooled-go";
  headers = (lit "X-Trace", lit "1") ∷ [];
  retry = doubling;
  auto_refresh_token = false;
}

abbrev negative_transport : Transport ℕ
negative_transport = record some_transport { retry = record doubling { max_retries = negsuc 0 } }

abbrev pub some_request : Request
some_request = record {
  method = lit "GET";
  path = lit "/api/v1/jobs";
  body = none;
  raw_body = none;
  query = [];
  headers = [];
  idempotent = false;
  use_admin_key = false;
}

abbrev pub fresh_state : State ℕ
fresh_state = record {
  access_token = [];
  circuit_breaker = none;
  token_refresher = none;
  world = 20;
  log = [];
}

abbrev blocked_state : State ℕ
blocked_state = record fresh_state { circuit_breaker = some open_breaker }

do_sends_example :
    Returns
      (Within dead_network some_transport some_request 3 fresh_state)
      (do_request dead_network some_transport some_request fresh_state)
do_sends_example =
    do_sends dead_network some_transport some_request 3 fresh_state refl (omega arith)

get_header-put_header_example :
    get_header (lit "Accept") (put_header (lit "User-Agent") (lit "go") [])
    ≡ (if text_eq (lit "User-Agent") (lit "Accept") then lit "go" else get_header (lit "Accept") [])
get_header-put_header_example =
    get_header-put_header (lit "Accept") (lit "User-Agent") (lit "go") []

request_headers-authorization_example :
    get_header
      (lit "Authorization")
      (request_headers dead_network some_transport some_request (lit "token"))
    ≡ credentials dead_network some_transport some_request (lit "token")
unfolding lit text_eq
request_headers-authorization_example =
    request_headers-authorization dead_network some_transport some_request (lit "token")
      (record { agent = refl; accept = refl; content = refl; admin = refl; authorization = refl })
      (refl, tt) tt
