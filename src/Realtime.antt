-- ===== src/Realtime.antt =====
-- The connection of spooled/realtime/sse.go: connecting, disconnecting and reconnecting. (The
-- WebSocket client has the same `handleDisconnect`.)
pub mod Reconnect
pub mod Notices
use spooled_sdk_go.Common.{
  ℕ, ◌+◌, ◌-◌, ◌^◌, Bool, true, false, not, ◌&&◌, ◌||◌, Option, none, some, ℤ, pos, is_zero, leb_ℤ,
  ltb_ℤ, scale, wrap64, Text, List, [], ◌∷◌, lit, is_empty, if◌then◌else◌,
}

pub data ConnectionState : Type 0 where
  disconnected connecting connected reconnecting : ConnectionState

pub record ConnectionOptions : Type 0 where
  pub base_url : Text
  pub ws_url : Text
  pub auto_reconnect : Bool
  pub max_reconnect_attempts : ℤ
  pub reconnect_delay : ℤ
  pub max_reconnect_delay : ℤ

unfoldable pub default_connection_options : ConnectionOptions
default_connection_options = record {
  base_url = lit "https://api.spooled.cloud";
  ws_url = lit "wss://api.spooled.cloud/api/v1/ws";
  auto_reconnect = true;
  max_reconnect_attempts = pos 10;
  reconnect_delay = pos 1_000_000_000;
  max_reconnect_delay = pos 30_000_000_000;
}

-- `has_conn` says whether `resp` is not nil. `delays` are the timers that `time.AfterFunc` set,
-- newest first: the model's own.
pub record Client : Type 0 where
  pub opts : ConnectionOptions
  pub state : ConnectionState
  pub reconnect_attempts : ℕ
  pub has_conn : Bool
  pub delays : List ℤ

-- `NewSSEClient`.
unfoldable pub new_sse_client : ConnectionOptions → Client
unfolding default_connection_options
new_sse_client o =
    let d = default_connection_options in
    record {
      opts = record o {
        base_url = if is_empty o.base_url then d.base_url else o.base_url;
        reconnect_delay =
            if is_zero o.reconnect_delay then d.reconnect_delay else o.reconnect_delay;
        max_reconnect_delay =
            if is_zero o.max_reconnect_delay then d.max_reconnect_delay else o.max_reconnect_delay;
        max_reconnect_attempts =
            if is_zero o.max_reconnect_attempts
            then d.max_reconnect_attempts
            else o.max_reconnect_attempts;
      };
      state = disconnected;
      reconnect_attempts = 0;
      has_conn = false;
      delays = [];
    }

-- `doConnect`, by whether the server answers with 200: it returns whether it succeeded.
unfoldable pub do_connect : Bool → Client → Bool × Client
do_connect true c = (true, record c { has_conn = true; reconnect_attempts = 0; state = connected })
do_connect false c = (false, record c { state = disconnected })

abbrev pub is_busy : ConnectionState → Bool
is_busy connected = true
is_busy connecting = true
is_busy _ = false

abbrev pub is_disconnected : ConnectionState → Bool
is_disconnected disconnected = true
is_disconnected _ = false

-- `ConnectWithFilter`: whether there is no error, and the client.
unfoldable pub connect : Bool → Client → Bool × Client
connect answers c =
    if is_busy c.state then (true, c) else do_connect answers (record c { state = connecting })

unfoldable pub disconnect : Client → Client
disconnect c =
    if is_disconnected c.state then c else record c { has_conn = false; state = disconnected }

-- `ReconnectDelay * time.Duration(1<<(attempts-1))`, an `int64`, and its cap.
unfoldable pub backoff : ConnectionOptions → ℕ → ℤ
backoff o attempts =
    let d = wrap64 (scale (2 ^ (attempts - 1)) o.reconnect_delay) in
    if ltb_ℤ o.max_reconnect_delay d then o.max_reconnect_delay else d

-- `handleDisconnect`.
unfoldable pub handle_disconnect : Client → Client
handle_disconnect c =
    if is_disconnected c.state
    then c
    else (let c' = record c { has_conn = false } in
        if not c.opts.auto_reconnect
        then record c' { state = disconnected }
        else (let n = c.reconnect_attempts + 1 in
            let c'' = record c' { reconnect_attempts = n } in
            if ltb_ℤ (pos 0) c.opts.max_reconnect_attempts
              && ltb_ℤ c.opts.max_reconnect_attempts (pos n)
            then record c'' { state = disconnected }
            else record c'' { state = reconnecting; delays = backoff c.opts n ∷ c.delays }))

-- The function that the timer runs.
unfoldable pub timer_fires : Bool → Client → Client
timer_fires answers c =
    let (done, c') = do_connect answers c in if done then c' else handle_disconnect c'
