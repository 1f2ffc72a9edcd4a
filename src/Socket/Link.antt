-- ===== src/Socket/Link.antt =====
-- The connection of spooled/realtime/websocket.go: connecting, with the commands that renew the
-- subscriptions while the reader may lose the connection, disconnecting and reconnecting, while no one
-- else runs a command.
pub mod Keyed
pub mod Renewed
pub mod Same
pub mod Undone
use spooled_sdk_go.Common.{
  ℕ, ◌+◌, Bool, true, false, not, ◌&&◌, Option, none, some, ℤ, pos, is_zero, ltb_ℤ, Text, List, [],
  ◌∷◌, map, lit, is_empty, if◌then◌else◌,
}
use spooled_sdk_go.Realtime.{
  ConnectionState, disconnected, connecting, connected, reconnecting, ConnectionOptions,
  default_connection_options, is_busy, is_disconnected, backoff,
}
use spooled_sdk_go.Socket.{
  SubscriptionFilter, Command, subscribe, unsubscribe, RequestId, Socket, next_request_id,
  send_command, handle_response, finish_command, time_out,
}

-- `socket` has the fields `conn`, `subscriptions` and those of commands. `delays` are the timers that
-- `time.AfterFunc` set, newest first: the model's own.
pub record WebSocketClient : Type 0 where
  pub opts : ConnectionOptions
  pub state : ConnectionState
  pub reconnect_attempts : ℕ
  pub socket : Socket
  pub delays : List ℤ

-- `NewWebSocketClient`.
unfoldable pub new_web_socket_client : ConnectionOptions → WebSocketClient
unfolding default_connection_options
new_web_socket_client o =
    let d = default_connection_options in
    record {
      opts = record o {
        ws_url = if is_empty o.ws_url then d.ws_url else o.ws_url;
        reconnect_delay =
            if is_zero o.reconnect_delay then d.reconnect_delay else o.reconnect_delay;
        max_reconnect_delay =
            if is_zero o.max_reconnect_delay then d.max_reconnect_delay else o.max_reconnect_delay;
        max_reconnect_attempts =
            if is_zero o.max_reconnect_attempts
            then d.max_reconnect_attempts
            else o.max_reconnect_attempts;
      };
      state = disconnected;
      reconnect_attempts = 0;
      socket = record {
        has_conn = false;
        cmd_seq = 0;
        subscriptions = [];
        pending_commands = [];
        written = [];
      };
      delays = [];
    }

-- What becomes of a command: the connection does not take it, the server does not answer in time, or
-- it answers with an error or with none.
pub data Fate : Type 0 where
  unwritten unanswered accepted : Fate
  refused : Text → Fate

is_written : Fate → Bool
is_written unwritten = false
is_written _ = true

-- The reader stores the answer, and the command goes on.
answer_with : RequestId → Option Text → Socket → Option (Option Text × Socket)
answer_with id e s = elim (handle_response id e s) [ none ↦ none | some s' ↦ finish_command id s' ]

settle_command : Fate → RequestId → Socket → Option (Option Text × Socket)
unfolding answer_with
settle_command unwritten id s = none
settle_command unanswered id s = some (time_out id s)
settle_command accepted id s = answer_with id none s
settle_command (refused e) id s = answer_with id (some e) s

-- `Subscribe` as a whole; `none` where a goroutine would wait for ever.
after_send : Fate → Command → Option Text × Socket → Option (Option Text × Socket)
unfolding settle_command
after_send fate cmd (some e, s) = some (some e, s)
after_send fate cmd (none, s) = settle_command fate (next_request_id cmd s.cmd_seq) s

unfoldable pub subscribe_whole : Fate → SubscriptionFilter → Socket → Option (Option Text × Socket)
unfolding after_send is_written
subscribe_whole fate f s =
    after_send fate (subscribe f) (send_command (is_written fate) (subscribe f) s)

-- `Unsubscribe` as a whole.
unfoldable pub unsubscribe_whole :
    Fate → SubscriptionFilter → Socket → Option (Option Text × Socket)
unfolding after_send is_written
unsubscribe_whole fate f s =
    after_send fate (unsubscribe f) (send_command (is_written fate) (unsubscribe f) s)

-- `handleDisconnect`.
unfoldable pub lose_socket : WebSocketClient → WebSocketClient
lose_socket c =
    if is_disconnected c.state
    then c
    else (let c' = record c { socket = record c.socket { has_conn = false } } in
        if not c.opts.auto_reconnect
        then record c' { state = disconnected }
        else (let n = c.reconnect_attempts + 1 in
            let c'' = record c' { reconnect_attempts = n } in
            if ltb_ℤ (pos 0) c.opts.max_reconnect_attempts
              && ltb_ℤ c.opts.max_reconnect_attempts (pos n)
            then record c'' { state = disconnected }
            else record c'' { state = reconnecting; delays = backoff c.opts n ∷ c.delays }))

-- The reader loses the connection, if there is still one, and ends.
unfoldable pub meanwhile : Bool → WebSocketClient → WebSocketClient
unfolding lose_socket
meanwhile lost c = if lost && c.socket.has_conn then lose_socket c else c

-- One turn of the loop over the subscriptions.
subscribe_in :
    Fate
    → SubscriptionFilter
    → (WebSocketClient → Option WebSocketClient)
    → WebSocketClient
    → Option WebSocketClient
subscribe_in fate f rest c = elim (subscribe_whole fate f c.socket) [
  | none ↦ none
  | some (e, s) ↦ rest (record c { socket = s })
]

-- The loop over the subscriptions; an error is only logged. `loses` tells before which commands the
-- reader loses the connection, and whether after all of them (`none`): a loss while a command waits,
-- which nothing then answers, changes none of what the command does.
unfoldable pub resubscribe :
    (Option SubscriptionFilter → Bool)
    → (SubscriptionFilter → Fate)
    → List SubscriptionFilter
    → WebSocketClient
    → Option WebSocketClient
unfolding subscribe_in meanwhile
resubscribe loses fate [] c = some (meanwhile (loses none) c)
resubscribe loses fate (f ∷ fs) c =
    subscribe_in (fate f) f (resubscribe loses fate fs) (meanwhile (loses (some f)) c)

-- The client whose dial has succeeded, as the reader starts.
abbrev pub dialled : WebSocketClient → WebSocketClient
dialled c = record c {
  socket = record c.socket { has_conn = true };
  reconnect_attempts = 0;
  state = connected;
}

-- `doConnect`, by whether the dial succeeds: whether it returns no error, and the client. A timer that
-- a loss sets has not fired yet.
unfoldable pub dial_socket :
    Bool
    → (Option SubscriptionFilter → Bool)
    → (SubscriptionFilter → Fate)
    → WebSocketClient
    → Option (Bool × WebSocketClient)
unfolding resubscribe
dial_socket false loses fate c = some (false, record c { state = disconnected })
dial_socket true loses fate c =
    elim (resubscribe loses fate (map (λ kf. kf.1) c.socket.subscriptions) (dialled c)) [
      | none ↦ none
      | some c' ↦ some (true, c')
    ]

-- `Connect`.
unfoldable pub connect_socket :
    Bool
    → (Option SubscriptionFilter → Bool)
    → (SubscriptionFilter → Fate)
    → WebSocketClient
    → Option (Bool × WebSocketClient)
unfolding dial_socket
connect_socket answers loses fate c =
    if is_busy c.state
    then some (true, c)
    else dial_socket answers loses fate (record c { state = connecting })

-- `Disconnect`; the error of closing the connection is left out.
unfoldable pub disconnect_socket : WebSocketClient → WebSocketClient
disconnect_socket c =
    if is_disconnected c.state
    then c
    else record c { socket = record c.socket { has_conn = false }; state = disconnected }

-- The function that the timer runs.
unfoldable pub redial :
    Bool
    → (Option SubscriptionFilter → Bool)
    → (SubscriptionFilter → Fate)
    → WebSocketClient
    → Option WebSocketClient
unfolding dial_socket
redial answers loses fate c = elim (dial_socket answers loses fate c) [
  | none ↦ none
  | some (done, c') ↦ some (if done then c' else lose_socket c')
]

-- A message: a response to a command, with its error, an event, or neither.
pub data Message (E : Type 0) : Type 0 where
  response : RequestId → Option Text → Message E
  event : E → Message E
  unreadable : Message E

-- `handleMessage`: the event to dispatch, if it is one; `none` where the reader waits.
unfoldable pub handle_message : {E : Type 0} → Message E → Socket → Option (Option E × Socket)
handle_message (response id e) s = elim (handle_response id e s) [
  | none ↦ none
  | some s' ↦ some (none, s')
]
handle_message (event ev) s = some (some ev, s)
handle_message unreadable s = some (none, s)
