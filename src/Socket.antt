-- ===== src/Socket.antt =====
-- The subscriptions of spooled/realtime/websocket.go: the commands that a client sends, the server's
-- responses to them, and the subscriptions that it keeps. Each function is what the goroutine does that
-- runs a command, or the one that reads, between two waits.
pub mod Subscribed
pub mod Link
pub mod Turns
use spooled_sdk_go.Common.{
  ℕ, ◌+◌, ◌==◌, Bool, true, false, not, ◌++◌, Option, none, some, Text, List, [], ◌∷◌, lit, text_eq,
  if◌then◌else◌,
}

pub record SubscriptionFilter : Type 0 where
  pub queue_name : Text
  pub job_id : Text
  pub worker_id : Text
  pub events : List Text

-- `subscriptionKey`.
unfoldable pub subscription_key : SubscriptionFilter → Text
subscription_key f = f.queue_name ++ lit ":" ++ f.job_id ++ lit ":" ++ f.worker_id

pub data Command : Type 0 where
  subscribe unsubscribe : SubscriptionFilter → Command

-- The texts "sub-%d" and "unsub-%d".
pub data RequestId : Type 0 where
  sub unsub : ℕ → RequestId

unfoldable pub id_eq : RequestId → RequestId → Bool
id_eq (sub m) (sub n) = m == n
id_eq (sub m) (unsub n) = false
id_eq (unsub m) (sub n) = false
id_eq (unsub m) (unsub n) = m == n

-- A command that waits, with what its channel (of capacity 1) holds: an error, or nil as `none`.
pub record Waiting : Type 0 where
  pub request_id : RequestId
  pub command : Command
  pub answer : Option (Option Text)

-- The maps `subscriptions` and `pendingCommands` are lists; `written` are the commands sent, newest
-- first: the model's own.
pub record Socket : Type 0 where
  pub has_conn : Bool
  pub cmd_seq : ℕ
  pub subscriptions : List (Text × SubscriptionFilter)
  pub pending_commands : List Waiting
  pub written : List RequestId

unfoldable pub next_request_id : Command → ℕ → RequestId
next_request_id (subscribe f) n = sub n
next_request_id (unsubscribe f) n = unsub n

unfoldable pub delete_pending : RequestId → List Waiting → List Waiting
delete_pending id [] = []
delete_pending id (p ∷ ps) =
    let rest = delete_pending id ps in if id_eq p.request_id id then rest else p ∷ rest

abbrev send_failed : Command → Text
send_failed (subscribe f) = lit "failed to send subscribe command"
send_failed (unsubscribe f) = lit "failed to send unsubscribe command"

-- `Subscribe` and `Unsubscribe` up to the wait, by whether the connection takes the message. An
-- error has removed the command again.
unfoldable pub send_command : Bool → Command → Socket → Option Text × Socket
send_command accepted cmd s =
    let s' = record s { cmd_seq = s.cmd_seq + 1 } in
    let id = next_request_id cmd s'.cmd_seq in
    if not s.has_conn
    then (some (lit "not connected"), s')
    else if not accepted
    then (some (send_failed cmd), s')
    else (
      none,
      record s' {
        pending_commands =
            record { request_id = id; command = cmd; answer = none } ∷ s.pending_commands;
        written = id ∷ s.written;
      },
    )

unfoldable pub find_pending : RequestId → List Waiting → Option Waiting
find_pending id [] = none
find_pending id (p ∷ ps) =
    let rest = find_pending id ps in if id_eq p.request_id id then some p else rest

unfoldable pub put_answer : RequestId → Option Text → List Waiting → List Waiting
put_answer id e [] = []
put_answer id e (p ∷ ps) =
    let rest = put_answer id e ps in
    if id_eq p.request_id id then record p { answer = some e } ∷ rest else p ∷ rest

-- `handleCommandResponse`; `none` where the channel is full, so that the reader waits.
unfoldable pub handle_response : RequestId → Option Text → Socket → Option Socket
unfolding put_answer find_pending
handle_response id e s = elim (find_pending id s.pending_commands) [
  | none ↦ some s
  | some p ↦ elim p.answer [
    | none ↦ some (record s { pending_commands = put_answer id e s.pending_commands })
    | some full ↦ none
  ]
]

-- Writes to and deletions from the map.
unfoldable pub delete_subscription :
    Text → List (Text × SubscriptionFilter) → List (Text × SubscriptionFilter)
delete_subscription k [] = []
delete_subscription k ((j, f) ∷ m) =
    let rest = delete_subscription k m in if text_eq j k then rest else (j, f) ∷ rest

unfoldable pub store_subscription :
    Text → SubscriptionFilter → List (Text × SubscriptionFilter) → List (Text × SubscriptionFilter)
unfolding delete_subscription
store_subscription k f m = (k, f) ∷ delete_subscription k m

unfoldable pub apply_command :
    Command → List (Text × SubscriptionFilter) → List (Text × SubscriptionFilter)
unfolding store_subscription
apply_command (subscribe f) m = store_subscription (subscription_key f) f m
apply_command (unsubscribe f) m = delete_subscription (subscription_key f) m

-- The rest of `Subscribe` and `Unsubscribe`, once the channel of the command holds an answer; `none`
-- where it does not, so that the caller waits.
unfoldable pub finish_command : RequestId → Socket → Option (Option Text × Socket)
unfolding delete_pending apply_command find_pending
finish_command id s = elim (find_pending id s.pending_commands) [
  | none ↦ none
  | some p ↦
      let s' = record s { pending_commands = delete_pending id s.pending_commands } in
      elim p.answer [
        | none ↦ none
        | some (some e) ↦ some (some e, s')
        | some none ↦
            some (none, record s' { subscriptions = apply_command p.command s.subscriptions })
      ]
]

abbrev timeout_of : RequestId → Text
timeout_of (sub n) = lit "subscribe timeout"
timeout_of (unsub n) = lit "unsubscribe timeout"

-- The timeout of the wait.
unfoldable pub time_out : RequestId → Socket → Option Text × Socket
unfolding delete_pending
time_out id s =
    (some (timeout_of id), record s { pending_commands = delete_pending id s.pending_commands })
