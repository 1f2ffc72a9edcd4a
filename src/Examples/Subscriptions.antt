-- ===== src/Examples/Subscriptions.antt =====
-- The subscriptions of realtime/websocket.go at concrete inputs.
use spooled_sdk_go.Common.{
  ◌≡◌, ◌&&◌, refl, Option, none, some, Bool, true, false, List, ◌+◌, IfReturns, flat_map, [], ◌∷◌,
  lit, text_eq, Returns, if◌then◌else◌,
}
use spooled_sdk_go.Sse.{Event}
use spooled_sdk_go.Dispatch.{dispatch_event}
use spooled_sdk_go.Examples.Handlers.{raw, one_handler}
use spooled_sdk_go.Socket.Turns.{Turn, sends, reads, finishes, take_turns}
use spooled_sdk_go.Socket.Turns.Ids.{HasIds, IsAbsent, ids_differ}
use spooled_sdk_go.Socket.Turns.Answers.{events_of, reader_goes_on}
use spooled_sdk_go.Socket.Link.Undone.{subscribe_undone}
use spooled_sdk_go.Socket.{id_eq, next_request_id, sub, unsub}
use spooled_sdk_go.Socket.{SubscriptionFilter, Socket, subscription_key, subscribe, unsubscribe}
use spooled_sdk_go.Socket.Subscribed.{lookup, run_command, filter_of, left_by, run_command-lookup}
use spooled_sdk_go.Realtime.{
  handle_disconnect, disconnect, timer_fires, reconnecting, default_connection_options,
}
use spooled_sdk_go.Socket.Link.{
  Fate, lose_socket, disconnect_socket, redial, WebSocketClient, unanswered, new_web_socket_client,
  dial_socket, response, event, dialled, accepted, subscribe_whole, unsubscribe_whole,
}
use spooled_sdk_go.Socket.Link.Same.{connections_alike}
use spooled_sdk_go.Socket.Link.Renewed.{link, is_lost, filters, dial_socket-Agree}
use spooled_sdk_go.Socket.Link.Keyed.{Agree}

abbrev emails : SubscriptionFilter
emails = record { queue_name = lit "emails"; job_id = []; worker_id = []; events = [] }

abbrev online : Socket
online = record {
  has_conn = true;
  cmd_seq = 3;
  subscriptions = (lit "emails::", emails) ∷ [];
  pending_commands = [];
  written = [];
}

run_command-lookup_example :
    Returns
      (λ r.
        (r.0 ≡ none)
        × (lookup (lit "emails::") r.1.subscriptions ≡ (
            if text_eq (subscription_key (filter_of (unsubscribe emails))) (lit "emails::")
            then left_by (unsubscribe emails)
            else lookup (lit "emails::") online.subscriptions)))
      (run_command (unsubscribe emails) online)
run_command-lookup_example = run_command-lookup (unsubscribe emails) online (lit "emails::") refl

abbrev dropped : WebSocketClient
dropped = record (new_web_socket_client default_connection_options) {
  state = reconnecting;
  reconnect_attempts = 2;
  socket = record online { has_conn = false };
}

-- The renewal is not answered, and the reader loses the connection before it.
dial_socket-Agree_example :
    Returns
      (λ r.
        (r.0 ≡ true)
        × Agree r.1.socket.subscriptions dropped.socket.subscriptions
        × (link r.1 ≡ (
            if is_lost (λ f. true) (filters dropped)
            then handle_disconnect (link (dialled dropped))
            else link (dialled dropped))))
      (dial_socket true (λ f. true) (λ f. unanswered) dropped)
unfolding lit text_eq subscription_key lookup
dial_socket-Agree_example =
    dial_socket-Agree (λ f. true) (λ f. unanswered) dropped ((refl, refl), tt)

connections_alike_example :
    (link (lose_socket dropped) ≡ handle_disconnect (link dropped))
    × (link (disconnect_socket dropped) ≡ disconnect (link dropped))
    × ((answers : Bool) (loses : Option SubscriptionFilter → Bool)
          (fate : SubscriptionFilter → Fate)
        → Returns
            (λ c. link c ≡ (
              if answers && is_lost loses (filters dropped)
              then handle_disconnect (timer_fires true (link dropped))
              else timer_fires answers (link dropped)))
            (redial answers loses fate dropped))
unfolding lit text_eq subscription_key lookup
connections_alike_example = connections_alike dropped ((refl, refl), tt)

subscribe_undone_example :
    Returns
      (λ r.
        (r.0 ≡ none)
        × (lookup (lit "emails::") r.1.subscriptions ≡ (
            if text_eq (subscription_key emails) (lit "emails::")
            then some emails
            else lookup (lit "emails::") online.subscriptions))
        × Returns
            (λ u.
              (u.0 ≡ none)
              × (lookup (lit "emails::") u.1.subscriptions ≡ (
                  if text_eq (subscription_key emails) (lit "emails::")
                  then none
                  else lookup (lit "emails::") online.subscriptions)))
            (unsubscribe_whole accepted emails r.1))
      (subscribe_whole accepted emails online)
subscribe_undone_example = subscribe_undone emails online (lit "emails::") refl

abbrev finished : Event
finished = record { type_ = lit "job.completed"; timestamp = none; data_ = lit "{}" }

-- Two commands, whose answers come in the other order, with an event between them.
abbrev some_turns : List Turn
some_turns =
    sends (subscribe emails) true
    ∷ sends (unsubscribe emails) true
    ∷ reads (response (unsub 5) none)
    ∷ reads (event finished)
    ∷ finishes (unsub 5)
    ∷ reads (response (sub 4) (some (lit "no such queue")))
    ∷ finishes (sub 4)
    ∷ []

ids_differ_example :
    IfReturns
      (λ r.
        HasIds r.1
        × IsAbsent (next_request_id (subscribe emails) (r.1.cmd_seq + 1)) r.1.pending_commands)
      (take_turns raw one_handler some_turns online)
ids_differ_example = ids_differ raw one_handler some_turns (subscribe emails) online refl

reader_goes_on_example :
    Returns
      (λ r. r.0 ≡ flat_map (λ ev. dispatch_event raw ev one_handler) (events_of some_turns))
      (take_turns raw one_handler some_turns online)
unfolding id_eq
reader_goes_on_example = reader_goes_on raw one_handler some_turns online refl (refl, (refl, tt))
