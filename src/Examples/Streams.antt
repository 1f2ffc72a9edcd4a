-- ===== src/Examples/Streams.antt =====
-- The event stream and its connection (realtime/sse.go) at concrete inputs.
use spooled_sdk_go.Common.{
  ◌≤◌, ◌≡◌, refl, true, false, [], ◌∷◌, map, flat_map, none, some, All, Text, lit, trim_prefix,
}
use spooled_sdk_go.Sse.{Event, fresh_reader}
use spooled_sdk_go.Sse.Received.{Carries, named, read_loop, read_loop-stream_of}
use spooled_sdk_go.Dispatch.{dispatch_event}
use spooled_sdk_go.Examples.Handlers.{raw, one_handler}
use spooled_sdk_go.Sse.Stream.{Message, stream_of, lines_of}
use spooled_sdk_go.Realtime.{
  Client, default_connection_options, connected, handle_disconnect, timer_fires, backoff,
}
use spooled_sdk_go.Realtime.Reconnect.{one_attempt, Follows, here, then_, stream_ends, timer}

-- A trim of one space in front.
abbrev unspaced : Text → Text
unspaced t = trim_prefix (lit " ") t

abbrev message : Message
message = record {
  name = lit " job.created";
  first = lit " {";
  rest = lit " \"id\":1" ∷ lit "}" ∷ [];
}

abbrev online : Client
online = record {
  opts = default_connection_options;
  state = connected;
  reconnect_attempts = 0;
  has_conn = true;
  delays = [];
}

abbrev waiting : Client
waiting = handle_disconnect online

abbrev given_up : Client
given_up = timer_fires false waiting

given_up-Follows : Follows online given_up
unfolding handle_disconnect default_connection_options
given_up-Follows = then_ (then_ here (stream_ends refl)) (timer false refl)

one_attempt_example :
    (given_up.reconnect_attempts ≤ 1)
    × All (λ t. t ≡ backoff default_connection_options 1) given_up.delays
one_attempt_example = one_attempt online given_up refl refl refl given_up-Follows

-- Every text decodes to the same event.
abbrev completed : Event
completed = record { type_ = lit "job.failed"; timestamp = none; data_ = lit "{}" }

message-Carries : Carries unspaced (λ text. some completed) raw one_handler message completed
unfolding lit trim_prefix
message-Carries = record { filled = refl; decodes = refl }

read_loop-stream_of_example :
    read_loop unspaced
      (λ text. some completed)
      raw
      one_handler
      fresh_reader
      (map (λ line. (7, line)) (stream_of (message ∷ [])))
    ≡ flat_map
        (λ (x : Message × Event).
          dispatch_event raw
            (named unspaced (λ text. some completed) raw one_handler x.0 x.1)
            one_handler)
        ((message, completed) ∷ [])
unfolding stream_of lines_of
read_loop-stream_of_example =
    read_loop-stream_of unspaced (λ text. some completed) raw one_handler
      ((message, completed) ∷ []) (map (λ line. (7, line)) (stream_of (message ∷ [])))
      (message-Carries, tt) refl
