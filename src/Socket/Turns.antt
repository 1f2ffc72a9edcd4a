-- ===== src/Socket/Turns.antt =====
-- The goroutines of a client of spooled/realtime/websocket.go that share a connection: the reader,
-- with the handlers' calls, and those that run commands. `Turns` says in which orders they may act.
pub mod Ids
pub mod Filled
pub mod Answers
use spooled_sdk_go.Common.{Bool, ◌++◌, Option, none, some, Text, List, [], ◌∷◌}
use spooled_sdk_go.Sse.{Event}
use spooled_sdk_go.Dispatch.{Handlers, EventDecoders, HandlerCall, dispatch_event}
use spooled_sdk_go.Socket.{Command, RequestId, Socket, send_command, finish_command, time_out}
use spooled_sdk_go.Socket.Link.{Message, handle_message, WebSocketClient, lose_socket}

-- The reader reads a message; a command is sent, and the connection takes it or not; a command's
-- caller finds its answer, or its timeout passes.
pub data Turn : Type 0 where
  reads : Message Event → Turn
  sends : Command → Bool → Turn
  finishes expires : RequestId → Turn

module _ (d : EventDecoders) (hs : Handlers) where
  -- The calls for an event, if the message is one.
  unfoldable pub dispatch_some : Option Event → List HandlerCall
  unfolding dispatch_event
  dispatch_some none = []
  dispatch_some (some ev) = dispatch_event d ev hs

  -- One turn of the reader: the handlers' calls; `none` where the reader waits for ever.
  unfoldable pub read_message : Message Event → Socket → Option (List HandlerCall × Socket)
  unfolding handle_message dispatch_some
  read_message m s = elim (handle_message m s) [
    | none ↦ none
    | some (ev, s') ↦ some (dispatch_some ev, s')
  ]

  -- A caller whose answer is not there waits on, which changes nothing.
  unfoldable pub take_turn : Turn → Socket → Option (List HandlerCall × Socket)
  unfolding read_message
  take_turn (reads m) s = read_message m s
  take_turn (sends cmd accepted) s = some ([], (send_command accepted cmd s).1)
  take_turn (finishes id) s = elim (finish_command id s) [
    | none ↦ some ([], s)
    | some (e, s') ↦ some ([], s')
  ]
  take_turn (expires id) s = some ([], (time_out id s).1)

  unfoldable pub take_turns : List Turn → Socket → Option (List HandlerCall × Socket)
  unfolding take_turn
  take_turns [] s = some ([], s)
  take_turns (t ∷ ts) s = elim (take_turn t s) [
    | none ↦ none
    | some (cs, s') ↦ elim (take_turns ts s') [
      | none ↦ none
      | some (cs', s'') ↦ some (cs ++ cs', s'')
    ]
  ]

  -- `readLoop`: the messages up to the one that cannot be read.
  unfoldable pub read_socket :
      List (Message Event) → WebSocketClient → Option (List HandlerCall × WebSocketClient)
  unfolding read_message lose_socket
  read_socket [] c = some ([], lose_socket c)
  read_socket (m ∷ ms) c = elim (read_message m c.socket) [
    | none ↦ none
    | some (cs, s) ↦ elim (read_socket ms (record c { socket = s })) [
      | none ↦ none
      | some (cs', c') ↦ some (cs ++ cs', c')
    ]
  ]
