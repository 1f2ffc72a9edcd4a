-- ===== src/Socket/Link/Same.antt =====
-- The connections of spooled/realtime/sse.go and websocket.go behave alike.
use spooled_sdk_go.Common.{
  ◌≡◌, ◌&&◌, ◌∙◌, ap, Bool, true, false, Option, none, some, arith, Returns, if◌then◌else◌,
}
use spooled_sdk_go.Realtime.{do_connect, disconnect, handle_disconnect, timer_fires, disconnected}
use spooled_sdk_go.Socket.{SubscriptionFilter}
use spooled_sdk_go.Socket.Link.{
  WebSocketClient, Fate, dial_socket, disconnect_socket, lose_socket, redial, dialled,
}
use spooled_sdk_go.Socket.Link.Renewed.{link, link-lose_socket, is_lost, filters, dial_socket-Agree}
use spooled_sdk_go.Socket.Link.Keyed.{IsKeyed, Agree}

link-disconnect_socket : (c : WebSocketClient) → link (disconnect_socket c) ≡ disconnect (link c)
unfolding disconnect_socket disconnect
link-disconnect_socket c = ground arith

link-redial :
    (answers : Bool) (loses : Option SubscriptionFilter → Bool) (fate : SubscriptionFilter → Fate)
    (c : WebSocketClient)
    → IsKeyed c.socket.subscriptions
    → Returns
        (λ c'. link c' ≡ (
          if answers && is_lost loses (filters c)
          then handle_disconnect (timer_fires true (link c))
          else timer_fires answers (link c)))
        (redial answers loses fate c)
unfolding redial timer_fires dial_socket do_connect
link-redial false loses fate c h = link-lose_socket (record c { state = disconnected })
link-redial true loses fate c h =
    after_dial (dial_socket true loses fate c) (dial_socket-Agree loses fate c h)
  where
    after_dial :
        (o : Option (Bool × WebSocketClient))
        → Returns
            (λ r.
              (r.0 ≡ true)
              × Agree r.1.socket.subscriptions c.socket.subscriptions
              × (link r.1 ≡ (
                  if is_lost loses (filters c)
                  then handle_disconnect (link (dialled c))
                  else link (dialled c))))
            o
        → Returns
            (λ c'. link c' ≡ (
              if is_lost loses (filters c)
              then handle_disconnect (link (dialled c))
              else link (dialled c)))
            (elim o as (λ x. Option WebSocketClient) [
              | none ↦ none
              | some (done, c') ↦ some (if done then c' else lose_socket c')
            ])
    after_dial none r = r
    after_dial (some (done, c')) (e, a, l) = ap (λ b. link (if b then c' else lose_socket c')) e ∙ l

-- If each subscription stands under its filter's key, the WebSocket client loses its connection,
-- disconnects and is reconnected by its timer as the event stream's client is: its connection,
-- without the commands and subscriptions, becomes what that client's does. The reconnection ends,
-- whatever becomes of the commands that renew the subscriptions; if the reader loses the new connection
-- while they are renewed, the two are alike after the event stream's client has lost its own too.
-- Meanwhile no one else uses the client, and no other timer fires.
pub connections_alike :
    (c : WebSocketClient)
    → IsKeyed c.socket.subscriptions
    → (link (lose_socket c) ≡ handle_disconnect (link c))
      × (link (disconnect_socket c) ≡ disconnect (link c))
      × ((answers : Bool) (loses : Option SubscriptionFilter → Bool)
            (fate : SubscriptionFilter → Fate)
          → Returns
              (λ c'. link c' ≡ (
                if answers && is_lost loses (filters c)
                then handle_disconnect (timer_fires true (link c))
                else timer_fires answers (link c)))
              (redial answers loses fate c))
connections_alike c h = (
  link-lose_socket c,
  link-disconnect_socket c,
  λ answers loses fate. link-redial answers loses fate c h,
)
