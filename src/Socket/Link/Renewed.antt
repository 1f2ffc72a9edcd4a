-- ===== src/Socket/Link/Renewed.antt =====
-- What a reconnection makes of the subscriptions.
use spooled_sdk_go.Common.{
  ◌+◌, ◌≡◌, refl, sym, ap, subst, Option-cases, ◌∙◌, Bool, true, Option, none, some, Text, List, [],
  ◌∷◌, map, arith, text_eq_iff, All, Bool-cases, inl, inr, false, lit, ◌||◌, if◌then◌else◌, Returns,
  Returns-mono,
}
use spooled_sdk_go.Realtime.{Client, connected, handle_disconnect}
use spooled_sdk_go.Socket.{
  SubscriptionFilter, subscription_key, Command, subscribe, RequestId, Waiting, Socket,
  next_request_id, delete_pending, find_pending, put_answer, send_command, handle_response,
  apply_command, finish_command, time_out,
}
use spooled_sdk_go.Socket.Subscribed.{lookup, lookup-apply_command, id_eq_refl, send_command-conn}
use spooled_sdk_go.Socket.Link.{
  WebSocketClient, Fate, unwritten, unanswered, accepted, refused, is_written, answer_with,
  settle_command, after_send, subscribe_whole, resubscribe, dial_socket, lose_socket, meanwhile,
  dialled, subscribe_in,
}
use spooled_sdk_go.Socket.Link.Keyed.{IsKeyed, Agree, All-mono}

-- The command that was sent last gets the answer.
answer_with-head :
    (id : RequestId) (a : Option Text) (cmd : Command) (ps : List Waiting) (s : Socket)
    → s.pending_commands ≡ record { request_id = id; command = cmd; answer = none } ∷ ps
    → answer_with id a s
      ≡ some (
        a,
        record s {
          pending_commands = delete_pending id (put_answer id a ps);
          subscriptions = elim a [
            | none ↦ apply_command cmd s.subscriptions
            | some x ↦ s.subscriptions
          ];
        },
      )
unfolding answer_with handle_response finish_command find_pending put_answer delete_pending
answer_with-head id none cmd ps s e = let r = id_eq_refl id in ground (arith, e, r)
answer_with-head id (some x) cmd ps s e = let r = id_eq_refl id in ground (arith, e, r)

-- A subscription that is there already, made again, changes none, whatever becomes of the command.
abbrev Kept : Socket → Option Text × Socket → Type 0
Kept s (e, s') = (s'.has_conn ≡ s.has_conn) × Agree s'.subscriptions s.subscriptions

again :
    (f : SubscriptionFilter) (m : List (Text × SubscriptionFilter))
    → lookup (subscription_key f) m ≡ some f
    → Agree (apply_command (subscribe f) m) m
again f m h k =
    ground (arith, h, lookup-apply_command k (subscribe f) m, text_eq_iff (subscription_key f) k)

-- The state after a subscription was sent.
abbrev sent : SubscriptionFilter → Socket → Socket
sent f s =
    let id = next_request_id (subscribe f) (s.cmd_seq + 1) in
    record s {
      cmd_seq = s.cmd_seq + 1;
      pending_commands =
          record { request_id = id; command = subscribe f; answer = none } ∷ s.pending_commands;
      written = id ∷ s.written;
    }

subscribe_whole-sent :
    (fate : Fate) (f : SubscriptionFilter) (s : Socket)
    → is_written fate ≡ true
    → s.has_conn ≡ true
    → subscribe_whole fate f s
      ≡ settle_command fate (next_request_id (subscribe f) (s.cmd_seq + 1)) (sent f s)
unfolding subscribe_whole after_send
subscribe_whole-sent fate f s w c =
    ap (λ b. after_send fate (subscribe f) (send_command b (subscribe f) s)) w
    ∙ ap (after_send fate (subscribe f)) (send_command-conn (subscribe f) s c)

answered-Kept :
    (a : Option Text) (f : SubscriptionFilter) (s : Socket)
    → lookup (subscription_key f) s.subscriptions ≡ some f
    → Returns (Kept s) (answer_with (next_request_id (subscribe f) (s.cmd_seq + 1)) a (sent f s))
answered-Kept none f s h =
    let id = next_request_id (subscribe f) (s.cmd_seq + 1) in
    rw (answer_with-head id none (subscribe f) s.pending_commands (sent f s) refl)
      (refl, again f s.subscriptions h)
answered-Kept (some x) f s h =
    let id = next_request_id (subscribe f) (s.cmd_seq + 1) in
    rw (answer_with-head id (some x) (subscribe f) s.pending_commands (sent f s) refl)
      (refl, λ k. refl)

subscribe_whole-Kept :
    (fate : Fate) (f : SubscriptionFilter) (s : Socket)
    → s.has_conn ≡ true
    → lookup (subscription_key f) s.subscriptions ≡ some f
    → Returns (Kept s) (subscribe_whole fate f s)
unfolding subscribe_whole after_send settle_command is_written send_command time_out
subscribe_whole-Kept unwritten f s c h =
    rw (c, subscribe_whole, is_written, send_command) (refl, λ k. refl)
subscribe_whole-Kept unanswered f s c h =
    rw (subscribe_whole-sent unanswered f s refl c) (refl, λ k. refl)
subscribe_whole-Kept accepted f s c h =
    rw (subscribe_whole-sent accepted f s refl c) (answered-Kept none f s h)
subscribe_whole-Kept (refused e) f s c h =
    rw (subscribe_whole-sent (refused e) f s refl c) (answered-Kept (some e) f s h)

-- Every filter of a list is found under its key.
abbrev Found : List SubscriptionFilter → Socket → Type 0
Found fs s = All (λ f. lookup (subscription_key f) s.subscriptions ≡ some f) fs

-- A WebSocket client, its commands and subscriptions forgotten: what it has in common with the client of
-- the event stream.
abbrev pub link : WebSocketClient → Client
link c = record {
  opts = c.opts;
  state = c.state;
  reconnect_attempts = c.reconnect_attempts;
  has_conn = c.socket.has_conn;
  delays = c.delays;
}

pub link-lose_socket : (c : WebSocketClient) → link (lose_socket c) ≡ handle_disconnect (link c)
unfolding lose_socket handle_disconnect
link-lose_socket c = ground arith

lose_socket-gone :
    (c : WebSocketClient)
    → c.state ≡ connected
    → ((lose_socket c).socket.has_conn ≡ false)
      × ((lose_socket c).socket.subscriptions ≡ c.socket.subscriptions)
unfolding lose_socket
lose_socket-gone c h = (ground (arith, h), ground (arith, h))

meanwhile-gone : (b : Bool) (c : WebSocketClient) → c.socket.has_conn ≡ false → meanwhile b c ≡ c
unfolding meanwhile
meanwhile-gone true c h = rw h refl
meanwhile-gone false c h = refl

meanwhile-lost :
    (b : Bool) (c : WebSocketClient)
    → c.socket.has_conn ≡ true
    → meanwhile b c ≡ (if b then lose_socket c else c)
unfolding meanwhile
meanwhile-lost true c h = rw h refl
meanwhile-lost false c h = refl

subscribe_whole-gone :
    (fate : Fate) (f : SubscriptionFilter) (s : Socket)
    → s.has_conn ≡ false
    → subscribe_whole fate f s
      ≡ some (some (lit "not connected"), record s { cmd_seq = s.cmd_seq + 1 })
unfolding subscribe_whole after_send send_command
subscribe_whole-gone fate f s h = rw (h, subscribe_whole, send_command) refl

-- The reader loses the connection before one of the commands, or after all.
abbrev pub is_lost : (Option SubscriptionFilter → Bool) → List SubscriptionFilter → Bool
is_lost loses [] = loses none
is_lost loses (f ∷ fs) = loses (some f) || is_lost loses fs

-- What the renewal of subscriptions leaves of the connection, and of the subscriptions.
abbrev Leaves : Client → List (Text × SubscriptionFilter) → WebSocketClient → Type 0
Leaves l m c = (link c ≡ l) × Agree c.socket.subscriptions m

subscribe_in-gone :
    (fate : Fate) (f : SubscriptionFilter) (rest : WebSocketClient → Option WebSocketClient)
    (c : WebSocketClient)
    → c.socket.has_conn ≡ false
    → subscribe_in fate f rest c
      ≡ rest (record c { socket = record c.socket { cmd_seq = c.socket.cmd_seq + 1 } })
unfolding subscribe_in
subscribe_in-gone fate f rest c h = rw (subscribe_whole-gone fate f c.socket h, subscribe_in) refl

subscribe_in-Kept :
    (fate : Fate) (f : SubscriptionFilter) (rest : WebSocketClient → Option WebSocketClient)
    (c : WebSocketClient) (Q : WebSocketClient → Type 0)
    → Returns (Kept c.socket) (subscribe_whole fate f c.socket)
    → ((e : Option Text) (s : Socket)
        → Kept c.socket (e, s)
        → Returns Q (rest (record c { socket = s })))
    → Returns Q (subscribe_in fate f rest c)
unfolding subscribe_in
subscribe_in-Kept fate f rest c Q r next = elim (Option-cases (subscribe_whole fate f c.socket)) [
  | inl e ↦ absurd (subst (Returns (Kept c.socket)) e r)
  | inr ((x, s), e) ↦ rw (e, subscribe_in) (next x s (subst (Returns (Kept c.socket)) e r))
]

-- The loop without a connection.
resubscribe-gone :
    (loses : Option SubscriptionFilter → Bool) (fate : SubscriptionFilter → Fate)
    (fs : List SubscriptionFilter) (c : WebSocketClient)
    → c.socket.has_conn ≡ false
    → Returns (Leaves (link c) c.socket.subscriptions) (resubscribe loses fate fs c)
unfolding resubscribe
resubscribe-gone loses fate [] c h =
    subst (λ c'. Leaves (link c) c.socket.subscriptions c') (sym (meanwhile-gone (loses none) c h))
      (refl, λ k. refl)
resubscribe-gone loses fate (f ∷ fs) c h =
    let c' = record c { socket = record c.socket { cmd_seq = c.socket.cmd_seq + 1 } } in
    subst (Returns (Leaves (link c) c.socket.subscriptions))
      (sym (
        ap (subscribe_in (fate f) f (resubscribe loses fate fs))
          (meanwhile-gone (loses (some f)) c h)
        ∙ subscribe_in-gone (fate f) f (resubscribe loses fate fs) c h))
      (resubscribe-gone loses fate fs c' h)

link-Kept :
    (c : WebSocketClient) (s : Socket)
    → s.has_conn ≡ c.socket.has_conn
    → link (record c { socket = s }) ≡ link c
link-Kept c s h = ap (λ b. record (link c) { has_conn = b }) h

meanwhile-Leaves :
    (b : Bool) (c : WebSocketClient)
    → c.state ≡ connected
    → c.socket.has_conn ≡ true
    → Leaves
        (if b then handle_disconnect (link c) else link c)
        c.socket.subscriptions
        (meanwhile b c)
meanwhile-Leaves true c u h =
    let m = meanwhile-lost true c h in
    let (_, e) = lose_socket-gone c u in
    (
      ap link m ∙ link-lose_socket c,
      λ k. ap (λ d. lookup k d.socket.subscriptions) m ∙ ap (lookup k) e,
    )
meanwhile-Leaves false c u h =
    let m = meanwhile-lost false c h in
    (ap link m, λ k. ap (λ d. lookup k d.socket.subscriptions) m)

-- The loop whose connection is lost before its first command.
resubscribe-lost :
    (loses : Option SubscriptionFilter → Bool) (fate : SubscriptionFilter → Fate)
    (f : SubscriptionFilter) (fs : List SubscriptionFilter) (c : WebSocketClient)
    → c.state ≡ connected
    → c.socket.has_conn ≡ true
    → loses (some f) ≡ true
    → Returns
        (Leaves (handle_disconnect (link c)) c.socket.subscriptions)
        (resubscribe loses fate (f ∷ fs) c)
unfolding resubscribe
resubscribe-lost loses fate f fs c u h e =
    let (g, m) = lose_socket-gone c u in
    let turn = subscribe_in (fate f) f (resubscribe loses fate fs) in
    let lost : meanwhile (loses (some f)) c ≡ meanwhile (loses (some f)) (lose_socket c) =
      meanwhile-lost (loses (some f)) c h
      ∙ ap (λ b. if b then lose_socket c else c) e
      ∙ sym (meanwhile-gone (loses (some f)) (lose_socket c) g) in
    Returns-mono (Leaves (link (lose_socket c)) (lose_socket c).socket.subscriptions) _
      (resubscribe loses fate (f ∷ fs) c)
      (λ c' (l, a). (l ∙ link-lose_socket c, λ k. a k ∙ ap (lookup k) m))
      (subst (Returns (Leaves (link (lose_socket c)) (lose_socket c).socket.subscriptions))
        (sym (ap turn lost)) (resubscribe-gone loses fate (f ∷ fs) (lose_socket c) g))

resubscribe-Leaves :
    (loses : Option SubscriptionFilter → Bool) (fate : SubscriptionFilter → Fate)
    (fs : List SubscriptionFilter) (c : WebSocketClient)
    → c.state ≡ connected
    → c.socket.has_conn ≡ true
    → Found fs c.socket
    → Returns
        (Leaves
          (if is_lost loses fs then handle_disconnect (link c) else link c)
          c.socket.subscriptions)
        (resubscribe loses fate fs c)
unfolding resubscribe
resubscribe-Leaves loses fate [] c u h fd = meanwhile-Leaves (loses none) c u h
resubscribe-Leaves loses fate (f ∷ fs) c u h (fd, fds) = elim (Bool-cases (loses (some f))) [
  | inl e ↦
      subst
        (λ b.
          Returns
            (Leaves (if b || is_lost loses fs then handle_disconnect (link c) else link c)
              c.socket.subscriptions)
            (resubscribe loses fate (f ∷ fs) c))
        (sym e) (resubscribe-lost loses fate f fs c u h e)
  | inr e ↦
      let turn = subscribe_in (fate f) f (resubscribe loses fate fs) in
      let kept : meanwhile (loses (some f)) c ≡ c =
        meanwhile-lost (loses (some f)) c h ∙ ap (λ b. if b then lose_socket c else c) e in
      let Q =
        Leaves (if is_lost loses (f ∷ fs) then handle_disconnect (link c) else link c)
          c.socket.subscriptions in
      subst (Returns Q) (sym (ap turn kept)) (
        subscribe_in-Kept (fate f) f (resubscribe loses fate fs) c Q
          (subscribe_whole-Kept (fate f) f c.socket h fd)
          (λ x s (d, a).
            Returns-mono
              (Leaves
                (if is_lost loses fs
                  then handle_disconnect (link (record c { socket = s }))
                  else link (record c { socket = s }))
                s.subscriptions)
              Q (resubscribe loses fate fs (record c { socket = s }))
              (λ c' (l, b). (
                l
                    ∙ ap (λ t. if is_lost loses fs then handle_disconnect t else t)
                        (link-Kept c s d)
                    ∙ sym (
                        ap
                          (λ b.
                            if b || is_lost loses fs then handle_disconnect (link c) else link c)
                          e),
                λ k. b k ∙ a k,
              ))
              (resubscribe-Leaves loses fate fs (record c { socket = s }) u (d ∙ h)
                (All-mono (λ g. lookup (subscription_key g) c.socket.subscriptions ≡ some g)
                  (λ g. lookup (subscription_key g) s.subscriptions ≡ some g) fs
                  (λ g y. a (subscription_key g) ∙ y) fds))))
]

-- The filters of a keyed map are found.
keyed-Found :
    (m n : List (Text × SubscriptionFilter)) (s : Socket)
    → s.subscriptions ≡ m
    → All (λ e. (e.0 ≡ subscription_key e.1) × (lookup e.0 m ≡ some e.1)) n
    → Found (map (λ e. e.1) n) s
keyed-Found m [] s r h = h
keyed-Found m ((j, f) ∷ n) s r ((e, l), h) = (rw (r, sym e) l, keyed-Found m n s r h)

-- The filters that a connection renews.
abbrev pub filters : WebSocketClient → List SubscriptionFilter
filters c = map (λ e. e.1) c.socket.subscriptions

-- If each subscription stands under its filter's key, a connection whose dial succeeds ends its renewal
-- of the subscriptions, leaves every subscription as it was, whatever becomes of the commands that renew
-- them and whenever the reader loses the connection meanwhile, and returns no error. The client is then
-- connected, with no attempts counted, or, if the reader lost the connection, as `handleDisconnect`
-- leaves that. Meanwhile no one else uses the client, and the timer that a loss sets does not fire.
pub dial_socket-Agree :
    (loses : Option SubscriptionFilter → Bool) (fate : SubscriptionFilter → Fate)
    (c : WebSocketClient)
    → IsKeyed c.socket.subscriptions
    → Returns
        (λ r.
          (r.0 ≡ true)
          × Agree r.1.socket.subscriptions c.socket.subscriptions
          × (link r.1 ≡ (
              if is_lost loses (filters c)
              then handle_disconnect (link (dialled c))
              else link (dialled c))))
        (dial_socket true loses fate c)
unfolding dial_socket
dial_socket-Agree loses fate c h = ended (resubscribe loses fate (filters c) (dialled c)) (
    resubscribe-Leaves loses fate (filters c) (dialled c) refl refl
      (keyed-Found c.socket.subscriptions c.socket.subscriptions (dialled c).socket refl h))
  where
    ended :
        (o : Option WebSocketClient)
        → Returns
            (Leaves
              (if is_lost loses (filters c)
                then handle_disconnect (link (dialled c))
                else link (dialled c))
              c.socket.subscriptions)
            o
        → Returns
            (λ r.
              (r.0 ≡ true)
              × Agree r.1.socket.subscriptions c.socket.subscriptions
              × (link r.1 ≡ (
                  if is_lost loses (filters c)
                  then handle_disconnect (link (dialled c))
                  else link (dialled c))))
            (elim o as (λ x. Option (Bool × WebSocketClient)) [
              | none ↦ none
              | some c' ↦ some (true, c')
            ])
    ended none r = r
    ended (some c') (l, a) = (refl, a, l)
