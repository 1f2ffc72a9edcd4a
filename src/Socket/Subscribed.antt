-- ===== src/Socket/Subscribed.antt =====
-- What the commands make of the subscriptions.
use spooled_sdk_go.Common.{
  ◌+◌, ◌≡◌, refl, ◌∙◌, true, Option, none, some, Text, List, [], ◌∷◌, ◌++◌, append_assoc, lit, ap,
  arith, if◌then◌else◌, text_eq, Returns, Returns-mono, text_eq_iff,
}
use spooled_sdk_go.Socket.{
  SubscriptionFilter, subscription_key, Command, subscribe, unsubscribe, RequestId, sub, unsub,
  id_eq, Waiting, Socket, next_request_id, delete_pending, find_pending, put_answer, send_command,
  handle_response, delete_subscription, store_subscription, apply_command, finish_command,
}

-- The subscription under a key.
unfoldable pub lookup : Text → List (Text × SubscriptionFilter) → Option SubscriptionFilter
lookup k [] = none
lookup k ((j, f) ∷ m) = let rest = lookup k m in if text_eq j k then some f else rest

-- The server accepts a command that was sent, and its caller goes on.
unfoldable pub accept_command : RequestId → Socket → Option (Option Text × Socket)
accept_command id s = elim (handle_response id none s) [
  | none ↦ none
  | some s' ↦ finish_command id s'
]

-- A command that the server accepts at once: sent, answered and finished.
unfoldable pub run_command : Command → Socket → Option (Option Text × Socket)
unfolding accept_command
run_command cmd s =
    let (_, s') = send_command true cmd s in accept_command (next_request_id cmd s'.cmd_seq) s'

-- The filter of a command, and what the command leaves under its key.
abbrev pub filter_of : Command → SubscriptionFilter
filter_of (subscribe f) = f
filter_of (unsubscribe f) = f

abbrev pub left_by : Command → Option SubscriptionFilter
left_by (subscribe f) = some f
left_by (unsubscribe f) = none

pub lookup-delete :
    (k j : Text) (m : List (Text × SubscriptionFilter))
    → lookup k (delete_subscription j m) ≡ (if text_eq j k then none else lookup k m)
unfolding lookup delete_subscription
lookup-delete k j [] = ground arith
lookup-delete k j ((i, f) ∷ m) =
    ground (arith, lookup-delete k j m, text_eq_iff i j, text_eq_iff j k, text_eq_iff i k)

pub lookup-apply_command :
    (k : Text) (cmd : Command) (m : List (Text × SubscriptionFilter))
    → lookup k (apply_command cmd m)
      ≡ (if text_eq (subscription_key (filter_of cmd)) k then left_by cmd else lookup k m)
unfolding apply_command store_subscription lookup
lookup-apply_command k (subscribe f) m = ground (arith, lookup-delete k (subscription_key f) m)
lookup-apply_command k (unsubscribe f) m = lookup-delete k (subscription_key f) m

pub id_eq_refl : (id : RequestId) → id_eq id id ≡ true
unfolding id_eq
id_eq_refl (sub n) = ground arith
id_eq_refl (unsub n) = ground arith

pub send_command-conn :
    (cmd : Command) (s : Socket)
    → s.has_conn ≡ true
    → let id = next_request_id cmd (s.cmd_seq + 1) in
      send_command true cmd s ≡ (
        none,
        record s {
          cmd_seq = s.cmd_seq + 1;
          pending_commands =
              record { request_id = id; command = cmd; answer = none } ∷ s.pending_commands;
          written = id ∷ s.written;
        },
      )
unfolding send_command
send_command-conn cmd s h = rw h refl

-- The command that was sent last is found first.
accept_command-head :
    (id : RequestId) (cmd : Command) (ps : List Waiting) (s : Socket)
    → s.pending_commands ≡ record { request_id = id; command = cmd; answer = none } ∷ ps
    → accept_command id s
      ≡ some (
        none,
        record s {
          pending_commands = delete_pending id (put_answer id none ps);
          subscriptions = apply_command cmd s.subscriptions;
        },
      )
unfolding accept_command handle_response finish_command find_pending put_answer delete_pending
accept_command-head id cmd ps s e = let r = id_eq_refl id in ground (arith, e, r)

pub run_command-conn :
    (cmd : Command) (s : Socket)
    → s.has_conn ≡ true
    → let id = next_request_id cmd (s.cmd_seq + 1) in
      run_command cmd s
      ≡ some (
        none,
        record s {
          cmd_seq = s.cmd_seq + 1;
          pending_commands = delete_pending id (put_answer id none s.pending_commands);
          subscriptions = apply_command cmd s.subscriptions;
          written = id ∷ s.written;
        },
      )
unfolding run_command
run_command-conn cmd s h =
    let id = next_request_id cmd (s.cmd_seq + 1) in
    let sent = (send_command true cmd s).1 in
    let p : Waiting = record { request_id = id; command = cmd; answer = none } in
    ap (λ r. accept_command (next_request_id cmd r.1.cmd_seq) r.1) (send_command-conn cmd s h)
    ∙ accept_command-head id cmd s.pending_commands
        (record s {
          cmd_seq = s.cmd_seq + 1;
          pending_commands = p ∷ s.pending_commands;
          written = id ∷ s.written;
        })
        refl

-- On a connection, a command that the server accepts returns no error and leaves under its filter's
-- key the filter, for a subscription, or nothing, for its end; what stands under other keys is kept.
pub run_command-lookup :
    (cmd : Command) (s : Socket) (k : Text)
    → s.has_conn ≡ true
    → Returns
        (λ r.
          (r.0 ≡ none)
          × (lookup k r.1.subscriptions ≡ (
              if text_eq (subscription_key (filter_of cmd)) k
              then left_by cmd
              else lookup k s.subscriptions)))
        (run_command cmd s)
unfolding run_command
run_command-lookup cmd s k h =
    rw (run_command-conn cmd s h) (refl, lookup-apply_command k cmd s.subscriptions)

same_key :
    (q j i w : Text) (es fs : List Text)
    → subscription_key
        (record { queue_name = q; job_id = j ++ lit ":" ++ i; worker_id = w; events = fs })
      ≡ subscription_key
          (record { queue_name = q ++ lit ":" ++ j; job_id = i; worker_id = w; events = es })
unfolding subscription_key
same_key q j i w es fs = simp append_assoc

-- On a connection, a subscription that the server accepts replaces that of another filter with the same key: one with other events, or one
-- where a colon and the text behind it stand at the end of the queue's name in place of the
-- beginning of the job's id.
pub keys_clash :
    (q j i w : Text) (es fs : List Text) (s : Socket)
    → s.has_conn ≡ true
    → let f : SubscriptionFilter = record {
      queue_name = q ++ lit ":" ++ j;
      job_id = i;
      worker_id = w;
      events = es;
    } in
      let g : SubscriptionFilter = record {
        queue_name = q;
        job_id = j ++ lit ":" ++ i;
        worker_id = w;
        events = fs;
      } in
      Returns
        (λ r. lookup (subscription_key f) r.1.subscriptions ≡ some g)
        (run_command (subscribe g) s)
keys_clash q j i w es fs s h =
    let f : SubscriptionFilter = record {
      queue_name = q ++ lit ":" ++ j;
      job_id = i;
      worker_id = w;
      events = es;
    } in
    let g : SubscriptionFilter = record {
      queue_name = q;
      job_id = j ++ lit ":" ++ i;
      worker_id = w;
      events = fs;
    } in
    Returns-mono _ _ (run_command (subscribe g) s)
      (λ r (_, e).
        e
        ∙ rw ((text_eq_iff (subscription_key g) (subscription_key f)).1 (same_key q j i w es fs))
            refl)
      (run_command-lookup (subscribe g) s (subscription_key f) h)
