-- ===== src/Socket/Link/Undone.antt =====
-- A subscription and its end.
use spooled_sdk_go.Common.{
  ◌≡◌, ap, sym, subst, ◌∙◌, true, none, some, Text, Returns, Returns-mono, Option-cases, inl, inr,
  arith, if◌then◌else◌, text_eq,
}
use spooled_sdk_go.Socket.{
  SubscriptionFilter, subscription_key, Command, subscribe, unsubscribe, Socket, next_request_id,
  send_command,
}
use spooled_sdk_go.Socket.Subscribed.{
  lookup, accept_command, run_command, run_command-conn, run_command-lookup, send_command-conn,
}
use spooled_sdk_go.Socket.Link.{
  accepted, is_written, after_send, settle_command, answer_with, subscribe_whole, unsubscribe_whole,
}

-- On a connection whose server accepts the commands, `Subscribe` and `Unsubscribe` are commands that
-- are sent, answered and finished.
accepted-run :
    (cmd : Command) (s : Socket)
    → s.has_conn ≡ true
    → after_send accepted cmd (send_command true cmd s) ≡ run_command cmd s
unfolding after_send settle_command answer_with run_command accept_command
accepted-run cmd s h =
    let e = send_command-conn cmd s h in
    ap (after_send accepted cmd) e
    ∙ sym (ap (λ r. accept_command (next_request_id cmd r.1.cmd_seq) r.1) e)

subscribe_whole-run :
    (f : SubscriptionFilter) (s : Socket)
    → s.has_conn ≡ true
    → subscribe_whole accepted f s ≡ run_command (subscribe f) s
unfolding subscribe_whole is_written
subscribe_whole-run f s h = accepted-run (subscribe f) s h

unsubscribe_whole-run :
    (f : SubscriptionFilter) (s : Socket)
    → s.has_conn ≡ true
    → unsubscribe_whole accepted f s ≡ run_command (unsubscribe f) s
unfolding unsubscribe_whole is_written
unsubscribe_whole-run f s h = accepted-run (unsubscribe f) s h

has_conn-run :
    (cmd : Command) (s : Socket)
    → s.has_conn ≡ true
    → Returns (λ r. r.1.has_conn ≡ true) (run_command cmd s)
has_conn-run cmd s h = rw (run_command-conn cmd s h) h

-- On a connection whose server accepts both commands, `Subscribe` returns no error and stores the filter
-- under its key; `Unsubscribe` with the same filter, on the socket that it leaves, then returns no error
-- either and leaves nothing there. Neither changes what stands under another key.
pub subscribe_undone :
    (f : SubscriptionFilter) (s : Socket) (k : Text)
    → s.has_conn ≡ true
    → Returns
        (λ r.
          (r.0 ≡ none)
          × (lookup k r.1.subscriptions
              ≡ (if text_eq (subscription_key f) k then some f else lookup k s.subscriptions))
          × Returns
              (λ u.
                (u.0 ≡ none)
                × (lookup k u.1.subscriptions
                    ≡ (if text_eq (subscription_key f) k then none else lookup k s.subscriptions)))
              (unsubscribe_whole accepted f r.1))
        (subscribe_whole accepted f s)
subscribe_undone f s k h = elim (Option-cases (run_command (subscribe f) s)) [
  | inl e ↦ absurd (subst (Returns (λ r. r.1.has_conn ≡ true)) e (has_conn-run (subscribe f) s h))
  | inr ((x, s'), e) ↦
      let c = subst (Returns (λ r. r.1.has_conn ≡ true)) e (has_conn-run (subscribe f) s h) in
      let (y, l) = subst (Returns _) e (run_command-lookup (subscribe f) s k h) in
      rw (subscribe_whole-run f s h ∙ e) (
        y,
        l,
        rw (unsubscribe_whole-run f s' c) (
            Returns-mono _ _ (run_command (unsubscribe f) s')
              (λ r (z, l'). (z, ground (arith, l, l')))
              (run_command-lookup (unsubscribe f) s' k c)),
      )
]
