-- ===== src/Socket/Turns/Ids.antt =====
-- The ids of the commands that wait.
use spooled_sdk_go.Common.{
  ℕ, ◌+◌, ◌≤◌, ◌≡◌, refl, subst, inl, inr, Bool, true, false, Option, Text, List, [], ◌∷◌, All,
  arith, Bool-cases, IfReturns, IfReturns-mono, Option-cases,
}
use spooled_sdk_go.Dispatch.{Handlers, EventDecoders}
use spooled_sdk_go.Socket.{
  Command, subscribe, unsubscribe, RequestId, sub, unsub, id_eq, next_request_id, Waiting, Socket,
  delete_pending, put_answer, send_command, handle_response, finish_command, time_out,
}
use spooled_sdk_go.Socket.Link.{Message, response, event, unreadable, handle_message}
use spooled_sdk_go.Socket.Turns.{
  Turn, reads, sends, finishes, expires, take_turn, take_turns, read_message,
}

abbrev pub number : RequestId → ℕ
number (sub n) = n
number (unsub n) = n

-- No command that waits has the id, nor a number above `seq`; no two have the same id.
abbrev pub IsAbsent : RequestId → List Waiting → Type 0
IsAbsent id ps = All (λ p. id_eq p.request_id id ≡ false) ps

abbrev pub AreIds : ℕ → List Waiting → Type 0
AreIds seq [] = Unit
AreIds seq (p ∷ ps) = (number p.request_id ≤ seq) × IsAbsent p.request_id ps × AreIds seq ps

IsAbsent-delete :
    (id k : RequestId) (ps : List Waiting) → IsAbsent id ps → IsAbsent id (delete_pending k ps)
unfolding delete_pending
IsAbsent-delete id k [] h = tt
IsAbsent-delete id k (p ∷ ps) h = ground (arith, h.0, IsAbsent-delete id k ps h.1)

delete-AreIds :
    (seq : ℕ) (k : RequestId) (ps : List Waiting) → AreIds seq ps → AreIds seq (delete_pending k ps)
unfolding delete_pending
delete-AreIds seq k [] h = tt
delete-AreIds seq k (p ∷ ps) h =
    ground (arith, h.0, IsAbsent-delete p.request_id k ps h.1, delete-AreIds seq k ps h.2)

IsAbsent-put :
    (id k : RequestId) (e : Option Text) (ps : List Waiting)
    → IsAbsent id ps
    → IsAbsent id (put_answer k e ps)
unfolding put_answer
IsAbsent-put id k e [] h = tt
IsAbsent-put id k e (p ∷ ps) h = ground (arith, h.0, IsAbsent-put id k e ps h.1)

put-AreIds :
    (seq : ℕ) (k : RequestId) (e : Option Text) (ps : List Waiting)
    → AreIds seq ps
    → AreIds seq (put_answer k e ps)
unfolding put_answer
put-AreIds seq k e [] h = tt
put-AreIds seq k e (p ∷ ps) h =
    ground (arith, h.0, IsAbsent-put p.request_id k e ps h.1, put-AreIds seq k e ps h.2)

next-number : (cmd : Command) (n : ℕ) → number (next_request_id cmd n) ≡ n
unfolding next_request_id
next-number (subscribe f) n = refl
next-number (unsubscribe f) n = refl

id_eq-number : (i j : RequestId) → id_eq i j ≡ true → number i ≡ number j
unfolding id_eq
id_eq-number (sub m) (sub n) h = ground (arith, h)
id_eq-number (sub m) (unsub n) h = cc
id_eq-number (unsub m) (sub n) h = cc
id_eq-number (unsub m) (unsub n) h = ground (arith, h)

fresh-IsAbsent :
    (seq : ℕ) (id : RequestId) (ps : List Waiting)
    → number id ≡ seq + 1
    → AreIds seq ps
    → IsAbsent id ps
fresh-IsAbsent seq id [] e h = tt
fresh-IsAbsent seq id (p ∷ ps) e h = (
  elim (Bool-cases (id_eq p.request_id id)) [
    | inl y ↦ absurd (omega (arith, h.0, id_eq-number p.request_id id y))
    | inr n ↦ n
  ],
  fresh-IsAbsent seq id ps e h.2,
)

AreIds-mono : (seq : ℕ) (ps : List Waiting) → AreIds seq ps → AreIds (seq + 1) ps
AreIds-mono seq [] h = tt
AreIds-mono seq (p ∷ ps) h = (omega (arith, h.0), h.1, AreIds-mono seq ps h.2)

abbrev pub HasIds : Socket → Type 0
HasIds s = AreIds s.cmd_seq s.pending_commands

send-HasIds : (cmd : Command) (a : Bool) (s : Socket) → HasIds s → HasIds (send_command a cmd s).1
unfolding send_command
send-HasIds cmd a s h =
    let id = next_request_id cmd (s.cmd_seq + 1) in
    let m = AreIds-mono s.cmd_seq s.pending_commands h in
    let f = fresh-IsAbsent s.cmd_seq id s.pending_commands (next-number cmd (s.cmd_seq + 1)) h in
    ground (arith, m, f, next-number cmd (s.cmd_seq + 1))

response-HasIds :
    (id : RequestId) (e : Option Text) (s : Socket)
    → HasIds s
    → IfReturns HasIds (handle_response id e s)
unfolding handle_response
response-HasIds id e s h =
    let p = put-AreIds s.cmd_seq id e s.pending_commands h in ground (arith, p, h)

message-HasIds :
    {E : Type 0} (m : Message E) (s : Socket)
    → HasIds s
    → IfReturns (λ r. HasIds r.1) (handle_message m s)
unfolding handle_message
message-HasIds (response id e) s h = ground (arith, response-HasIds id e s h)
message-HasIds (event ev) s h = h
message-HasIds unreadable s h = h

finish-HasIds :
    (id : RequestId) (s : Socket) → HasIds s → IfReturns (λ r. HasIds r.1) (finish_command id s)
unfolding finish_command
finish-HasIds id s h =
    let p = delete-AreIds s.cmd_seq id s.pending_commands h in ground (arith, p, h)

time_out-HasIds : (id : RequestId) (s : Socket) → HasIds s → HasIds (time_out id s).1
unfolding time_out
time_out-HasIds id s h = delete-AreIds s.cmd_seq id s.pending_commands h

module _ (d : EventDecoders) (hs : Handlers) where
  take_turn-HasIds :
      (t : Turn) (s : Socket) → HasIds s → IfReturns (λ r. HasIds r.1) (take_turn d hs t s)
  unfolding take_turn read_message
  take_turn-HasIds (reads m) s h = ground (arith, message-HasIds m s h)
  take_turn-HasIds (sends cmd a) s h = send-HasIds cmd a s h
  take_turn-HasIds (finishes id) s h = ground (arith, finish-HasIds id s h, h)
  take_turn-HasIds (expires id) s h = time_out-HasIds id s h

  turns-HasIds :
      (ts : List Turn) (s : Socket) → HasIds s → IfReturns (λ r. HasIds r.1) (take_turns d hs ts s)
  unfolding take_turns
  turns-HasIds [] s h = h
  turns-HasIds (t ∷ ts) s h = elim (Option-cases (take_turn d hs t s)) [
    | inl e ↦ rw (e, take_turns) tt
    | inr (r, e) ↦
        rw (e, take_turns)
          (let h' =
              turns-HasIds ts r.1
                (subst (IfReturns (λ r. HasIds r.1)) e (take_turn-HasIds t s h)) in
            elim (Option-cases (take_turns d hs ts r.1)) [
              | inl e' ↦ rw (e', take_turns) tt
              | inr (r', e') ↦ rw (e', take_turns) (subst (IfReturns (λ r. HasIds r.1)) e' h')
            ])
  ]

  -- Whatever the reader and the callers of commands do, in any order, from a socket on which no
  -- command waits: the commands that wait have different ids, and the id of the next command is that
  -- of none of them.
  pub ids_differ :
      (ts : List Turn) (cmd : Command) (s : Socket)
      → s.pending_commands ≡ []
      → IfReturns
          (λ r. HasIds r.1 × IsAbsent (next_request_id cmd (r.1.cmd_seq + 1)) r.1.pending_commands)
          (take_turns d hs ts s)
  ids_differ ts cmd s e =
      IfReturns-mono (λ r. HasIds r.1) _ (take_turns d hs ts s)
        (λ r h. (
          h,
          fresh-IsAbsent r.1.cmd_seq (next_request_id cmd (r.1.cmd_seq + 1)) r.1.pending_commands
              (next-number cmd (r.1.cmd_seq + 1)) h,
        ))
        (turns-HasIds ts s (rw e tt))
