-- ===== src/Socket/Turns/Filled.antt =====
-- The channels on which the commands of spooled/realtime/websocket.go wait, and which of them hold an answer.
use spooled_sdk_go.Common.{
  ◌≡◌, refl, sym, ◌∙◌, subst, false≢true, ◌⊎◌, inl, inr, Bool, true, false, Option, none, some,
  Text, List, [], ◌∷◌, All, arith, Bool-cases, Returns, IfReturns, if◌then◌else◌,
}
use spooled_sdk_go.Socket.{
  Command, RequestId, sub, unsub, id_eq, Waiting, Socket, delete_pending, find_pending, put_answer,
  send_command, handle_response, finish_command,
}
use spooled_sdk_go.Socket.Subscribed.{id_eq_refl}

-- The id is one of these.
abbrev pub seen : RequestId → List RequestId → Bool
seen id [] = false
seen id (j ∷ js) = let rest = seen id js in if id_eq j id then true else rest

-- A channel that holds an answer belongs to a command that was answered.
abbrev pub AreFilled : List RequestId → List Waiting → Type 0
AreFilled ids ps = All (λ p. (p.answer ≡ none) ⊎ (seen p.request_id ids ≡ true)) ps

id_eq_to : (i j : RequestId) → id_eq i j ≡ true → i ≡ j
unfolding id_eq
id_eq_to (sub m) (sub n) h = ground (arith, h)
id_eq_to (sub m) (unsub n) h = cc
id_eq_to (unsub m) (sub n) h = cc
id_eq_to (unsub m) (unsub n) h = ground (arith, h)

pub AreFilled-delete :
    (ids : List RequestId) (k : RequestId) (ps : List Waiting)
    → AreFilled ids ps
    → AreFilled ids (delete_pending k ps)
unfolding delete_pending
AreFilled-delete ids k [] h = tt
AreFilled-delete ids k (p ∷ ps) h = ground (arith, h.0, AreFilled-delete ids k ps h.1)

seen-more :
    (id k : RequestId) (ids : List RequestId) → seen id ids ≡ true → seen id (k ∷ ids) ≡ true
seen-more id k ids h = ground (arith, h)

AreFilled-more :
    (ids : List RequestId) (k : RequestId) (ps : List Waiting)
    → AreFilled ids ps
    → AreFilled (k ∷ ids) ps
AreFilled-more ids k [] h = tt
AreFilled-more ids k (p ∷ ps) h = (
  elim h.0 [ inl a ↦ inl a | inr b ↦ inr (seen-more p.request_id k ids b) ],
  AreFilled-more ids k ps h.1,
)

AreFilled-put :
    (ids : List RequestId) (k : RequestId) (e : Option Text) (ps : List Waiting)
    → AreFilled ids ps
    → AreFilled (k ∷ ids) (put_answer k e ps)
unfolding put_answer
AreFilled-put ids k e [] h = tt
AreFilled-put ids k e (p ∷ ps) h =
    let rest = AreFilled-put ids k e ps h.1 in
    elim (Bool-cases (id_eq p.request_id k)) [
      | inl y ↦ rw y (inr (rw (id_eq_to p.request_id k y, id_eq_refl k) refl), rest)
      | inr n ↦
          rw n (elim h.0 [ inl a ↦ inl a | inr b ↦ inr (seen-more p.request_id k ids b) ], rest)
    ]

find-AreFilled :
    (ids : List RequestId) (k : RequestId) (ps : List Waiting)
    → AreFilled ids ps
    → seen k ids ≡ false
    → (find_pending k ps ≡ none)
      ⊎ ((p : Waiting) × (find_pending k ps ≡ some p) × (p.answer ≡ none))
unfolding find_pending
find-AreFilled ids k [] h n = inl refl
find-AreFilled ids k (p ∷ ps) h n = elim (Bool-cases (id_eq p.request_id k)) [
  | inl y ↦ rw y (
      inr (
        p,
        refl,
        elim h.0 [
          | inl a ↦ a
          | inr b ↦
              absurd
                (false≢true (sym n ∙ subst (λ i. seen i ids ≡ true) (id_eq_to p.request_id k y) b))
        ],
      ))
  | inr m ↦ rw m (find-AreFilled ids k ps h.1 n)
]

-- The response to a command that was not answered before finds no command, or an empty channel.
pub response-AreFilled :
    (ids : List RequestId) (k : RequestId) (e : Option Text) (s : Socket)
    → AreFilled ids s.pending_commands
    → seen k ids ≡ false
    → Returns (λ s'. AreFilled (k ∷ ids) s'.pending_commands) (handle_response k e s)
unfolding handle_response
response-AreFilled ids k e s h n = elim (find-AreFilled ids k s.pending_commands h n) [
  | inl a ↦ rw (a, handle_response) (AreFilled-more ids k s.pending_commands h)
  | inr (p, f, a) ↦
      rw (f, handle_response) (rw (a, handle_response) (AreFilled-put ids k e s.pending_commands h))
]

pub send-AreFilled :
    (ids : List RequestId) (cmd : Command) (a : Bool) (s : Socket)
    → AreFilled ids s.pending_commands
    → AreFilled ids (send_command a cmd s).1.pending_commands
unfolding send_command
send-AreFilled ids cmd a s h = ground arith

pub finish-AreFilled :
    (ids : List RequestId) (k : RequestId) (s : Socket)
    → AreFilled ids s.pending_commands
    → IfReturns (λ r. AreFilled ids r.1.pending_commands) (finish_command k s)
unfolding finish_command
finish-AreFilled ids k s h =
    let p = AreFilled-delete ids k s.pending_commands h in ground (arith, p, h)
