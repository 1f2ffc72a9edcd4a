-- ===== src/Socket/Turns/Answers.antt =====
-- The reader of a socket that other goroutines share: it waits for no one, and dispatches every event.
use spooled_sdk_go.Common.{
  ◌≡◌, refl, sym, ap₂, ◌∙◌, subst, inl, inr, false, Option, Text, List, [], ◌∷◌, ◌++◌, append-nil,
  Option-cases, Returns, IfReturns, flat_map,
}
use spooled_sdk_go.Sse.{Event}
use spooled_sdk_go.Dispatch.{Handlers, EventDecoders, HandlerCall, dispatch_event}
use spooled_sdk_go.Socket.{RequestId, Socket, handle_response, finish_command, time_out}
use spooled_sdk_go.Socket.Link.{response, event, unreadable, handle_message}
use spooled_sdk_go.Socket.Turns.{
  Turn, reads, sends, finishes, expires, take_turn, take_turns, read_message, dispatch_some,
}
use spooled_sdk_go.Socket.Turns.Filled.{
  seen, AreFilled, AreFilled-delete, response-AreFilled, send-AreFilled, finish-AreFilled,
}

-- The server answers each command at most once, and none of those that it has answered before.
abbrev pub AnsweredOnce : List RequestId → List Turn → Type 0
AnsweredOnce ids [] = Unit
AnsweredOnce ids (reads (response id e) ∷ ts) = (seen id ids ≡ false) × AnsweredOnce (id ∷ ids) ts
AnsweredOnce ids (_ ∷ ts) = AnsweredOnce ids ts

-- The events that are read, in order.
abbrev pub events_of : List Turn → List Event
events_of [] = []
events_of (reads (event ev) ∷ ts) = ev ∷ events_of ts
events_of (_ ∷ ts) = events_of ts

-- The ids answered after a turn.
abbrev then_answered : Turn → List RequestId → List RequestId
then_answered (reads (response id e)) ids = id ∷ ids
then_answered _ ids = ids

module _ (d : EventDecoders) (hs : Handlers) where
  abbrev calls_for : List Event → List HandlerCall
  calls_for evs = flat_map (λ ev. dispatch_event d ev hs) evs

  -- What a turn that waits for no one leaves.
  abbrev Goes : List RequestId → List Event → List HandlerCall × Socket → Type 0
  Goes ids evs (cs, s) = (cs ≡ calls_for evs) × AreFilled ids s.pending_commands

  finishes-Goes :
      (ids : List RequestId) (k : RequestId) (s : Socket)
      → AreFilled ids s.pending_commands
      → Returns (Goes ids []) (take_turn d hs (finishes k) s)
  unfolding take_turn
  finishes-Goes ids k s h = elim (Option-cases (finish_command k s)) [
    | inl e ↦ rw (e, take_turn) (refl, h)
    | inr (r, e) ↦
        rw (e, take_turn)
          (
            refl,
            subst (IfReturns (λ r. AreFilled ids r.1.pending_commands)) e
                (finish-AreFilled ids k s h),
          )
  ]

  response-Goes :
      (ids : List RequestId) (k : RequestId) (e : Option Text) (s : Socket)
      → AreFilled ids s.pending_commands
      → seen k ids ≡ false
      → Returns (Goes (k ∷ ids) []) (take_turn d hs (reads (response k e)) s)
  unfolding take_turn read_message handle_message dispatch_some
  response-Goes ids k e s h n = elim (Option-cases (handle_response k e s)) [
    | inl q ↦ absurd (
        subst (Returns (λ s'. AreFilled (k ∷ ids) s'.pending_commands)) q
          (response-AreFilled ids k e s h n))
    | inr (s', q) ↦
        rw (take_turn, read_message, handle_message, q)
          (
            refl,
            subst (Returns (λ s'. AreFilled (k ∷ ids) s'.pending_commands)) q
                (response-AreFilled ids k e s h n),
          )
  ]

  turn-Goes :
      (t : Turn) (ts : List Turn) (ids : List RequestId) (s : Socket)
      → AnsweredOnce ids (t ∷ ts)
      → AreFilled ids s.pending_commands
      → AnsweredOnce (then_answered t ids) ts
        × Returns (Goes (then_answered t ids) (events_of (t ∷ []))) (take_turn d hs t s)
  unfolding take_turn read_message handle_message dispatch_some time_out
  turn-Goes (reads (response k e)) ts ids s o h = (o.1, response-Goes ids k e s h o.0)
  turn-Goes (reads (event ev)) ts ids s o h = (o, (sym (append-nil (dispatch_event d ev hs)), h))
  turn-Goes (reads unreadable) ts ids s o h = (o, (refl, h))
  turn-Goes (sends cmd a) ts ids s o h = (o, (refl, send-AreFilled ids cmd a s h))
  turn-Goes (finishes k) ts ids s o h = (o, finishes-Goes ids k s h)
  turn-Goes (expires k) ts ids s o h = (o, (refl, AreFilled-delete ids k s.pending_commands h))

  events-cons :
      (t : Turn) (ts : List Turn)
      → calls_for (events_of (t ∷ [])) ++ calls_for (events_of ts) ≡ calls_for (events_of (t ∷ ts))
  events-cons (reads (response k e)) ts = refl
  events-cons (reads (event ev)) ts = rw (append-nil (dispatch_event d ev hs)) refl
  events-cons (reads unreadable) ts = refl
  events-cons (sends cmd a) ts = refl
  events-cons (finishes k) ts = refl
  events-cons (expires k) ts = refl

  turns-Goes :
      (ts : List Turn) (ids : List RequestId) (s : Socket)
      → AnsweredOnce ids ts
      → AreFilled ids s.pending_commands
      → Returns (λ r. r.0 ≡ calls_for (events_of ts)) (take_turns d hs ts s)
  unfolding take_turns
  turns-Goes [] ids s o h = refl
  turns-Goes (t ∷ ts) ids s o h =
      let (o', g) = turn-Goes t ts ids s o h in
      elim (Option-cases (take_turn d hs t s)) [
        | inl e ↦ absurd (subst (Returns (Goes (then_answered t ids) (events_of (t ∷ [])))) e g)
        | inr ((cs, s'), e) ↦
            let (c, f) = subst (Returns (Goes (then_answered t ids) (events_of (t ∷ [])))) e g in
            let g' = turns-Goes ts (then_answered t ids) s' o' f in
            elim (Option-cases (take_turns d hs ts s')) [
              | inl e' ↦ absurd (subst (Returns (λ r. r.0 ≡ calls_for (events_of ts))) e' g')
              | inr ((cs', s''), e') ↦
                  rw (e, take_turns)
                    (rw e' (
                      ap₂ (λ x y. x ++ y) c
                        (subst (Returns (λ r. r.0 ≡ calls_for (events_of ts))) e' g')
                      ∙ events-cons t ts))
            ]
      ]

  -- Whatever commands are sent, answered, finished or timed out meanwhile, and in whatever order, from
  -- a socket on which no command waits: if the server answers no command twice, the reader never
  -- waits, and the calls of the handlers are those for the events that it reads, in their order.
  pub reader_goes_on :
      (ts : List Turn) (s : Socket)
      → s.pending_commands ≡ []
      → AnsweredOnce [] ts
      → Returns
          (λ r. r.0 ≡ flat_map (λ ev. dispatch_event d ev hs) (events_of ts))
          (take_turns d hs ts s)
  reader_goes_on ts s e o = turns-Goes ts [] s o (rw e tt)
