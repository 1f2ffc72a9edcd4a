-- ===== src/Sse/Received.antt =====
-- The whole of `readLoop` of spooled/realtime/sse.go: from the lines of a stream to the calls of the
-- handlers.
use spooled_sdk_go.Common.{
  ℕ, ◌≡◌, refl, ap, ◌∙◌, sym, subst, not, ◌&&◌, ◌++◌, Option, none, some, Text, List, [], ◌∷◌, map,
  is_empty, if◌then◌else◌, All, flat_map,
}
use spooled_sdk_go.Sse.{
  Reader, fresh_reader, Event, read_line, read_lines, deliver, handle_sse_event,
}
use spooled_sdk_go.Sse.Stream.{Message, event_of, stream_of, IsFilled, read_lines-stream_of}
use spooled_sdk_go.Dispatch.{Handlers, EventDecoders, HandlerCall, dispatch_event}

-- A line, with the time at which it is read.
abbrev pub TimedLine : Type 0
TimedLine = ℕ × Text

module _ (trim_space : Text → Text) (unmarshal : Text → Option Event) (d : EventDecoders)
    (hs : Handlers) where
  -- What the event that a line completes makes of the handlers.
  unfoldable pub handle_event : ℕ → Option (Text × Text) → List HandlerCall
  unfolding handle_sse_event
  handle_event now none = []
  handle_event now (some (t, x)) = dispatch_event d (handle_sse_event unmarshal now t x) hs

  -- The loop: the calls of the handlers, in order.
  unfoldable pub read_loop : Reader → List TimedLine → List HandlerCall
  unfolding handle_event
  read_loop r [] = []
  read_loop r ((now, line) ∷ lines) =
      let (e, r') = read_line trim_space r line in handle_event now e ++ read_loop r' lines

  -- A message whose data is the JSON text of an event.
  pub record Carries (m : Message) (ev : Event) : Type 0 where
    pub filled : IsFilled trim_space m
    pub decodes : unmarshal (event_of trim_space m).1 ≡ some ev

  -- The event with the message's name as its type, if it has none of its own.
  abbrev pub named : Message → Event → Event
  named m ev =
      let name = trim_space m.name in
      if not (is_empty name) && is_empty ev.type_ then record ev { type_ = name } else ev

  -- Every event that is read decodes: then the times of reading do not matter.
  abbrev decoded : Text × Text → List HandlerCall
  decoded (t, x) = dispatch_event d (handle_sse_event unmarshal 0 t x) hs

  abbrev Decodes : Text × Text → Type 0
  Decodes (t, x) = (ev : Event) × (unmarshal x ≡ some ev)

  handle_event-Decodes :
      (now : ℕ) (e : Text × Text) → Decodes e → handle_event now (some e) ≡ decoded e
  unfolding handle_event handle_sse_event
  handle_event-Decodes now (t, x) (ev, h) = rw h refl

  deliver-calls :
      (now : ℕ) (e : Option (Text × Text)) (es : List (Text × Text))
      → All Decodes (deliver e es)
      → All Decodes es
        × (handle_event now e ++ flat_map decoded es ≡ flat_map decoded (deliver e es))
  unfolding handle_event
  deliver-calls now none es a = (a, refl)
  deliver-calls now (some e) es a =
      (a.1, ap (λ cs. cs ++ flat_map decoded es) (handle_event-Decodes now e a.0))

  read_loop-read_lines :
      (r : Reader) (lines : List TimedLine)
      → All Decodes (read_lines trim_space r (map (λ l. l.1) lines))
      → read_loop r lines ≡ flat_map decoded (read_lines trim_space r (map (λ l. l.1) lines))
  unfolding read_loop read_lines
  read_loop-read_lines r [] a = refl
  read_loop-read_lines r ((now, line) ∷ lines) a =
      let (e, r') = read_line trim_space r line in
      let (b, q) = deliver-calls now e (read_lines trim_space r' (map (λ l. l.1) lines)) a in
      ap (λ cs. handle_event now e ++ cs) (read_loop-read_lines r' lines b) ∙ q

  -- The messages of events.
  abbrev pub AllCarry : List (Message × Event) → Type 0
  AllCarry ms = All (λ x. Carries x.0 x.1) ms

  messages-IsFilled :
      (ms : List (Message × Event)) → AllCarry ms → All (IsFilled trim_space) (map (λ x. x.0) ms)
  messages-IsFilled [] c = tt
  messages-IsFilled (x ∷ ms) c = (c.0.filled, messages-IsFilled ms c.1)

  messages-Decodes :
      (ms : List (Message × Event))
      → AllCarry ms
      → All Decodes (map (event_of trim_space) (map (λ x. x.0) ms))
  messages-Decodes [] c = tt
  messages-Decodes ((m, ev) ∷ ms) c = ((ev, c.0.decodes), messages-Decodes ms c.1)

  messages-calls :
      (ms : List (Message × Event))
      → AllCarry ms
      → flat_map decoded (map (event_of trim_space) (map (λ x. x.0) ms))
        ≡ flat_map (λ x. dispatch_event d (named x.0 x.1) hs) ms
  unfolding handle_sse_event
  messages-calls [] c = refl
  messages-calls ((m, ev) ∷ ms) c =
      rw c.0.decodes (ap (λ cs. dispatch_event d (named m ev) hs ++ cs) (messages-calls ms c.1))

  -- A stream of messages makes exactly the calls of the handlers for their events, one event after
  -- the other in the order of the stream, whenever its lines are read. A message is here a line
  -- `event:`, one or more lines `data:`, each with any spaces before and after its text, and an
  -- empty line, where the first line of data is not blank; its data, the lines without these spaces
  -- joined by newlines, is the JSON text of the event, and an event without a type has the
  -- message's trimmed name.
  pub read_loop-stream_of :
      (ms : List (Message × Event)) (lines : List TimedLine)
      → AllCarry ms
      → map (λ l. l.1) lines ≡ stream_of (map (λ x. x.0) ms)
      → read_loop fresh_reader lines ≡ flat_map (λ x. dispatch_event d (named x.0 x.1) hs) ms
  read_loop-stream_of ms lines c e =
      let messages = map (λ x. x.0) ms in
      let q : read_lines trim_space fresh_reader (map (λ l. l.1) lines)
          ≡ map (event_of trim_space) messages =
        ap (read_lines trim_space fresh_reader) e
        ∙ read_lines-stream_of trim_space messages (messages-IsFilled ms c) in
      read_loop-read_lines fresh_reader lines (subst (All Decodes) (sym q) (messages-Decodes ms c))
      ∙ ap (flat_map decoded) q
      ∙ messages-calls ms c
