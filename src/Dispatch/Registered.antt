-- ===== src/Dispatch/Registered.antt =====
-- What the registration of a handler adds to the calls.
use spooled_sdk_go.Common.{
  ℕ, ◌≡◌, refl, ap, subst, ◌∙◌, Bool, true, false, ◌&&◌, ◌++◌, append_assoc, append-nil, Option,
  none, some, Text, List, [], ◌∷◌, map, lit, text_eq, eq_of_text_eq, if◌then◌else◌, All, Bool-cases,
  inl, inr,
}
use spooled_sdk_go.Sse.{Event}
use spooled_sdk_go.Dispatch.{
  is_one_of, job_types, queue_types, worker_types, is_job_event, is_queue_event, is_worker_event,
  Handlers, on_job_event, on_queue_event, on_worker_event, handlers_of, EventDecoders, HandlerCall,
  with_event, with_job, with_queue, with_worker, call_each, dispatch_event,
}

-- The registration of a handler for a type of event.
pub data Registration : Type 0 where
  for_job for_queue for_worker : Text → ℕ → Registration

abbrev pub register : Registration → Handlers → Handlers
register (for_job t h) hs = on_job_event t h hs
register (for_queue t h) hs = on_queue_event t h hs
register (for_worker t h) hs = on_worker_event t h hs

-- The call that the handler is due for an event: one, if the event has the handler's type, that
-- type is of the handler's kind, and the data decodes.
abbrev pub due : (d : EventDecoders) → Registration → Event → List HandlerCall
due d (for_job t h) ev =
    if text_eq t ev.type_ && is_job_event ev.type_
    then call_each with_job (d.job ev.data_) (h ∷ [])
    else []
due d (for_queue t h) ev =
    if text_eq t ev.type_ && is_queue_event ev.type_
    then call_each with_queue (d.queue ev.data_) (h ∷ [])
    else []
due d (for_worker t h) ev =
    if text_eq t ev.type_ && is_worker_event ev.type_
    then call_each with_worker (d.worker ev.data_) (h ∷ [])
    else []

due_now :
    {C : Type 0} (xs ys zs : List C) (b : Bool)
    → xs ++ (ys ++ (if b then zs else [])) ≡ (xs ++ ys) ++ (if b && true then zs else [])
due_now xs ys zs true = simp append_assoc
due_now xs ys zs false = simp (append_assoc, append-nil)

not_due : {C : Type 0} (xs zs : List C) (b : Bool) → xs ≡ xs ++ (if b && false then zs else [])
not_due xs zs true = simp append-nil
not_due xs zs false = simp append-nil

-- A handler that is registered last is called last, if it has the type.
call_each-last :
    {E C : Type 0} (f : ℕ → E → C) (o : Option E) (s t : Text) (h : ℕ) (m : List (Text × ℕ))
    → call_each f o (handlers_of t (m ++ (s, h) ∷ []))
      ≡ call_each f o (handlers_of t m) ++ (if text_eq s t then call_each f o (h ∷ []) else [])
unfolding call_each handlers_of
call_each-last f none s t h m = elim (Bool-cases (text_eq s t)) [
  | inl e ↦ rw e refl
  | inr e ↦ rw e refl
]
call_each-last f (some e) s t h [] = elim (Bool-cases (text_eq s t)) [
  | inl k ↦ rw k refl
  | inr k ↦ rw k refl
]
call_each-last f (some e) s t h ((r, g) ∷ m) = elim (Bool-cases (text_eq r t)) [
  | inl k ↦ rw k (ap (λ zs. f g e ∷ zs) (call_each-last f (some e) s t h m))
  | inr k ↦ rw k (call_each-last f (some e) s t h m)
]

is_one_of-disjoint :
    (ss us : List Text) (t : Text)
    → All (λ s. is_one_of us s ≡ false) ss
    → is_one_of ss t ≡ true
    → is_one_of us t ≡ false
unfolding is_one_of
is_one_of-disjoint [] us t a h = cc
is_one_of-disjoint (s ∷ ss) us t a h = elim (Bool-cases (text_eq s t)) [
  | inl e ↦ subst (λ t. is_one_of us t ≡ false) (eq_of_text_eq s t e) a.0
  | inr e ↦ is_one_of-disjoint ss us t a.1 (rw (e, is_one_of) at h)
]

job_or_queue : (t : Text) → is_job_event t ≡ true → is_queue_event t ≡ false
unfolding is_job_event is_queue_event lit is_one_of text_eq
job_or_queue t h =
    is_one_of-disjoint job_types queue_types t (refl, (refl, (refl, (refl, (refl, (refl, tt)))))) h

job_or_worker : (t : Text) → is_job_event t ≡ true → is_worker_event t ≡ false
unfolding is_job_event is_worker_event lit is_one_of text_eq
job_or_worker t h =
    is_one_of-disjoint job_types worker_types t (refl, (refl, (refl, (refl, (refl, (refl, tt)))))) h

queue_or_worker : (t : Text) → is_queue_event t ≡ true → is_worker_event t ≡ false
unfolding is_queue_event is_worker_event lit is_one_of text_eq
queue_or_worker t h = is_one_of-disjoint queue_types worker_types t (refl, (refl, tt)) h

abbrev to_all : (d : EventDecoders) → Event → Handlers → List HandlerCall
to_all d ev hs = map (λ h. with_event h ev) hs.all_event_handlers

-- The registration of a handler for a type of event adds to the calls for an event, at their end,
-- exactly the call that the handler is due, and changes no other.
pub dispatch_event-register :
    (d : EventDecoders) (r : Registration) (ev : Event) (hs : Handlers)
    → dispatch_event d ev (register r hs) ≡ dispatch_event d ev hs ++ due d r ev
unfolding dispatch_event on_job_event on_queue_event on_worker_event
dispatch_event-register d (for_job t h) ev hs = elim (Bool-cases (is_job_event ev.type_)) [
  | inl j ↦ rw j (
      ap (λ zs. to_all d ev hs ++ zs)
        (call_each-last with_job (d.job ev.data_) t ev.type_ h hs.event_handlers)
      ∙ due_now (to_all d ev hs) _ _ (text_eq t ev.type_))
  | inr j ↦ rw j (not_due _ _ (text_eq t ev.type_))
]
dispatch_event-register d (for_queue t h) ev hs = elim (Bool-cases (is_job_event ev.type_)) [
  | inl j ↦ rw (j, job_or_queue ev.type_ j) (not_due _ _ (text_eq t ev.type_))
  | inr j ↦ rw j (elim (Bool-cases (is_queue_event ev.type_)) [
    | inl q ↦ rw q (
        ap (λ zs. to_all d ev hs ++ zs)
          (call_each-last with_queue (d.queue ev.data_) t ev.type_ h hs.queue_event_handlers)
        ∙ due_now (to_all d ev hs) _ _ (text_eq t ev.type_))
    | inr q ↦ rw q (not_due _ _ (text_eq t ev.type_))
  ])
]
dispatch_event-register d (for_worker t h) ev hs = elim (Bool-cases (is_job_event ev.type_)) [
  | inl j ↦ rw (j, job_or_worker ev.type_ j) (not_due _ _ (text_eq t ev.type_))
  | inr j ↦ rw j (elim (Bool-cases (is_queue_event ev.type_)) [
    | inl q ↦ rw (q, queue_or_worker ev.type_ q) (not_due _ _ (text_eq t ev.type_))
    | inr q ↦ rw q (elim (Bool-cases (is_worker_event ev.type_)) [
      | inl k ↦ rw k (
          ap (λ zs. to_all d ev hs ++ zs)
            (call_each-last with_worker (d.worker ev.data_) t ev.type_ h hs.worker_event_handlers)
          ∙ due_now (to_all d ev hs) _ _ (text_eq t ev.type_))
      | inr k ↦ rw k (not_due _ _ (text_eq t ev.type_))
    ])
  ])
]
