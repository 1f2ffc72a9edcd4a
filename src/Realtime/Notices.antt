-- ===== src/Realtime/Notices.antt =====
-- `setState` of spooled/realtime/sse.go and websocket.go: who is told of a change of the connection's
-- state. A handler is a number, and what it does changes nothing for the others.
use spooled_sdk_go.Common.{
  ℕ, ◌≡◌, refl, sym, ap, ◌∙◌, Bool, true, false, List, [], ◌∷◌, ◌++◌, map, append_assoc, append-nil,
  Bool-cases, inl, inr, if◌then◌else◌,
}
use spooled_sdk_go.Realtime.{ConnectionState, disconnected, connecting, connected, reconnecting}

unfoldable pub state_eq : ConnectionState → ConnectionState → Bool
state_eq disconnected disconnected = true
state_eq connecting connecting = true
state_eq connected connected = true
state_eq reconnecting reconnecting = true
state_eq _ _ = false

-- The calls that a goroutine of `setState` makes, in order.
abbrev pub Notice : Type 0
Notice = List (ℕ × ConnectionState)

-- `notices` are the goroutines, oldest first: the model's own.
pub record Announcer : Type 0 where
  pub state : ConnectionState
  pub state_change_handlers : List ℕ
  pub notices : List Notice

-- `OnStateChange`.
unfoldable pub on_state_change : ℕ → Announcer → Announcer
on_state_change h a = record a { state_change_handlers = a.state_change_handlers ++ h ∷ [] }

unfoldable pub set_state : ConnectionState → Announcer → Announcer
unfolding state_eq
set_state st a = if state_eq a.state st then a else record a {
  state = st;
  notices = a.notices ++ map (λ h. (h, st)) a.state_change_handlers ∷ [];
}

unfoldable pub set_states : List ConnectionState → Announcer → Announcer
unfolding set_state
set_states [] a = a
set_states (st ∷ sts) a = set_states sts (set_state st a)

-- The states that differ from the one before them.
abbrev pub changes : ConnectionState → List ConnectionState → List ConnectionState
changes s [] = []
changes s (st ∷ sts) =
    let rest = changes st sts in if state_eq s st then changes s sts else st ∷ rest

set_state-same :
    (st : ConnectionState) (a : Announcer) → state_eq a.state st ≡ true → set_state st a ≡ a
unfolding set_state
set_state-same st a e = rw e refl

set_state-new :
    (st : ConnectionState) (a : Announcer)
    → state_eq a.state st ≡ false
    → set_state st a ≡ record a {
      state = st;
      notices = a.notices ++ map (λ h. (h, st)) a.state_change_handlers ∷ [];
    }
unfolding set_state
set_state-new st a e = rw e refl

-- Each change of the state starts one goroutine, which tells every handler of the new state, in the
-- order of their registration; what leaves the state as it is tells no one.
pub set_states-notices :
    (sts : List ConnectionState) (a : Announcer)
    → (set_states sts a).notices
      ≡ a.notices ++ map (λ st. map (λ h. (h, st)) a.state_change_handlers) (changes a.state sts)
unfolding set_states
set_states-notices [] a = sym (append-nil a.notices)
set_states-notices (st ∷ sts) a = elim (Bool-cases (state_eq a.state st)) [
  | inl e ↦
      rw e (ap (λ b. (set_states sts b).notices) (set_state-same st a e) ∙ set_states-notices sts a)
  | inr e ↦
      let b : Announcer = record a {
        state = st;
        notices = a.notices ++ map (λ h. (h, st)) a.state_change_handlers ∷ [];
      } in
      rw e (
        ap (λ b. (set_states sts b).notices) (set_state-new st a e)
        ∙ set_states-notices sts b
        ∙ append_assoc a.notices _ _)
]
