-- ===== src/Auth/Flight.antt =====
-- `refreshInternal` of internal/httpx/auth.go as several goroutines run it at once: each step below is
-- what one goroutine does between two points at which others may act. Nothing else touches the
-- refresher meanwhile, so the tokens that the code reads under its mutex are those at the exchange.
pub mod Moves
pub mod Stages
pub mod Channels
pub mod Released
use spooled_sdk_go.Common.{
  ℕ, ◌+◌, ◌≡◌, Bool, true, false, not, ◌&&◌, Option, none, some, is_empty, if◌then◌else◌, ◌==◌,
}
use spooled_sdk_go.Errors.{Error}
use spooled_sdk_go.Runtime.{Runtime}
use spooled_sdk_go.Auth.{TokenRefresher, needs_refresh, refresh_by, refresh_internal}

-- Where a goroutine stands: outside, in the `select` on a channel, in the exchange (with the argument
-- `force` of its call), before the deferred function, or at a return.
pub data Pc : Type 0 where
  outside : Pc
  waiting : ℕ → Pc
  leading : Bool → Pc
  settled : Option Error → Pc
  returned : Option Error → Pc

abbrev pub is_leader : Pc → Bool
is_leader (leading force) = true
is_leader (settled e) = true
is_leader _ = false

-- A field or a channel of many, by its number.
abbrev pub put_at : {A : Type 0} → ℕ → A → (ℕ → A) → ℕ → A
put_at i a f j = if i == j then a else f j

-- The channels are numbered as they are made, from 1; `done` is the number of the one in the field
-- `done`, and 0 where that is nil.
pub record Shared (World : Type 0) : Type 0 where
  pub refresher : TokenRefresher
  pub done : ℕ
  pub closed : ℕ → Bool
  pub world : World

pub record System (World : Type 0) : Type 0 where
  pub shared : Shared World
  pub pc : ℕ → Pc

module _ (rt : Runtime) where
  open rt use {World, now}

  -- The token is good, and the call does not insist.
  abbrev pub is_fresh : Bool → TokenRefresher → World → Bool
  is_fresh force tr w =
      not force && not (needs_refresh (now w) tr) && not (is_empty tr.access_token)

  -- The first stretch under the mutex.
  unfoldable pub enter : Bool → Shared World → Pc × Shared World
  enter force m =
      if m.refresher.refreshing
      then (waiting m.done, m)
      else if is_fresh force m.refresher m.world
      then (returned none, m)
      else (
        leading force,
        record m {
          refresher = record m.refresher { refreshing = true };
          done = m.done + 1;
          closed = put_at (m.done + 1) false m.closed;
        },
      )

  -- The exchange with the server, which stores the tokens.
  unfoldable pub settle : Shared World → Pc × Shared World
  settle m =
      let (e, tr, w) = refresh_by rt m.refresher m.world in
      (settled e, record m { refresher = tr; world = w })

  -- The deferred function.
  unfoldable pub end_flight : Option Error → Shared World → Pc × Shared World
  end_flight e m = (
    returned e,
    record m {
      refresher = record m.refresher { refreshing = false };
      closed = put_at m.done true m.closed;
    },
  )

  -- The moves of a goroutine. The context of one that waits may be done at any time.
  pub data Move (m : Shared World) (p : Pc) (q : Pc × Shared World) : Type 0 where
    enters : (force : Bool) → p ≡ outside → q ≡ enter force m → Move m p q
    settles : (force : Bool) → p ≡ leading force → q ≡ settle m → Move m p q
    ends : (e : Option Error) → p ≡ settled e → q ≡ end_flight e m → Move m p q
    wakes : (ch : ℕ) → p ≡ waiting ch → m.closed ch ≡ true → q ≡ (returned none, m) → Move m p q
    cancels : (ch : ℕ) (e : Error) → p ≡ waiting ch → q ≡ (returned (some e), m) → Move m p q
    leaves : (e : Option Error) → p ≡ returned e → q ≡ (outside, m) → Move m p q

  pub data Step (s s' : System World) : Type 0 where
    pick :
        (i : ℕ) (q : Pc × Shared World)
        → Move s.shared (s.pc i) q
        → s' ≡ record { shared = q.1; pc = put_at i q.0 s.pc }
        → Step s s'

  pub data Reach (s : System World) : System World → Type 0 where
    at_first : Reach s s
    later : {t u : System World} → Reach s t → Step t u → Reach s u

  -- No goroutine has called yet.
  abbrev pub fresh_system : TokenRefresher → World → System World
  fresh_system tr w = record {
    shared = record { refresher = tr; done = 0; closed = λ ch. false; world = w };
    pc = λ i. outside;
  }
