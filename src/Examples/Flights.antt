-- ===== src/Examples/Flights.antt =====
-- Goroutines that refresh a token at once, at concrete inputs.
use spooled_sdk_go.Common.{ℕ, ◌≤◌, ◌≡◌, refl, true, false, none, some, lit, if◌then◌else◌, ◌==◌}
use spooled_sdk_go.Errors.{Error, wrapped}
use spooled_sdk_go.Auth.{refresh_by, refresh_with_token}
use spooled_sdk_go.Auth.Flight.{
  Pc, returned, Shared, System, enter, settle, end_flight, Reach, pick, at_first, later, enters,
  settles, ends, fresh_system,
}
use spooled_sdk_go.Auth.Flight.Stages.{Sequential, flights_refine}
use spooled_sdk_go.Auth.Flight.Released.{CanReturn, waiter_released, closed_once, waiter_misled}
use spooled_sdk_go.Examples.Requests.{dead_network, refused}
use spooled_sdk_go.Examples.Tokens.{some_refresher}

-- A system after a move of one goroutine.
abbrev moved : ℕ → System ℕ → Pc × Shared ℕ → System ℕ
moved i s q = record { shared = q.1; pc = λ j. if i == j then q.0 else s.pc j }

abbrev calm : System ℕ
calm = fresh_system dead_network some_refresher 20

abbrev led : System ℕ
led = moved 0 calm (enter dead_network true calm.shared)

abbrev awaited : System ℕ
awaited = moved 1 led (enter dead_network false led.shared)

abbrev exchanged : System ℕ
exchanged = moved 0 awaited (settle dead_network awaited.shared)

abbrev landed : System ℕ
landed = moved 0 exchanged (
    end_flight dead_network (refresh_by dead_network awaited.shared.refresher 20).0
      exchanged.shared)

led-Reach : Reach dead_network calm led
unfolding enter
led-Reach = later at_first (pick 0 _ (enters true refl refl) refl)

awaited-Reach : Reach dead_network calm awaited
unfolding enter
awaited-Reach = later led-Reach (pick 1 _ (enters false refl refl) refl)

exchanged-Reach : Reach dead_network calm exchanged
unfolding enter settle
exchanged-Reach = later awaited-Reach (pick 0 _ (settles true refl refl) refl)

landed-Reach : Reach dead_network calm landed
unfolding enter settle end_flight
landed-Reach = later exchanged-Reach (pick 0 _ (ends _ refl refl) refl)

flights_refine_example :
    Sequential dead_network some_refresher 20 landed.shared.refresher landed.shared.world
unfolding enter settle end_flight
flights_refine_example = flights_refine dead_network some_refresher 20 landed refl landed-Reach refl

waiter_released_example : CanReturn dead_network 2 awaited 1
unfolding enter
waiter_released_example =
    waiter_released dead_network some_refresher 20 awaited 1 1 refl awaited-Reach refl

closed_once_example :
    (1 ≤ exchanged.shared.done) × (exchanged.shared.closed exchanged.shared.done ≡ false)
unfolding enter settle
closed_once_example =
    closed_once dead_network some_refresher 20 exchanged 0 _ refl exchanged-Reach refl

abbrev unanswered : Error
unanswered = wrapped (lit "refresh request failed") refused

waiter_misled_example :
    (t : System ℕ) × Reach dead_network calm t
    × (t.pc 0 ≡ returned (some unanswered))
    × (t.pc 1 ≡ returned none)
unfolding refresh_by refresh_with_token lit
waiter_misled_example = waiter_misled dead_network some_refresher 20 unanswered true refl refl refl
