-- ===== src/Realtime/Reconnect.antt =====
-- What reconnecting comes to.
use spooled_sdk_go.Common.{
  ℕ, ◌+◌, ◌-◌, ◌*◌, ◌^◌, ◌≤◌, ◌<◌, ◌≡◌, refl, ap₂, ◌⊎◌, inl, inr, Bool, true, false, pos, ltb_ℤ,
  scale, wrap64, [], ◌∷◌, All, arith, if◌then◌else◌,
}
use spooled_sdk_go.Realtime.{
  ConnectionState, disconnected, connected, connecting, reconnecting, ConnectionOptions, Client,
  do_connect, disconnect, backoff, handle_disconnect, timer_fires,
}

wrapped_product : (k d : ℕ) → k * d < 2 ^ 63 → wrap64 (scale k (pos d)) ≡ pos (k * d)
unfolding wrap64 scale
wrapped_product k d b = ground arith

-- While the product stays below 2 ^ 63, the delay before attempt n is the initial delay times
-- 2 ^ (n - 1), or the maximal delay if that is less.
pub backoff-min :
    (o : ConnectionOptions) (n d m : ℕ)
    → o.reconnect_delay ≡ pos d
    → o.max_reconnect_delay ≡ pos m
    → 2 ^ (n - 1) * d < 2 ^ 63
    → backoff o n ≡ (if ltb_ℤ (pos m) (pos (2 ^ (n - 1) * d)) then pos m else pos (2 ^ (n - 1) * d))
unfolding backoff
backoff-min o n d m e f b = rw (e, f) (rw (wrapped_product (2 ^ (n - 1)) d b))

-- What happens to a client that its user leaves alone: its stream ends, or its timer fires and the
-- server answers or not. A timer is there only while the client is reconnecting.
pub data Happens (c : Client) : Client → Type 0 where
  stream_ends : c.state ≡ connected → Happens c (handle_disconnect c)
  timer : (answers : Bool) → c.state ≡ reconnecting → Happens c (timer_fires answers c)

pub data Follows (c : Client) : Client → Type 0 where
  here : Follows c c
  then_ : {u v : Client} → Follows c u → Happens u v → Follows c v

-- Connected with no attempt counted, waiting for the first attempt, or disconnected.
abbrev HasTried : ConnectionState → ℕ → Type 0
HasTried connected n = n ≡ 0
HasTried reconnecting n = n ≡ 1
HasTried connecting n = ⊥
HasTried disconnected n = n ≤ 1

record IsFirst (o : ConnectionOptions) (c : Client) : Type 0 where
  same_opts : c.opts ≡ o
  tried : HasTried c.state c.reconnect_attempts
  first_delays : All (λ d. d ≡ backoff o 1) c.delays

-- A reconnection that fails is given up: `doConnect` has made the state disconnected, at which
-- `handleDisconnect` returns.
pub failed_reconnect_gives_up :
    (c : Client) → timer_fires false c ≡ record c { state = disconnected }
unfolding timer_fires do_connect handle_disconnect
failed_reconnect_gives_up c = refl

tried_connected : (s : ConnectionState) (n : ℕ) → s ≡ connected → HasTried s n → n ≡ 0
tried_connected connected n e h = h
tried_connected reconnecting n e h = cc
tried_connected connecting n e h = absurd h
tried_connected disconnected n e h = cc

tried_reconnecting : (s : ConnectionState) (n : ℕ) → s ≡ reconnecting → HasTried s n → n ≡ 1
tried_reconnecting connected n e h = cc
tried_reconnecting reconnecting n e h = h
tried_reconnecting connecting n e h = absurd h
tried_reconnecting disconnected n e h = cc

-- The three ways in which a lost connection is handled.
handle_disconnect-cases :
    (c : Client)
    → c.state ≡ connected
    → (handle_disconnect c ≡ record c { has_conn = false; state = disconnected })
      ⊎ (handle_disconnect c ≡ record c {
        has_conn = false;
        reconnect_attempts = c.reconnect_attempts + 1;
        state = disconnected;
      })
      ⊎ (handle_disconnect c ≡ record c {
        has_conn = false;
        reconnect_attempts = c.reconnect_attempts + 1;
        state = reconnecting;
        delays = backoff c.opts (c.reconnect_attempts + 1) ∷ c.delays;
      })
unfolding handle_disconnect
handle_disconnect-cases c s = ground arith

handle_disconnect-IsFirst :
    (o : ConnectionOptions) (c : Client)
    → c.state ≡ connected
    → IsFirst o c
    → IsFirst o (handle_disconnect c)
handle_disconnect-IsFirst o c s h =
    let z = tried_connected c.state c.reconnect_attempts s h.tried in
    elim (handle_disconnect-cases c s) [
      | inl e ↦
          rw e
            (record { same_opts = h.same_opts; tried = omega arith; first_delays = h.first_delays })
      | inr (inl e) ↦
          rw e
            (record { same_opts = h.same_opts; tried = omega arith; first_delays = h.first_delays })
      | inr (inr e) ↦ rw e (record {
        same_opts = h.same_opts;
        tried = omega arith;
        first_delays = (ap₂ backoff h.same_opts (omega arith), h.first_delays);
      })
    ]

timer-IsFirst :
    (o : ConnectionOptions) (answers : Bool) (c : Client)
    → c.state ≡ reconnecting
    → IsFirst o c
    → IsFirst o (timer_fires answers c)
unfolding timer_fires do_connect handle_disconnect
timer-IsFirst o true c s h = record {
  same_opts = h.same_opts;
  tried = refl;
  first_delays = h.first_delays;
}
timer-IsFirst o false c s h = record {
  same_opts = h.same_opts;
  tried = omega (arith, tried_reconnecting c.state c.reconnect_attempts s h.tried);
  first_delays = h.first_delays;
}

Happens-IsFirst : (o : ConnectionOptions) {c d : Client} → Happens c d → IsFirst o c → IsFirst o d
Happens-IsFirst o {c} (stream_ends s) h = handle_disconnect-IsFirst o c s h
Happens-IsFirst o {c} (timer answers s) h = timer-IsFirst o answers c s h

Follows-IsFirst : (o : ConnectionOptions) {c d : Client} → Follows c d → IsFirst o c → IsFirst o d
Follows-IsFirst o here h = h
Follows-IsFirst o (then_ r e) h = Happens-IsFirst o e (Follows-IsFirst o r h)

tried-le : (s : ConnectionState) (n : ℕ) → HasTried s n → n ≤ 1
tried-le connected n h = omega arith
tried-le reconnecting n h = omega arith
tried-le connecting n h = absurd h
tried-le disconnected n h = h

-- Once connected and left alone, a client makes at most one attempt to reconnect before it is
-- connected again or gives up, whatever number of attempts its options allow; so every delay is that
-- of the first attempt.
pub one_attempt :
    (c d : Client)
    → c.state ≡ connected
    → c.reconnect_attempts ≡ 0
    → c.delays ≡ []
    → Follows c d
    → (d.reconnect_attempts ≤ 1) × All (λ t. t ≡ backoff c.opts 1) d.delays
one_attempt c d s n e r =
    let h =
      Follows-IsFirst c.opts r
        (record { same_opts = refl; tried = rw (s, n) refl; first_delays = rw e tt }) in
    (tried-le d.state d.reconnect_attempts h.tried, h.first_delays)

-- If a client is disconnected while it waits to reconnect, its timer connects it all the same.
pub disconnect_undone :
    (c : Client)
    → c.state ≡ reconnecting
    → ((disconnect c).state ≡ disconnected) × ((timer_fires true (disconnect c)).state ≡ connected)
unfolding disconnect timer_fires do_connect
disconnect_undone c h = ground arith
