-- ===== src/Auth/Flight/Released.antt =====
-- What becomes of a goroutine that waits, and of the channel that it waits on.
use spooled_sdk_go.Common.{
  ℕ, suc, ◌≤◌, ◌≡◌, refl, sym, ap, ◌∙◌, inl, inr, Bool, true, false, false≢true, Option, none, some,
  ◌==◌, ==_iff, arith, Bool-cases,
}
use spooled_sdk_go.Errors.{Error}
use spooled_sdk_go.Runtime.{Runtime}
use spooled_sdk_go.Auth.{TokenRefresher, refresh_by}
use spooled_sdk_go.Auth.Flight.{
  Pc, Move, waiting, leading, settled, returned, is_leader, put_at, Shared, System, is_fresh,
  settle, end_flight, enters, settles, ends, wakes, Step, pick, Reach, at_first, later,
  fresh_system,
}
use spooled_sdk_go.Auth.Flight.Moves.{
  put_at_self, put_at-ne, differs, after, refresh_by-refreshing, enter-busy, enter-leads,
}
use spooled_sdk_go.Auth.Flight.Stages.{Stage, resting, flying, landing, Reach-Stage}
use spooled_sdk_go.Auth.Flight.Channels.{IsOrdered, Reach-IsOrdered}

module _ (rt : Runtime) where
  open rt use {World}

  -- While a goroutine leads, the flag is up.
  busy :
      (tr : TokenRefresher) (w : World) (s : System World) (k : ℕ)
      → Stage rt tr w s
      → is_leader (s.pc k) ≡ true
      → s.shared.refresher.refreshing ≡ true
  busy tr w s k (resting r a c) l = absurd (false≢true (sym (a k) ∙ l))
  busy tr w s k (flying i f base p a c b g e) l = ap (λ t. t.refreshing) e
  busy tr w s k (landing i f y base v p a c b g e) l =
      sym (ap (λ r. r.1.refreshing) e)
      ∙ refresh_by-refreshing rt (record base { refreshing = true }) v

  -- A run of at most n moves of goroutines that lead.
  pub data Led : System World → ℕ → System World → Type 0 where
    none_left : {n : ℕ} {s : System World} → Led s n s
    led_by :
        {n : ℕ} {s u : System World} (k : ℕ) (q : Pc × Shared World)
        → is_leader (s.pc k) ≡ true
        → Move rt s.shared (s.pc k) q
        → Led (after rt s k q) n u
        → Led s (suc n) u

  -- After at most n moves of goroutines that lead, this goroutine's own next move may be to return
  -- nil.
  abbrev pub CanReturn : ℕ → System World → ℕ → Type 0
  CanReturn n s i =
      (u : System World) × Led s n u × Move rt u.shared (u.pc i) (returned none, u.shared)

  after_move :
      {n : ℕ} {s : System World} (i k : ℕ) (q : Pc × Shared World)
      → is_leader (s.pc k) ≡ true
      → Move rt s.shared (s.pc k) q
      → CanReturn n (after rt s k q) i
      → CanReturn (suc n) s i
  after_move i k q l m (u, r, e) = (u, led_by k q l m r, e)

  woken :
      (n : ℕ) (s : System World) (i ch : ℕ)
      → s.pc i ≡ waiting ch
      → s.shared.closed ch ≡ true
      → CanReturn n s i
  woken n s i ch p c = (s, none_left, wakes ch p c refl)

  landed :
      (s : System World) (i k ch : ℕ) (x : Option Error)
      → s.pc i ≡ waiting ch
      → s.pc k ≡ settled x
      → ch ≡ s.shared.done
      → (n : ℕ) → CanReturn (suc n) s i
  unfolding end_flight
  landed s i k ch x p q c n =
      after_move i k (end_flight rt x s.shared) (ap is_leader q) (ends x q refl) (
        woken n (after rt s k (end_flight rt x s.shared)) i ch
          (put_at-ne k i (returned x) s.pc
              (λ e. differs k i s.pc (ap is_leader p) (ap is_leader q) (sym e))
            ∙ p)
          (rw c (put_at_self s.shared.done true s.shared.closed)))

  flown :
      (s : System World) (i k ch : ℕ) (force : Bool)
      → s.pc i ≡ waiting ch
      → s.pc k ≡ leading force
      → ch ≡ s.shared.done
      → CanReturn 2 s i
  unfolding settle
  flown s i k ch force p q c =
      let x = (refresh_by rt s.shared.refresher s.shared.world).0 in
      after_move i k (settle rt s.shared) (ap is_leader q) (settles force q refl) (
        landed (after rt s k (settle rt s.shared)) i k ch x
          (put_at-ne k i (settled x) s.pc
              (λ e. differs k i s.pc (ap is_leader p) (ap is_leader q) (sym e))
            ∙ p)
          (put_at_self k (settled x) s.pc) c 0)

  -- A channel that is open is that of the refresh under way.
  open_last :
      (s : System World) (i ch : ℕ)
      → IsOrdered s
      → s.pc i ≡ waiting ch
      → s.shared.closed ch ≡ false
      → (ch ≡ s.shared.done) × (s.shared.refresher.refreshing ≡ true)
  open_last s i ch o p c =
      let (a, b) = o.waits i ch p in
      elim (Bool-cases (ch == s.shared.done)) [
        | inr e ↦ absurd (false≢true (sym c ∙ o.past ch a (grind arith)))
        | inl e ↦
            let d = (==_iff ch s.shared.done).0 e in
            elim (Bool-cases s.shared.refresher.refreshing) [
              | inl u ↦ (d, u)
              | inr u ↦
                  absurd (false≢true (sym c ∙ ap s.shared.closed d ∙ o.at_rest u (omega arith)))
            ]
      ]

  led :
      (tr : TokenRefresher) (w : World) (s : System World) (i ch : ℕ)
      → s.pc i ≡ waiting ch
      → (ch ≡ s.shared.done) × (s.shared.refresher.refreshing ≡ true)
      → Stage rt tr w s
      → CanReturn 2 s i
  led tr w s i ch p (d, u) (resting r a c) = absurd (false≢true (sym r ∙ u))
  led tr w s i ch p (d, u) (flying k f base q a c b g e) = flown s i k ch f p q d
  led tr w s i ch p (d, u) (landing k f y base v q a c b g e) = landed s i k ch y p q d 1

  -- Nobody waits for ever on a refresh: in whatever state goroutines that share a refresher get to,
  -- with no refresh under way at first, a goroutine that waits need see at most two moves, all of
  -- goroutines that lead a refresh (which wait for nothing but the server), and its own next move
  -- can then be to return nil.
  pub waiter_released :
      (tr : TokenRefresher) (w : World) (s : System World) (i ch : ℕ)
      → tr.refreshing ≡ false
      → Reach rt (fresh_system rt tr w) s
      → s.pc i ≡ waiting ch
      → CanReturn 2 s i
  waiter_released tr w s i ch r h p = elim (Bool-cases (s.shared.closed ch)) [
    | inl c ↦ woken 2 s i ch p c
    | inr c ↦
        led tr w s i ch p (open_last s i ch (Reach-IsOrdered rt tr w s r h) p c)
          (Reach-Stage rt tr w s r h)
  ]

  -- The channel of a refresh is closed once, if no refresh is under way at first: when the
  -- goroutine that leads gets to close it, it has been made and is open (closing a nil or closed
  -- channel would panic).
  pub closed_once :
      (tr : TokenRefresher) (w : World) (s : System World) (k : ℕ) (x : Option Error)
      → tr.refreshing ≡ false
      → Reach rt (fresh_system rt tr w) s
      → s.pc k ≡ settled x
      → (1 ≤ s.shared.done) × (s.shared.closed s.shared.done ≡ false)
  closed_once tr w s k x r h p =
      let o = Reach-IsOrdered rt tr w s r h in
      let u = busy tr w s k (Reach-Stage rt tr w s r h) (ap is_leader p) in
      (o.made u, o.under_way u)

  -- A refresh that fails fails in silence for the goroutines that waited: if no refresh is under
  -- way, the first call does not find a fresh token and its exchange returns an error, then of two
  -- goroutines one may return that error and the other nil.
  pub waiter_misled :
      (tr : TokenRefresher) (w : World) (x : Error) (force : Bool)
      → tr.refreshing ≡ false
      → is_fresh rt force tr w ≡ false
      → (refresh_by rt (record tr { refreshing = true }) w).0 ≡ some x
      → (t : System World) × Reach rt (fresh_system rt tr w) t
        × (t.pc 0 ≡ returned (some x))
        × (t.pc 1 ≡ returned none)
  unfolding settle end_flight
  waiter_misled tr w x force r f e =
      let s0 = fresh_system rt tr w in
      let m : Shared World = record {
        refresher = record tr { refreshing = true };
        done = 1;
        closed = put_at 1 false s0.shared.closed;
        world = w;
      } in
      let s1 = after rt s0 0 (leading force, m) in
      let s2 = after rt s1 1 (waiting 1, m) in
      let s3 = after rt s2 0 (settle rt m) in
      let y = (refresh_by rt m.refresher w).0 in
      let s4 = after rt s3 0 (end_flight rt y s3.shared) in
      let s5 = after rt s4 1 (returned none, s4.shared) in
      let to1 : Step rt s0 s1 =
        pick 0 (leading force, m) (enters force refl (sym (enter-leads rt force s0.shared r f)))
          refl in
      let to2 : Step rt s1 s2 =
        pick 1 (waiting 1, m) (enters force refl (sym (enter-busy rt force m refl))) refl in
      let to3 : Step rt s2 s3 = pick 0 (settle rt m) (settles force refl refl) refl in
      let to4 : Step rt s3 s4 = pick 0 (end_flight rt y s3.shared) (ends y refl refl) refl in
      let to5 : Step rt s4 s5 = pick 1 (returned none, s4.shared) (wakes 1 refl refl refl) refl in
      (s5, later (later (later (later (later at_first to1) to2) to3) to4) to5, ap returned e, refl)
