-- ===== src/Transport/Rounds.antt =====
-- What one round of the loop of `Do` does to the log and to what may follow.
use spooled_sdk_go.Common.{
  ℕ, zero, suc, ◌+◌, ◌≤◌, ◌≡◌, refl, sym, ◌∙◌, ◌⊎◌, inl, inr, Bool, true, false, not, ◌&&◌, Option,
  none, some, List, [], ◌∷◌, arith, if◌then◌else◌, Bool-cases, Option-cases,
}
use native.Mathlib.Nat.{le_refl}
use spooled_sdk_go.Errors.{Error, is_authentication_error}
use spooled_sdk_go.Auth.{TokenRefresher}
use spooled_sdk_go.Runtime.{Runtime}
use spooled_sdk_go.Transport.{Transport, Request, Response, State, Action, sends, waits}
use spooled_sdk_go.Transport.Once.{Result, ok, err, do_once, exchange}
use spooled_sdk_go.Transport.Loop.{
  Outcome, Round, return, next, note_success, note_failure, should_retry, pause, conclude, renew,
  after_error, after_reply, after_pause, round,
}

-- The requests that a log holds.
abbrev pub sent : List Action → ℕ
sent [] = 0
sent (sends r ∷ rest) = suc (sent rest)
sent (waits d ∷ rest) = sent rest

-- The refreshes that a 401 can still cause: one, if there is a refresher and none was attempted.
abbrev pub refreshes : Bool → Bool → Option TokenRefresher → ℕ
refreshes true false (some tr) = 1
refreshes _ _ _ = 0

-- Exactly one of the two results of `Do` is not nil.
abbrev pub OneOf : Outcome → Type 0
OneOf o =
    ((r : Response) × (o.response ≡ some r) × (o.error ≡ none))
    ⊎ ((e : Error) × (o.response ≡ none) × (o.error ≡ some e))

module _ (rt : Runtime) where
  open rt use {World, floats}
  open floats use {Float}

  -- An exchange sends at most one request, and leaves the refresher.
  abbrev Sends : ℕ → State World → State World → Type 0
  Sends k s s' = (sent s'.log ≤ sent s.log + k) × (s'.token_refresher ≡ s.token_refresher)

  do_once-Sends :
      (t : Transport Float) (req : Request) (s : State World) → Sends 1 s (do_once rt t req s).1
  unfolding do_once exchange
  do_once-Sends t req s = ground arith

  pause-Sends : (t : Transport Float) (a : ℕ) (s : State World) → Sends 0 s (pause rt t a s).1
  unfolding pause
  pause-Sends t zero s = (omega arith, refl)
  pause-Sends t (suc k) s = (omega arith, refl)

  note_failure-Sends : (s : State World) → Sends 0 s (note_failure rt s)
  unfolding note_failure
  note_failure-Sends s = ground arith

  note_success-Sends : (s : State World) → Sends 0 s (note_success rt s)
  unfolding note_success
  note_success-Sends s = ground arith

  renew-log : (tr : TokenRefresher) (s : State World) → sent (renew rt tr s).1.log ≡ sent s.log
  unfolding renew
  renew-log tr s = ground arith

  -- The attempt that follows: the same one after a refresh, or the next one if the error is worth a
  -- retry.
  abbrev pub Fits :
      Transport Float → Request → ℕ → Bool → State World → Round (State World) → Type 0
  Fits t req a f s (return o s') = (sent s'.log ≤ sent s.log + 1) × OneOf o
  Fits t req a f s (next a' f' e s') =
      (sent s'.log ≤ sent s.log + 1)
      × ((a' ≡ a)
            × (suc (refreshes t.auto_refresh_token f' s'.token_refresher)
                ≡ refreshes t.auto_refresh_token f s.token_refresher)
          ⊎ (a' ≡ a + 1)
            × (should_retry rt t req e a ≡ true)
            × (refreshes t.auto_refresh_token f' s'.token_refresher
                ≤ refreshes t.auto_refresh_token f s.token_refresher))

  conclude-Fits :
      (t : Transport Float) (req : Request) (a : ℕ) (f f' : Bool) (e : Error) (s s' : State World)
      → sent s'.log ≤ sent s.log + 1
      → refreshes t.auto_refresh_token f' s'.token_refresher
        ≤ refreshes t.auto_refresh_token f s.token_refresher
      → Fits t req a f s (conclude rt t req a f' e s')
  unfolding conclude
  conclude-Fits t req a f f' e s s' l k =
      let (sn, kn) = note_failure-Sends s' in
      elim (Bool-cases (should_retry rt t req e a)) [
        | inl y ↦ rw (y, conclude) (omega arith, inr (refl, y, rw kn k))
        | inr n ↦ rw (n, conclude) (omega arith, inr (e, refl, refl))
      ]

  refreshes-done : (auto : Bool) (o : Option TokenRefresher) → refreshes auto true o ≡ 0
  refreshes-done true none = refl
  refreshes-done true (some tr) = refl
  refreshes-done false o = refl

  -- A refresh may be taken only if none was attempted; afterwards none is left.
  renewed-Fits :
      (t : Transport Float) (req : Request) (a : ℕ) (f : Bool) (e : Error) (tr : TokenRefresher)
      (s s' : State World)
      → sent s'.log ≤ sent s.log + 1
      → t.auto_refresh_token ≡ true
      → f ≡ false
      → s.token_refresher ≡ some tr
      → Fits t req a f s (
          let (fresh, s'') = renew rt tr s' in
          if fresh then next a true e s'' else conclude rt t req a true e s'')
  renewed-Fits t req a f e tr s s' l auto new h =
      let done = refreshes-done t.auto_refresh_token (renew rt tr s').1.token_refresher in
      elim (Bool-cases (renew rt tr s').0) [
        | inl y ↦ rw y (omega (arith, renew-log tr s'), inl (refl, rw (auto, new, h)))
        | inr n ↦ rw n (
            conclude-Fits t req a f true e s (renew rt tr s').1 (omega (arith, renew-log tr s'))
              (omega (arith, done)))
      ]

  test_parts : (c auto f : Bool) → (c && (auto && not f)) ≡ true → (auto ≡ true) × (f ≡ false)
  test_parts c auto f h = ground arith

  after_error-Fits :
      (t : Transport Float) (req : Request) (a : ℕ) (f : Bool) (e : Error) (s s' : State World)
      → sent s'.log ≤ sent s.log + 1
      → s'.token_refresher ≡ s.token_refresher
      → Fits t req a f s (after_error rt t req a f e s')
  unfolding after_error
  after_error-Fits t req a f e s s' l k =
      let stay = conclude-Fits t req a f f e s s' l (rw k (le_refl _)) in
      let test = is_authentication_error e && (t.auto_refresh_token && not f) in
      elim (Option-cases s'.token_refresher) [
        | inl o ↦ rw (o, after_error) stay
        | inr (tr, o) ↦
            rw (o, after_error)
              (elim (Bool-cases test) [
                | inl y ↦
                    let (auto, new) =
                      test_parts (is_authentication_error e) t.auto_refresh_token f y in
                    rw y (renewed-Fits t req a f e tr s s' l auto new (sym k ∙ o))
                | inr n ↦ rw n stay
              ])
      ]

  after_reply-Fits :
      (t : Transport Float) (req : Request) (a : ℕ) (f : Bool) (r : Result Response)
      (s s' : State World)
      → sent s'.log ≤ sent s.log + 1
      → s'.token_refresher ≡ s.token_refresher
      → Fits t req a f s (after_reply rt t req a f r s')
  unfolding after_reply
  after_reply-Fits t req a f (ok resp) s s' l k =
      (omega (arith, (note_success-Sends s').0), inl (resp, refl, refl))
  after_reply-Fits t req a f (err e) s s' l k = after_error-Fits t req a f e s s' l k

  after_pause-Fits :
      (t : Transport Float) (req : Request) (a : ℕ) (f : Bool) (c : Option Error)
      (s s' : State World)
      → Sends 0 s s'
      → Fits t req a f s (after_pause rt t req a f c s')
  unfolding after_pause
  after_pause-Fits t req a f (some e) s s' (l, k) = (omega arith, inr (e, refl, refl))
  after_pause-Fits t req a f none s s' (l, k) =
      let (l', k') = do_once-Sends t req s' in
      let (r, s'') = do_once rt t req s' in
      after_reply-Fits t req a f r s s'' (omega arith) (k' ∙ k)

  -- A round sends at most one request, and leads to another as `Fits` tells.
  pub round-Fits :
      (t : Transport Float) (req : Request) (a : ℕ) (f : Bool) (s : State World)
      → Fits t req a f s (round rt t req a f s)
  unfolding round
  round-Fits t req a f s =
      after_pause-Fits t req a f (pause rt t a s).0 s (pause rt t a s).1 (pause-Sends t a s)
