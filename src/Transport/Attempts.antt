-- ===== src/Transport/Attempts.antt =====
-- The whole of `Do`: it ends, and how many requests it sends.
use spooled_sdk_go.Common.{
  ℕ, zero, suc, ◌+◌, ◌-◌, ◌≤◌, ◌<◌, ◌≡◌, refl, subst, ◌⊎◌, inl, inr, Bool, true, Option, some, pos,
  arith, Returns, Returns-mono, lt→ltb,
}
use spooled_sdk_go.Errors.{Error}
use spooled_sdk_go.Runtime.{Runtime}
use spooled_sdk_go.Transport.{Transport, Request, State}
use spooled_sdk_go.Transport.Loop.{
  Outcome, Round, return, next, should_retry, round, max_attempts, attempts,
}
use spooled_sdk_go.Transport.Rounds.{sent, refreshes, OneOf, Fits, round-Fits}

module _ {S : Type 0} where
  pub Round-cases :
      (r : Round S)
      → ((o : Outcome) × (s : S) × (r ≡ return o s))
        ⊎ ((a : ℕ) × (f : Bool) × (e : Error) × (s : S) × (r ≡ next a f e s))
  Round-cases (return o s) = inl (o, s, refl)
  Round-cases (next a f e s) = inr (a, f, e, s, refl)

-- Another round takes one from the rounds still due.
goes_on :
    (allowed left a a' k k' : ℕ)
    → a ≤ allowed
    → allowed + k ≤ a + left
    → ((a' ≡ a) × (suc k' ≡ k)) ⊎ ((a' ≡ a + 1) × (a < allowed) × (k' ≤ k))
    → (1 ≤ left) × (a' ≤ allowed) × (allowed + k' ≤ a' + (left - 1))
goes_on allowed left a a' k k' la lf (inl (e, d)) = (omega arith, omega arith, omega arith)
goes_on allowed left a a' k k' la lf (inr (e, l, d)) = (omega arith, omega arith, omega arith)

module _ (rt : Runtime) where
  open rt use {World, floats}
  open floats use {Float}

  -- `allowed` bounds the attempts after which another may follow; `left` are the rounds still due.
  pub attempts-end :
      (fuel left allowed n : ℕ) (t : Transport Float) (req : Request)
      → max_attempts rt t ≡ pos (n + 1)
      → allowed ≤ n
      → ((e : Error) (a : ℕ) → should_retry rt t req e a ≡ true → a < allowed)
      → (a : ℕ) (f : Bool) (last : Option Error) (s : State World) → a ≤ allowed
      → allowed + refreshes t.auto_refresh_token f s.token_refresher ≤ a + left
      → left < fuel
      → Returns
          (λ r. (sent r.1.log ≤ sent s.log + left + 1) × OneOf r.0)
          (attempts rt fuel t req a f last s)
  unfolding attempts
  attempts-end zero left allowed n t req m an h a f last s la lf ll = absurd (omega arith)
  attempts-end (suc fuel) left allowed n t req m an h a f last s la lf ll =
      let fit = round-Fits rt t req a f s in
      rw (m, lt→ltb a (n + 1) (omega arith), attempts)
        (elim (Round-cases (round rt t req a f s)) [
          | inl (o, s', e) ↦
              let (l, one) = subst (Fits rt t req a f s) e fit in rw e (omega arith, one)
          | inr (a', f', x, s', e) ↦
              let (l, how) = subst (Fits rt t req a f s) e fit in
              let (some_left, within, fewer) =
                goes_on allowed left a a' _ _ la lf
                  (elim how [ inl h₁ ↦ inl h₁ | inr (ea, y, k) ↦ inr (ea, h x a y, k) ]) in
              rw e (
                Returns-mono (λ r. (sent r.1.log ≤ sent s'.log + (left - 1) + 1) × OneOf r.0)
                  (λ r. (sent r.1.log ≤ sent s.log + left + 1) × OneOf r.0)
                  (attempts rt fuel t req a' f' (some x) s') (λ r (b, one). (omega arith, one))
                  (attempts-end fuel (left - 1) allowed n t req m an h a' f' (some x) s' within
                    fewer (omega arith)))
        ])
