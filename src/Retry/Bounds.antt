-- ===== src/Retry/Bounds.antt =====
-- Bounds on the delay between attempts.
use spooled_sdk_go.Common.{
  ℕ, Bool, pos, leb_ℤ, ◌≡◌, ◌∙◌, sym, false≢true, true, false, ◌≤◌, ◌^◌, if◌then◌else◌, Bool-cases,
  inl, inr, arith,
}
use spooled_sdk_go.Retry.{Floats, RetryPolicy, exponential, cap_delay, delay, delay_with_jitter}

-- What the code relies on: an `int64` up to 2 ^ 53 is a `float64` exactly; the conversion back
-- truncates, so it keeps the order between a number from 0 on and such an integer (and does not for
-- a NaN, which `is_nan` tells); and 1.0 is neutral.
pub record IsFloat64 (fl : Floats) : Type 0 where
  pub is_nan : fl.Float → Bool
  pub exact : (n : ℕ) → n ≤ 2 ^ 53 → fl.to_int (fl.of_int (pos n)) ≡ pos n
  pub truncates :
      (d : fl.Float) (n : ℕ)
      → n ≤ 2 ^ 53
      → is_nan d ≡ false
      → fl.gt (fl.of_int (pos 0)) d ≡ false
      → fl.gt d (fl.of_int (pos n)) ≡ false
      → (leb_ℤ (pos 0) (fl.to_int d) ≡ true) × (leb_ℤ (fl.to_int d) (pos n) ≡ true)
  pub mul-one : (d : fl.Float) → fl.mul d fl.one ≡ d

leb_self : (n : ℕ) → leb_ℤ (pos n) (pos n) ≡ true
leb_self n = ground arith

leb_zero : (n : ℕ) → leb_ℤ (pos 0) (pos n) ≡ true
leb_zero n = ground arith

module _ (fl : Floats) (law : IsFloat64 fl) where
  delay_over :
      (p : RetryPolicy fl.Float) (attempt n : ℕ) (random : fl.Float)
      → p.jitter ≡ false
      → p.max_delay ≡ pos n
      → fl.gt (exponential fl p attempt) (fl.of_int (pos n)) ≡ true
      → delay fl p attempt random ≡ fl.to_int (fl.of_int (pos n))
  unfolding delay
  delay_over p attempt n random j m o = ground arith

  delay_within :
      (p : RetryPolicy fl.Float) (attempt n : ℕ) (random : fl.Float)
      → p.jitter ≡ false
      → p.max_delay ≡ pos n
      → fl.gt (exponential fl p attempt) (fl.of_int (pos n)) ≡ false
      → delay fl p attempt random ≡ fl.to_int (exponential fl p attempt)
  unfolding delay
  delay_within p attempt n random j m o = ground arith

  -- Without jitter, a delay lies between 0 and the maximal delay (of at most 2 ^ 53 nanoseconds,
  -- about 104 days), if the exponential is a number that is not negative; and where the
  -- exponential is above the maximal delay, the delay is the maximal delay.
  pub delay_bounds :
      (p : RetryPolicy fl.Float) (attempt n : ℕ) (random : fl.Float)
      → p.jitter ≡ false
      → p.max_delay ≡ pos n
      → n ≤ 2 ^ 53
      → law.is_nan (exponential fl p attempt) ≡ false
      → fl.gt (fl.of_int (pos 0)) (exponential fl p attempt) ≡ false
      → (leb_ℤ (pos 0) (delay fl p attempt random) ≡ true)
        × (leb_ℤ (delay fl p attempt random) (pos n) ≡ true)
        × (fl.gt (exponential fl p attempt) (fl.of_int (pos n)) ≡ true
            → delay fl p attempt random ≡ pos n)
  delay_bounds p attempt n random j m b nan low =
      elim (Bool-cases (fl.gt (exponential fl p attempt) (fl.of_int (pos n)))) [
        | inl over ↦
            let e = delay_over p attempt n random j m over ∙ law.exact n b in
            (rw e (leb_zero n), rw e (leb_self n), λ _. e)
        | inr within ↦
            let t = law.truncates (exponential fl p attempt) n b nan low within in
            rw (delay_within p attempt n random j m within)
              (t.0, t.1, λ o. absurd (false≢true (sym within ∙ o)))
      ]

  -- `Delay` is `DelayWithJitter` at the factor 0.5 + random if jitter is on, and at 1 if it is off.
  pub delay-eq-delay_with_jitter :
      (p : RetryPolicy fl.Float) (attempt : ℕ) (random : fl.Float)
      → delay fl p attempt random
        ≡ delay_with_jitter fl p attempt (if p.jitter then fl.add fl.half random else fl.one)
  unfolding delay delay_with_jitter
  delay-eq-delay_with_jitter p attempt random =
      ground (arith, law.mul-one (cap_delay fl p (exponential fl p attempt)))
