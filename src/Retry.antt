-- ===== src/Retry.antt =====
-- internal/httpx/retry.go: exponential backoff. Package math and the operations on `float64` are
-- a parameter, since they are the language's and have no model here.
pub mod Bounds
use spooled_sdk_go.Common.{
  ℕ, Bool, ℤ, pos, is_zero, ltb_ℤ, ◌≡◌, true, false, ◌≤◌, ◌<◌, ◌^◌, if◌then◌else◌,
}

-- `of_int` and `to_int` are the conversions from and to `int64`; `gt` is `>`.
pub record Floats : Type 1 where
  pub Float : Type 0
  pub of_int : ℤ → Float
  pub to_int : Float → ℤ
  pub add : Float → Float → Float
  pub mul : Float → Float → Float
  pub pow : Float → Float → Float
  pub gt : Float → Float → Bool
  pub is_float_zero : Float → Bool
  pub half : Float
  pub one : Float
  pub two : Float

pub record RetryConfig (Float : Type 0) : Type 0 where
  pub max_retries : ℤ
  pub base_delay : ℤ
  pub max_delay : ℤ
  pub factor : Float
  pub jitter : Bool

-- The random source is part of the outside world: `delay` takes the number that it draws.
pub record RetryPolicy (Float : Type 0) : Type 0 where
  pub max_retries : ℤ
  pub base_delay : ℤ
  pub max_delay : ℤ
  pub factor : Float
  pub jitter : Bool

module _ (fl : Floats) where
  open fl use {Float, of_int, to_int, add, mul, pow, gt, is_float_zero, half, two}

  unfoldable pub new_retry_policy : RetryConfig Float → RetryPolicy Float
  new_retry_policy cfg = record {
    max_retries = cfg.max_retries;
    base_delay = if is_zero cfg.base_delay then pos 1_000_000_000 else cfg.base_delay;
    max_delay = if is_zero cfg.max_delay then pos 30_000_000_000 else cfg.max_delay;
    factor = if is_float_zero cfg.factor then two else cfg.factor;
    jitter = cfg.jitter;
  }

  -- The delay before jitter: it grows by the factor with each attempt.
  unfoldable pub exponential : RetryPolicy Float → ℕ → Float
  exponential p attempt = mul (of_int p.base_delay) (pow p.factor (of_int (pos attempt)))

  -- The cap at the maximal delay.
  unfoldable pub cap_delay : RetryPolicy Float → Float → Float
  cap_delay p d = if gt d (of_int p.max_delay) then of_int p.max_delay else d

  -- `Delay`, where `random` is what `p.rng.Float64()` returns.
  unfoldable pub delay : RetryPolicy Float → ℕ → Float → ℤ
  unfolding cap_delay
  delay p attempt random =
      let d = cap_delay p (exponential p attempt) in
      to_int (if p.jitter then mul d (add half random) else d)

  -- `DelayWithJitter`.
  unfoldable pub delay_with_jitter : RetryPolicy Float → ℕ → Float → ℤ
  unfolding cap_delay
  delay_with_jitter p attempt jitter_factor =
      to_int (mul (cap_delay p (exponential p attempt)) jitter_factor)

  unfoldable pub should_retry_attempt : RetryPolicy Float → ℕ → Bool
  should_retry_attempt p attempt = ltb_ℤ (pos attempt) p.max_retries
