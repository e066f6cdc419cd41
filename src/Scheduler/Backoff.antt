-- ===== src/Scheduler/Backoff.antt =====
-- crates/walastack-runtime/src/scheduler.rs: `Backoff` and the delay before a retry.
use walastack_rs.Base.{
  ℕ, ◌%◌, ◌≤◌, min, ◌≡◌, Bool, ◌||◌, not, arith, if◌then◌else◌, ℤ, as_i32, u64_max, duration_max,
  saturating_add, saturating_mul,
}

-- The operations of `f64` that the code uses, on bit patterns.
pub record Floats : Type 0 where
  pub of_int : ℕ → ℕ  -- `n as f64`
  pub float_zero : ℕ
  pub float_one : ℕ
  pub float_max : ℕ → ℕ → ℕ
  pub float_min : ℕ → ℕ → ℕ
  pub clamp : ℕ → ℕ → ℕ → ℕ
  pub add : ℕ → ℕ → ℕ
  pub mul : ℕ → ℕ → ℕ
  pub div : ℕ → ℕ → ℕ
  pub powi : ℕ → ℤ → ℕ
  pub is_finite : ℕ → Bool
  pub float_lt : ℕ → ℕ → Bool
  pub float_eq : ℕ → ℕ → Bool
  pub to_u64 : ℕ → ℕ  -- `x as u64`, which saturates

-- Durations in nanoseconds; `factor` and `jitter` are bit patterns of an `f64`.
pub data Backoff : Type 0 where
  linear : (base step : ℕ) → Backoff
  exponential : (base factor max_delay : ℕ) → Backoff
  exponential_with_jitter : (base factor max_delay jitter : ℕ) → Backoff

module _ (fl : Floats) where
  open fl use {
    of_int, float_zero, float_one, float_max, float_min, clamp, add, mul, div, powi, is_finite,
    float_lt, float_eq, to_u64,
  }

  unfoldable pub exponential_delay : ℕ → ℕ → ℕ → ℕ → ℕ
  exponential_delay base factor retry_index max_delay =
      let base_nanos = of_int base in
      let computed = mul base_nanos (powi (float_max factor float_zero) (as_i32 retry_index)) in
      if not (is_finite computed) || float_lt computed float_zero
      then max_delay
      else min (to_u64 (float_min computed (of_int u64_max))) max_delay

  -- `subsec` is the reading of `subsec_nanos`, 0 where the clock stands before the epoch.
  unfoldable pub jitter_fraction : ℕ → ℕ
  jitter_fraction subsec = div (of_int (subsec % 1000000)) (of_int 1000000)

  unfoldable pub apply_jitter : ℕ → ℕ → ℕ → ℕ
  unfolding jitter_fraction
  apply_jitter subsec base jitter =
      let jitter' = clamp jitter float_zero float_one in
      if float_eq jitter' float_zero
      then base
      else let total = mul (of_int base) (add float_one (mul (jitter_fraction subsec) jitter')) in
        to_u64 (float_min total (of_int u64_max))

  unfoldable pub delay_for : ℕ → Backoff → ℕ → ℕ
  unfolding exponential_delay apply_jitter
  delay_for subsec (linear base step) retry_index =
      saturating_add base (saturating_mul step retry_index)
  delay_for subsec (exponential base factor max_delay) retry_index =
      exponential_delay base factor retry_index max_delay
  delay_for subsec (exponential_with_jitter base factor max_delay jitter) retry_index =
      apply_jitter subsec (exponential_delay base factor retry_index max_delay) jitter

  -- The cap of an exponential backoff holds whatever the factor is, also where the power
  -- overflows to infinity or is not a number.
  pub exponential_delay-le-max :
      (base factor retry_index max_delay : ℕ)
      → exponential_delay base factor retry_index max_delay ≤ max_delay
  unfolding exponential_delay
  exponential_delay-le-max base factor retry_index max_delay = ground arith

  -- A linear backoff starts at its base, never falls from one retry to the next, and stays a
  -- `Duration`.
  pub delay_for-linear_mono :
      (subsec base step i j : ℕ)
      → base ≤ duration_max
      → i ≤ j
      → (delay_for subsec (linear base step) 0 ≡ base)
        × (delay_for subsec (linear base step) i ≤ delay_for subsec (linear base step) j)
        × (delay_for subsec (linear base step) j ≤ duration_max)
  unfolding delay_for
  delay_for-linear_mono subsec base step i j b h = (omega arith, grind arith, omega arith)
