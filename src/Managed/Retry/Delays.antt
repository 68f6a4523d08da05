-- ===== src/Managed/Retry/Delays.antt =====
-- The delays of src/managed.rs between two attempts.
use native.Mathlib.Nat.{mod-lt}
use r2kit.Prelude.{
  ◌%◌, ◌↔◌, ℕ, zero, suc, ◌+◌, ◌-◌, ◌*◌, ◌^◌, ◌≤◌, ◌<◌, ◌≡◌, ◌⊎◌, refl, arith, min, true, Option,
  none, some, Duration, from_millis, as_millis,
}
use r2kit.Error.{timeout, unavailable, rate_limited, from_status}
use r2kit.Managed.Retry.{max_retry_delay, retry_ceiling, retry_delay, or_zero, is_retryable_status}

-- The ceiling doubles from 250 milliseconds with each attempt, up to 30 seconds.
ceiling_table : (a : ℕ) → a < 7 → retry_ceiling (a + 1) ≡ from_millis (250 * 2 ^ a)
unfolding retry_ceiling
ceiling_table zero h = refl
ceiling_table (suc zero) h = refl
ceiling_table (suc (suc zero)) h = refl
ceiling_table (suc (suc (suc zero))) h = refl
ceiling_table (suc (suc (suc (suc zero)))) h = refl
ceiling_table (suc (suc (suc (suc (suc zero))))) h = refl
ceiling_table (suc (suc (suc (suc (suc (suc zero)))))) h = refl
ceiling_table (suc (suc (suc (suc (suc (suc (suc a))))))) h = absurd (omega arith)

ceiling_last : (a : ℕ) → 7 ≤ a → retry_ceiling (a + 1) ≡ max_retry_delay
unfolding retry_ceiling
ceiling_last a h = let e : min (a + 1 - 1) 7 ≡ 7 = omega arith in rw e

-- The ceiling of the delay after attempt `a + 1` is 250 milliseconds doubled `a` times, for the first
-- seven attempts, and 30 seconds from the eighth on.
pub retry_ceiling_cases :
    (a : ℕ)
    → ((a < 7) × (retry_ceiling (a + 1) ≡ from_millis (250 * 2 ^ a)))
      ⊎ ((7 ≤ a) × (retry_ceiling (a + 1) ≡ max_retry_delay))
retry_ceiling_cases a = ground (arith, ceiling_table a, ceiling_last a)

retry_ceiling-le : (a : ℕ) → retry_ceiling a ≤ max_retry_delay
unfolding retry_ceiling
retry_ceiling-le a = omega arith

jitter-le : (c r : ℕ) → from_millis (r % (as_millis c + 1)) ≤ c
jitter-le c r =
    let below : r % (as_millis c + 1) < as_millis c + 1 = mod-lt r (omega arith) in omega arith

-- Every delay is at most 30 seconds; it is at least what the server asked for, up to 30 seconds; and
-- without such a wish it is at most the ceiling of the attempt.
pub retry_delay_bounds :
    (attempt : ℕ) (wish : Option Duration) (random : ℕ)
    → (retry_delay attempt wish random ≤ max_retry_delay)
      × (min (or_zero wish) max_retry_delay ≤ retry_delay attempt wish random)
      × (wish ≡ none → retry_delay attempt wish random ≤ retry_ceiling attempt)
unfolding retry_delay
retry_delay_bounds attempt none random =
    let jitter = jitter-le (retry_ceiling attempt) random in
    let cap = retry_ceiling-le attempt in (omega arith, omega arith, λ _. omega arith)
retry_delay_bounds attempt (some d) random =
    let jitter = jitter-le (retry_ceiling attempt) random in
    let cap = retry_ceiling-le attempt in (omega arith, omega arith, λ e. cc)

-- A request that failed with a plain status, and no error code, is sent again exactly if its error
-- is one of the kinds that the error guide names as transient for a status.
pub is_retryable_status-kind :
    (status : ℕ)
    → (is_retryable_status status ≡ true) ↔ (
        (from_status status ≡ timeout)
        ⊎ (from_status status ≡ rate_limited)
        ⊎ (from_status status ≡ unavailable))
unfolding is_retryable_status from_status
is_retryable_status-kind status = ground arith
