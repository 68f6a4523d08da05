-- ===== src/Managed/Retry.antt =====
-- src/managed.rs: retrying the upload of one part. Time is in nanoseconds; the random numbers come
-- from outside, one for each attempt; the log event of a retry is not modelled.
pub mod Delays
pub mod Attempts
use r2kit.Prelude.{
  ℕ, zero, suc, ◌+◌, ◌-◌, ◌*◌, ◌%◌, ◌^◌, min, max, u64_max, Bool, true, false, ◌&&◌, ◌||◌, Option,
  none, some, List, [], ◌∷◌, Text, Result, ok, err, ltb, leb, ◌==◌, if◌then◌else◌, Duration,
  from_secs, from_millis, as_millis, mul_u64, is_some_and,
}
use r2kit.Error.{
  SdkError, SdkVariant, RawResponse, construction_failure, timeout_error, dispatch_failure,
  response_error, service_error, other_error,
}

abbrev pub max_retry_delay : Duration
max_retry_delay = from_secs 30

unfoldable pub retry_ceiling : ℕ → Duration
retry_ceiling attempt =
    let exponent = min (attempt - 1) 7 in
    min (from_millis (mul_u64 250 (2 ^ exponent))) max_retry_delay

abbrev pub or_zero : Option Duration → Duration
or_zero none = 0
or_zero (some d) = d

unfoldable pub retry_delay : ℕ → Option Duration → ℕ → Duration
retry_delay attempt retry_after random =
    let ceiling_millis = as_millis (retry_ceiling attempt) in
    let jitter = from_millis (random % (ceiling_millis + 1)) in
    max jitter (min (or_zero retry_after) max_retry_delay)

unfoldable pub is_retryable_status : ℕ → Bool
is_retryable_status status = status == 408 || status == 429 || leb 500 status && leb status 599

unfoldable pub is_retryable_variant : SdkVariant → SdkError → Bool
unfolding is_retryable_status
is_retryable_variant construction_failure e = false
is_retryable_variant timeout_error e = true
is_retryable_variant dispatch_failure e = true
is_retryable_variant response_error e = true
is_retryable_variant service_error e =
    is_some_and e.raw_response (λ r. is_retryable_status r.status)
is_retryable_variant other_error e = false

-- `is_retryable`
unfoldable pub is_retryable : SdkError → Bool
unfolding is_retryable_variant
is_retryable e = is_retryable_variant e.variant e

-- `str::parse::<u64>`: an optional plus sign, then digits; nothing if the number is too large.
unfoldable pub parse_digits : ℕ → Text → Option ℕ
parse_digits acc [] = some acc
parse_digits acc (c ∷ cs) =
    let rest = parse_digits (acc * 10 + (c - b'0')) cs in
    if leb b'0' c && leb c b'9' && leb (acc * 10 + (c - b'0')) u64_max then rest else none

unfoldable pub parse_u64 : Text → Option ℕ
unfolding parse_digits
parse_u64 [] = none
parse_u64 (c ∷ []) = if c == b'+' then none else parse_digits 0 (c ∷ [])
parse_u64 (c ∷ d ∷ ds) = if c == b'+' then parse_digits 0 (d ∷ ds) else parse_digits 0 (c ∷ d ∷ ds)

abbrev parsed : Option Text → Option ℕ
parsed none = none
parsed (some t) = parse_u64 t

unfoldable pub parse_retry_after : Option Text → Option Text → Option Duration
parse_retry_after retry_after aws_retry_after = elim (parsed retry_after) [
  | some secs ↦ some (from_secs secs)
  | none ↦ elim (parsed aws_retry_after) [ some ms ↦ some (from_millis ms) | none ↦ none ]
]

-- `sdk_retry_after`
unfoldable pub sdk_retry_after : SdkError → Option Duration
unfolding parse_retry_after
sdk_retry_after e = elim e.raw_response [
  | none ↦ none
  | some r ↦ parse_retry_after r.retry_after r.amz_retry_after
]

-- What a run of the retry loop leaves: its result, the state, the number of calls of the operation,
-- and the delays slept.
pub record RetryRun (S T E : Type 0) : Type 0 where
  pub outcome : Result T E
  pub state : S
  pub calls : ℕ
  pub delays : List Duration

unfoldable pub before :
    {S T E : Type 0} → Duration → Option (RetryRun S T E) → Option (RetryRun S T E)
before delay none = none
before delay (some run) = some (record run { calls = run.calls + 1; delays = delay ∷ run.delays })

module _ {S T E : Type 0} (operation : S → Result T E × S) (classify : E → Bool)
    (retry_after : E → Option Duration) (random : ℕ → ℕ) (max_attempts : ℕ) where
  -- `retry_with_policy` from the attempt `attempt` on; `none` means that the fuel ran out.
  unfoldable pub retry_from : ℕ → ℕ → S → Option (RetryRun S T E)
  retry_from zero attempt s = none
  retry_from (suc fuel) attempt s =
      let (reply, s') = operation s in
      elim reply [
        | ok value ↦ some (record { outcome = ok value; state = s'; calls = 1; delays = [] })
        | err error ↦ elim (ltb attempt max_attempts && classify error) [
          | true ↦
              before (retry_delay attempt (retry_after error) (random attempt))
                (retry_from fuel ((attempt + 1) % 256) s')
          | false ↦ some (record { outcome = err error; state = s'; calls = 1; delays = [] })
        ]
      ]

  -- `retry_with_policy`
  unfoldable pub retry_with_policy : S → Option (RetryRun S T E)
  unfolding retry_from
  retry_with_policy s = retry_from (max_attempts + 1) 1 s
