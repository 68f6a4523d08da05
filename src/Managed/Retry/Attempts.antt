-- ===== src/Managed/Retry/Attempts.antt =====
-- The retry loop of src/managed.rs: how often it calls the operation, and when it gives up.
use r2kit.Prelude.{
  ℕ, zero, suc, ◌+◌, ◌-◌, ◌%◌, ◌≤◌, ◌<◌, ◌≡◌, ◌⊎◌, inl, inr, refl, arith, Bool, true, false, ◌&&◌,
  Option, some, [], ◌∷◌, Result, ok, err, length, All, ltb, Duration, Bool-cases,
}
use r2kit.Sdk.{reply-cases}
use r2kit.Managed.Retry.{
  RetryRun, retry_from, retry_with_policy, retry_delay, max_retry_delay, before,
}
use r2kit.Managed.Retry.Delays.{retry_delay_bounds}

module _ {S T E : Type 0} (operation : S → Result T E × S) (classify : E → Bool) where
  -- The operation is called `calls` times from a state; all replies but the last are errors that may
  -- be retried; the last reply and the state after it are the run's.
  pub data Retries (outcome : Result T E) (u : S) : S → ℕ → Type 0 where
    last : {s : S} {calls : ℕ} → calls ≡ 1 → operation s ≡ (outcome, u) → Retries outcome u s calls
    again :
        {s t : S} {calls rest : ℕ} (e : E)
        → operation s ≡ (err e, t)
        → classify e ≡ true
        → calls ≡ rest + 1
        → Retries outcome u t rest
        → Retries outcome u s calls

  -- Why the loop may stop when it has called the operation `calls` times in all.
  abbrev pub Stops : ℕ → ℕ → Result T E → Type 0
  Stops limit calls (ok value) = Unit
  Stops limit calls (err e) = (classify e ≡ false) ⊎ (calls ≡ limit)

before-some :
    {S T E : Type 0} (delay : Duration) (run : RetryRun S T E)
    → before delay (some run)
      ≡ some (record run { calls = run.calls + 1; delays = delay ∷ run.delays })
unfolding before
before-some delay run = refl

module _ {S T E : Type 0} (operation : S → Result T E × S) (classify : E → Bool)
    (retry_after : E → Option Duration) (random : ℕ → ℕ) (max_attempts : ℕ) where
  -- What holds of the run that begins with the attempt `attempt`.
  pub record IsRun (attempt : ℕ) (s : S) (run : RetryRun S T E) : Type 0 where
    pub replies : Retries operation classify run.outcome run.state s run.calls
    pub within : attempt + run.calls ≤ max_attempts + 1
    pub stops : Stops operation classify max_attempts (attempt - 1 + run.calls) run.outcome
    pub slept : length run.delays + 1 ≡ run.calls
    pub short : All (λ d. d ≤ max_retry_delay) run.delays

  retry_from-again :
      (fuel attempt : ℕ) {s t : S} (error : E) (run : RetryRun S T E)
      → operation s ≡ (err error, t)
      → (ltb attempt max_attempts && classify error) ≡ true
      → (attempt + 1) % 256 ≡ attempt + 1
      → retry_from operation classify retry_after random max_attempts fuel (attempt + 1) t
        ≡ some run
      → retry_from operation classify retry_after random max_attempts (suc fuel) attempt s
        ≡ some (record run {
          calls = run.calls + 1;
          delays = retry_delay attempt (retry_after error) (random attempt) ∷ run.delays;
        })
  unfolding retry_from
  retry_from-again fuel attempt error run e goes_on next ran =
      rw (retry_from, e, goes_on, e, next, ran, before-some)

  retry_from_lem :
      (fuel attempt : ℕ) (s : S)
      → 0 < attempt
      → attempt ≤ max_attempts
      → max_attempts < attempt + fuel
      → max_attempts < 256
      → (run : RetryRun S T E) × (retry_from operation classify retry_after random max_attempts fuel
            attempt s
          ≡ some run)
        × IsRun attempt s run
  unfolding retry_from
  retry_from_lem zero attempt s pos le enough small = absurd (omega arith)
  retry_from_lem (suc fuel) attempt s pos le enough small = elim (reply-cases (operation s)) [
    | inl (value, t, e) ↦
        let run : RetryRun S T E = record {
          outcome = ok value;
          state = t;
          calls = 1;
          delays = [];
        } in
        (
          run,
          rw (retry_from, e, e),
          record {
            replies = last refl e;
            within = omega arith;
            stops = tt;
            slept = refl;
            short = tt;
          },
        )
    | inr (error, t, e) ↦ elim (Bool-cases (ltb attempt max_attempts && classify error)) [
      | inr gives_up ↦
          let run : RetryRun S T E = record {
            outcome = err error;
            state = t;
            calls = 1;
            delays = [];
          } in
          (
            run,
            rw (retry_from, e, gives_up, e),
            record {
              replies = last refl e;
              within = omega arith;
              stops = gives_up_why attempt (classify error) gives_up le pos;
              slept = refl;
              short = tt;
            },
          )
      | inl goes_on ↦
          let facts = goes_on_why attempt (classify error) goes_on in
          let next : (attempt + 1) % 256 ≡ attempt + 1 = omega (arith, facts) in
          let (run, ran, good) =
            retry_from_lem fuel (attempt + 1) t (omega arith) (omega (arith, facts)) (omega arith)
              small in
          let delay = retry_delay attempt (retry_after error) (random attempt) in
          let run' : RetryRun S T E = record run {
            calls = run.calls + 1;
            delays = delay ∷ run.delays;
          } in
          (
            run',
            retry_from-again fuel attempt error run e goes_on next ran,
            record {
              replies = again error e facts.1 refl good.replies;
              within = omega (arith, good.within);
              stops = later attempt run.calls run.outcome pos good.stops;
              slept = omega (arith, good.slept);
              short =
                  ((retry_delay_bounds attempt (retry_after error) (random attempt)).0, good.short);
            },
          )
    ]
  ]
    where
      gives_up_why :
          (a : ℕ) (c : Bool)
          → (ltb a max_attempts && c) ≡ false
          → a ≤ max_attempts
          → 0 < a
          → (c ≡ false) ⊎ (a - 1 + 1 ≡ max_attempts)
      gives_up_why a c h le pos = ground arith

      goes_on_why :
          (a : ℕ) (c : Bool) → (ltb a max_attempts && c) ≡ true → (a < max_attempts) × (c ≡ true)
      goes_on_why a c h = ground arith

      later :
          (a n : ℕ) (o : Result T E)
          → 0 < a
          → Stops operation classify max_attempts (a + 1 - 1 + n) o
          → Stops operation classify max_attempts (a - 1 + (n + 1)) o
      later a n (ok v) pos h = tt
      later a n (err x) pos h = ground arith

  -- With a limit from 1 to 255 `retry_with_policy` ends. It calls the operation at most
  -- `max_attempts` times, one call after the other; every reply but the last is an error that may be
  -- retried; an error is returned only if it may not be retried or all `max_attempts` calls are made;
  -- between two calls it sleeps once, for at most 30 seconds.
  pub retry_with_policy-ends :
      1 ≤ max_attempts
      → max_attempts < 256
      → (s : S)
      → (run : RetryRun S T E) × (retry_with_policy operation classify retry_after random
            max_attempts s
          ≡ some run)
        × IsRun 1 s run
  unfolding retry_with_policy
  retry_with_policy-ends pos small s =
      retry_from_lem (max_attempts + 1) 1 s (omega arith) pos (omega arith) small
