-- ===== src/Managed/Pipeline/Bounded.antt =====
-- The stream of part uploads of src/managed.rs: what is in memory at any time.
use r2kit.Prelude.{
  ℕ, ◌+◌, ◌*◌, ◌≤◌, ◌≡◌, arith, List, [], ◌∷◌, ◌++◌, length, sum_by, All, ok, length-append,
}
use r2kit.Managed.Builder.{validate_numbers}
use r2kit.Managed.Builder.Limits.{validate_numbers_iff}
use r2kit.Managed.Pipeline.{Job, Pipeline, Step, Steps, initial}

-- The bytes of the part buffers in flight.
abbrev pub buffered : Pipeline → ℕ
buffered s = sum_by (λ j. j.1) s.in_flight

record Within (concurrency part_size : ℕ) (s : Pipeline) : Type 0 where
  few : length s.in_flight ≤ concurrency
  queued_small : All (λ j. j.1 ≤ part_size) s.queued
  flying_small : All (λ j. j.1 ≤ part_size) s.in_flight

pub All-remove :
    (P : Job → Type 0) (xs : List Job) (y : Job) (ys : List Job)
    → All P (xs ++ y ∷ ys)
    → All P (xs ++ ys)
All-remove P [] y ys h = h.1
All-remove P (x ∷ xs) y ys h = (h.0, All-remove P xs y ys h.1)

Step-Within : (c p : ℕ) {s t : Pipeline} → Step c s t → Within c p s → Within c p t
Step-Within c p (Step.start job jobs flying room) v = record {
  few = omega (arith, room);
  queued_small = v.queued_small.1;
  flying_small = (v.queued_small.0, v.flying_small);
}
Step-Within c p (Step.finish job jobs before after) v = record {
  few = omega (arith, v.few, length-append before (job ∷ after), length-append before after);
  queued_small = v.queued_small;
  flying_small = All-remove _ before job after v.flying_small;
}
Step-Within c p (Step.fail job jobs before after) v = record {
  few = omega arith;
  queued_small = tt;
  flying_small = tt;
}

Steps-Within : (c p : ℕ) {s t : Pipeline} → Steps c s t → Within c p s → Within c p t
Steps-Within c p (Steps.none s) v = v
Steps-Within c p (Steps.then before last) v = Step-Within c p last (Steps-Within c p before v)

pub sum-bound :
    (p : ℕ) (js : List Job) → All (λ j. j.1 ≤ p) js → sum_by (λ j. j.1) js ≤ p * length js
sum-bound p [] h = omega arith
sum-bound p (j ∷ js) h =
    let next : p * length (j ∷ js) ≡ p + p * length js = grind arith in
    omega (arith, next, h.0, sum-bound p js h.1)

-- With settings that the builder's checks let through, and parts no longer than the part size, the
-- buffers in flight never hold more than `max_buffered_bytes` bytes.
pub Steps-buffered :
    (p c a m : ℕ) (jobs : List Job) {s : Pipeline}
    → validate_numbers p c a m ≡ ok tt
    → All (λ j. j.1 ≤ p) jobs
    → Steps c (initial jobs) s
    → buffered s ≤ m
Steps-buffered p c a m jobs {s} valid small steps =
    let allowed = (validate_numbers_iff p c a m).0 valid in
    let v =
      Steps-Within c p steps
        (record { few = omega arith; queued_small = small; flying_small = tt }) in
    let bound = sum-bound p s.in_flight v.flying_small in
    let product : p * length s.in_flight ≤ p * c = grind (arith, v.few) in
    omega (arith, bound, product, allowed.within_budget)
