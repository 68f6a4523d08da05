-- ===== src/Managed/Buffers/Filled.antt =====
-- The buffers of `run_stream` of src/managed.rs: how many bytes they hold at most, and that they can.
use r2kit.Prelude.{
  ℕ, ◌+◌, ◌*◌, ◌/◌, ◌≤◌, ◌<◌, ◌≡◌, arith, List, [], ◌∷◌, ◌++◌, length, All, ok, ◌⊎◌, inl, inr, ◌-◌,
  div_bounds, length-append, max,
}
use r2kit.Managed.Builder.{validate_numbers}
use r2kit.Managed.Builder.Limits.{validate_numbers_iff}
use r2kit.Managed.Pipeline.{Job}
use r2kit.Managed.Pipeline.Bounded.{All-remove, sum-bound}
use r2kit.Managed.Buffers.{
  Buffers, unstarted, Move, Moves, channel_size, held_bytes, buffered_bytes,
}

record Within (concurrency places part_size : ℕ) (s : Buffers) : Type 0 where
  few_flying : length s.in_flight ≤ concurrency
  few_waiting : length s.channel ≤ places
  unread_small : All (λ j. j.1 ≤ part_size) s.unread
  held_small : held_bytes s.reading ≤ part_size
  waiting_small : All (λ j. j.1 ≤ part_size) s.channel
  flying_small : All (λ j. j.1 ≤ part_size) s.in_flight

All-snoc : (P : Job → Type 0) (xs : List Job) (y : Job) → All P xs → P y → All P (xs ++ y ∷ [])
All-snoc P [] y h k = (k, tt)
All-snoc P (x ∷ xs) y h k = (h.0, All-snoc P xs y h.1 k)

Move-Within : (c n p : ℕ) {s t : Buffers} → Move c n s t → Within c n p s → Within c n p t
Move-Within c n p (Move.read job jobs waiting flying) v = record {
  few_flying = v.few_flying;
  few_waiting = v.few_waiting;
  unread_small = v.unread_small.1;
  held_small = v.unread_small.0;
  waiting_small = v.waiting_small;
  flying_small = v.flying_small;
}
Move-Within c n p (Move.send job jobs waiting flying room) v = record {
  few_flying = v.few_flying;
  few_waiting = omega (arith, room, length-append waiting (job ∷ []));
  unread_small = v.unread_small;
  held_small = omega arith;
  waiting_small = All-snoc (λ j. j.1 ≤ p) waiting job v.waiting_small v.held_small;
  flying_small = v.flying_small;
}
Move-Within c n p (Move.receive job jobs held waiting flying room) v = record {
  few_flying = omega (arith, room);
  few_waiting = omega (arith, v.few_waiting);
  unread_small = v.unread_small;
  held_small = v.held_small;
  waiting_small = v.waiting_small.1;
  flying_small = (v.waiting_small.0, v.flying_small);
}
Move-Within c n p (Move.finish job jobs held waiting before after) v = record {
  few_flying =
      omega (arith, v.few_flying, length-append before (job ∷ after), length-append before after);
  few_waiting = v.few_waiting;
  unread_small = v.unread_small;
  held_small = v.held_small;
  waiting_small = v.waiting_small;
  flying_small = All-remove _ before job after v.flying_small;
}

Moves-Within : (c n p : ℕ) {s t : Buffers} → Moves c n s t → Within c n p s → Within c n p t
Moves-Within c n p (Moves.still s) v = v
Moves-Within c n p (Moves.then before last) v = Move-Within c n p last (Moves-Within c n p before v)

sized :
    (p c m q : ℕ)
    → p * c ≤ m
    → p * q ≤ m
    → m < p * q + p
    → (p * (c + max (q - c) 1) ≤ m + p) × (m < p * (c + max (q - c) 1) + p)
sized p c m q budget below above = elim (lt-or-ge c q) [
  | inl more ↦
      let same : c + max (q - c) 1 ≡ q = omega (arith, more) in rw same (omega arith, above)
  | inr less ↦
      let same : c + max (q - c) 1 ≡ c + 1 = omega (arith, less) in
      let product : p * (c + 1) ≡ p * c + p = grind arith in
      let fits : p * q ≤ p * c = grind (arith, less) in
      rw (same, product) (omega arith, omega arith)
]
  where
    lt-or-ge : (a b : ℕ) → (a < b) ⊎ (b ≤ a)
    lt-or-ge a b = ground arith

-- The channel, the uploads and one part more are more than the budget, which is exceeded by two parts
-- at most.
pub channel_size_bounds :
    (p c m : ℕ)
    → 0 < p
    → p * c ≤ m
    → (p * (c + channel_size m p c) ≤ m + p) × (m < p * (c + channel_size m p c) + p)
unfolding channel_size
channel_size_bounds p c m some_byte budget =
    let (below, above) = div_bounds m p some_byte in
    sized p c m (m / p) budget (grind (arith, below)) (grind (arith, above))

pub channel_size-pos : (p c m : ℕ) → 0 < channel_size m p c
unfolding channel_size
channel_size-pos p c m = omega arith

-- With settings that the builder's checks let through, and parts no longer than the part size, the
-- buffers in memory never hold more than `max_buffered_bytes` and two parts.
pub Moves-buffered :
    (p c a m : ℕ) (jobs : List Job) {s : Buffers}
    → validate_numbers p c a m ≡ ok tt
    → All (λ j. j.1 ≤ p) jobs
    → Moves c (channel_size m p c) (unstarted jobs) s
    → buffered_bytes s ≤ m + 2 * p
Moves-buffered p c a m jobs {s} valid small moves =
    let allowed = (validate_numbers_iff p c a m).0 valid in
    let v = Moves-Within c (channel_size m p c) p moves (record {
      few_flying = omega arith;
      few_waiting = omega arith;
      unread_small = small;
      held_small = omega arith;
      waiting_small = tt;
      flying_small = tt;
    }) in
    let bounds =
      channel_size_bounds p c m (omega (arith, allowed.part_large)) allowed.within_budget in
    let waiting = sum-bound p s.channel v.waiting_small in
    let flying = sum-bound p s.in_flight v.flying_small in
    let waiting_parts : p * length s.channel ≤ p * channel_size m p c =
      grind (arith, v.few_waiting) in
    let flying_parts : p * length s.in_flight ≤ p * c = grind (arith, v.few_flying) in
    let total : p * (c + channel_size m p c) ≡ p * c + p * channel_size m p c = grind arith in
    omega (arith, waiting, flying, waiting_parts, flying_parts, total, bounds.0, v.held_small)
