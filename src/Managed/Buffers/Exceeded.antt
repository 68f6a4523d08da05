-- ===== src/Managed/Buffers/Exceeded.antt =====
-- The buffers of `run_stream` of src/managed.rs can hold more bytes than the budget allows.
use r2kit.Prelude.{
  ℕ, zero, suc, ◌+◌, ◌*◌, ◌≤◌, ◌<◌, ◌≡◌, arith, none, List, [], ◌∷◌, ◌++◌, length, sum_by, All, ok,
  length-append,
}
use r2kit.Managed.Builder.{validate_numbers}
use r2kit.Managed.Builder.Limits.{validate_numbers_iff}
use r2kit.Managed.Pipeline.{Job}
use r2kit.Managed.Buffers.{Buffers, unstarted, Move, Moves, channel_size, buffered_bytes}
use r2kit.Managed.Buffers.Filled.{channel_size_bounds, channel_size-pos}

append : {c n : ℕ} {s t u : Buffers} → Moves c n s t → Moves c n t u → Moves c n s u
append first (Moves.still t) = first
append first (Moves.then second last) = Moves.then (append first second) last

-- Nothing is with the reader.
abbrev between : List Job → List Job → List Job → Buffers
between jobs waiting flying = record {
  unread = jobs;
  reading = none;
  channel = waiting;
  in_flight = flying;
}

abbrev bytes : List Job → ℕ
bytes = sum_by (λ j. j.1)

abbrev Full : ℕ → List Job → Type 0
Full p jobs = All (λ j. j.1 ≡ p) jobs

-- `k` parts go through the channel into the air.
fly :
    (c n p k : ℕ) (jobs more flying : List Job)
    → 0 < n
    → Full p jobs
    → k ≤ length jobs
    → k + length flying ≤ c
    → (rest up : List Job) × Moves c n
        (between (jobs ++ more) [] flying)
        (between (rest ++ more) [] up)
      × Full p rest
      × (length rest + k ≡ length jobs)
      × (length up ≡ k + length flying)
      × (bytes up ≡ p * k + bytes flying)
fly c n p zero jobs more flying some_place full enough room =
    (jobs, flying, Moves.still _, full, omega arith, omega arith, omega arith)
fly c n p (suc k) [] more flying some_place full enough room = absurd (omega arith)
fly c n p (suc k) (job ∷ jobs) more flying some_place full enough room =
    let (rest, up, moves, kept, left, many, sum) =
      fly c n p k jobs more (job ∷ flying) some_place full.1 (omega arith) (omega arith) in
    let first : Moves c n (between (job ∷ jobs ++ more) [] flying)
        (between (jobs ++ more) [] (job ∷ flying)) =
      Moves.then
        (Moves.then (Moves.then (Moves.still _) (Move.read job (jobs ++ more) [] flying))
          (Move.send job (jobs ++ more) [] flying some_place))
        (Move.receive job (jobs ++ more) none [] flying (omega arith)) in
    let product : p * suc k ≡ p + p * k = grind arith in
    (
      rest,
      up,
      append first moves,
      kept,
      omega (arith, left),
      omega (arith, many),
      omega (arith, sum, product, full.0),
    )

-- `k` parts go into the channel and stay there.
queue :
    (c n p k : ℕ) (jobs more waiting flying : List Job)
    → Full p jobs
    → k ≤ length jobs
    → k + length waiting ≤ n
    → (rest held : List Job) × Moves c n
        (between (jobs ++ more) waiting flying)
        (between (rest ++ more) held flying)
      × Full p rest
      × (length rest + k ≡ length jobs)
      × (bytes held ≡ p * k + bytes waiting)
queue c n p zero jobs more waiting flying full enough room =
    (jobs, waiting, Moves.still _, full, omega arith, omega arith)
queue c n p (suc k) [] more waiting flying full enough room = absurd (omega arith)
queue c n p (suc k) (job ∷ jobs) more waiting flying full enough room =
    let (rest, held, moves, kept, left, sum) =
      queue c n p k jobs more (waiting ++ job ∷ []) flying full.1 (omega arith)
        (omega (arith, length-append waiting (job ∷ []))) in
    let first : Moves c n (between (job ∷ jobs ++ more) waiting flying)
        (between (jobs ++ more) (waiting ++ job ∷ []) flying) =
      Moves.then (Moves.then (Moves.still _) (Move.read job (jobs ++ more) waiting flying))
        (Move.send job (jobs ++ more) waiting flying (omega arith)) in
    let product : p * suc k ≡ p + p * k = grind arith in
    (
      rest,
      held,
      append first moves,
      kept,
      omega (arith, left),
      omega (arith, sum, product, full.0, bytes-snoc waiting job),
    )
  where
    bytes-snoc : (js : List Job) (j : Job) → bytes (js ++ j ∷ []) ≡ bytes js + j.1
    bytes-snoc [] j = omega arith
    bytes-snoc (i ∷ js) j = omega (arith, bytes-snoc js j)

-- The reader takes one part more.
hold :
    (c n p : ℕ) (jobs more waiting flying : List Job)
    → Full p jobs
    → 0 < length jobs
    → (s : Buffers) × Moves c n (between (jobs ++ more) waiting flying) s
      × (buffered_bytes s ≡ p + bytes waiting + bytes flying)
hold c n p [] more waiting flying full some_job = absurd (omega arith)
hold c n p (job ∷ jobs) more waiting flying full some_job = (
  _,
  Moves.then (Moves.still _) (Move.read job (jobs ++ more) waiting flying),
  omega (arith, full.0),
)

-- With settings that the builder's checks let through, a stream that begins with enough full parts to
-- fill the uploads, the channel and the reader's buffer can come into a state in which the buffers in
-- memory hold more than `max_buffered_bytes`.
pub Moves-exceed :
    (p c a m : ℕ) (jobs more : List Job)
    → validate_numbers p c a m ≡ ok tt
    → All (λ j. j.1 ≡ p) jobs
    → c + channel_size m p c < length jobs
    → (s : Buffers) × Moves c (channel_size m p c) (unstarted (jobs ++ more)) s
      × (m < buffered_bytes s)
Moves-exceed p c a m jobs more valid full enough =
    let allowed = (validate_numbers_iff p c a m).0 valid in
    let bounds =
      channel_size_bounds p c m (omega (arith, allowed.part_large)) allowed.within_budget in
    let places = channel_size m p c in
    let (left, up, flown, full_left, count, _, sum_up) =
      fly c places p c jobs more [] (channel_size-pos p c m) full (omega arith) (omega arith) in
    let (last, held, queued, full_last, count_last, sum_held) =
      queue c places p places left more [] up full_left (omega (arith, count)) (omega arith) in
    let (s, read, sum) =
      hold c places p last more held up full_last (omega (arith, count, count_last)) in
    let total : p * (c + places) ≡ p * c + p * places = grind arith in
    (s, append (append flown queued) read, omega (arith, sum, sum_up, sum_held, total, bounds.1))
