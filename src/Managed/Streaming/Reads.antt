-- ===== src/Managed/Streaming/Reads.antt =====
-- What the reader's task of `run_stream` of src/managed.rs sends.
use r2kit.Prelude.{
  ℕ, zero, suc, ◌+◌, ◌-◌, ◌*◌, ◌≤◌, ◌<◌, ◌≡◌, refl, arith, min, none, some, List, [], ◌∷◌, ◌++◌,
  length, map, flatten, take, drop, range_from, ok, err, ◌⊎◌, inl, inr, ◌==◌, false, length-drop,
}
use r2kit.Error.{io}
use r2kit.Multipart.Plan.{MultipartPlan, max_parts, part_number_try_from}
use r2kit.Multipart.Plan.Bounds.{IsPlan}
use r2kit.Multipart.Plan.Tiling.{planned}
use r2kit.Managed.Streaming.{Reader, Chunk, Sent, read_chunks}

-- A reader that gives the bytes that it holds, in order, and fails only at their end.
pub record Supplies {R : Type 0} (reader : Reader R) (content : R → List ℕ) : Type 0 where
  pub reads :
      (count : ℕ) (r : R)
      → count ≤ length (content r)
      → (rest : R) × (reader.read_exact count r ≡ some (take count (content r), rest))
        × (content rest ≡ drop count (content r))
  pub ends : (count : ℕ) (r : R) → length (content r) < count → reader.read_exact count r ≡ none

abbrev pub chunk_numbers : List Chunk → List ℕ
chunk_numbers = map (λ c. c.0.number)

abbrev pub chunk_bytes : List Chunk → List ℕ
chunk_bytes chunks = flatten (map (λ c. c.1) chunks)

-- The task has sent all parts, or the reader ended too early.
abbrev pub IsSent : ℕ → List ℕ → List ℕ → Sent → Type 0
IsSent size numbers bytes (chunks, result) =
    ((size ≤ length bytes)
      × (result ≡ ok tt)
      × (chunk_numbers chunks ≡ numbers)
      × (chunk_bytes chunks ≡ take size bytes))
    ⊎ ((length bytes < size) × (result ≡ err (io "read_exact")))

part_number_ok :
    (n : ℕ) → 0 < n → n ≤ max_parts → part_number_try_from n ≡ ok (record { number = n })
unfolding part_number_try_from
part_number_ok n pos le = ground arith

take-nil : (m n : ℕ) → take n (drop (suc m) []) ≡ take {A = ℕ} (suc (m + n)) []
take-nil m zero = refl
take-nil m (suc n) = refl

take-split : (m n : ℕ) (xs : List ℕ) → take m xs ++ take n (drop m xs) ≡ take (m + n) xs
take-split zero n xs = let e : zero + n ≡ n = omega arith in rw e
take-split (suc m) n [] = let e : suc m + n ≡ suc (m + n) = omega arith in rw e (take-nil m n)
take-split (suc m) n (x ∷ xs) =
    let e : suc m + n ≡ suc (m + n) = omega arith in rw (e, take-split m n xs)

module _ {R : Type 0} (reader : Reader R) (content : R → List ℕ) where
  done : (p fuel n : ℕ) (r : R) → read_chunks reader p (suc fuel) 0 n r ≡ some ([], ok tt)
  unfolding read_chunks
  done p fuel n r = refl

  cut_off :
      (p fuel remaining n : ℕ) (r : R)
      → 0 < remaining
      → reader.read_exact (min remaining p) r ≡ none
      → read_chunks reader p (suc fuel) remaining n r ≡ some ([], err (io "read_exact"))
  unfolding read_chunks
  cut_off p fuel remaining n r more ended =
      let nonzero : (remaining == 0) ≡ false = ground arith in rw (nonzero, ended, read_chunks)

  pass :
      (p fuel remaining n : ℕ) (r rest : R) (bytes : List ℕ) {sent : Sent}
      → 0 < remaining
      → 0 < n
      → n ≤ max_parts
      → reader.read_exact (min remaining p) r ≡ some (bytes, rest)
      → read_chunks reader p fuel (remaining - min remaining p) (n + 1) rest ≡ some sent
      → read_chunks reader p (suc fuel) remaining n r
        ≡ some ((record { number = n }, bytes) ∷ sent.0, sent.1)
  unfolding read_chunks
  pass p fuel remaining n r rest bytes more pos le read next =
      let nonzero : (remaining == 0) ≡ false = ground arith in
      rw (nonzero, read, part_number_ok n pos le, next, read_chunks)

  -- A part before the parts that follow.
  prepend :
      (n k p remaining : ℕ) (b : List ℕ) (sent : Sent)
      → min remaining p ≤ length b
      → IsSent (remaining - min remaining p) (range_from (n + 1) k) (drop (min remaining p) b) sent
      → IsSent remaining
          (range_from n (suc k))
          b
          ((record { number = n }, take (min remaining p) b) ∷ sent.0, sent.1)
  unfolding flatten
  prepend n k p remaining b sent full (inl (enough, result, numbers, bytes)) =
      let whole : min remaining p + (remaining - min remaining p) ≡ remaining = omega arith in
      inl (
        omega (arith, full, enough, length-drop (min remaining p) b),
        result,
        rw numbers,
        rw (bytes, take-split (min remaining p) (remaining - min remaining p) b, whole),
      )
  prepend n k p remaining b sent full (inr (short, result)) =
      inr (omega (arith, full, short, length-drop (min remaining p) b), result)

  read_from :
      (p k remaining n : ℕ) (r : R)
      → Supplies reader content
      → remaining ≤ k * p
      → k * p < remaining + p
      → 0 < n
      → n + k ≤ max_parts + 1
      → (sent : Sent) × (read_chunks reader p (suc k) remaining n r ≡ some sent)
        × IsSent remaining (range_from n k) (content r) sent
  unfolding flatten
  read_from p zero remaining n r supplies covers tight pos capped =
      let nothing : remaining ≡ 0 = omega arith in
      rw nothing (([], ok tt), done p 0 n r, inl (omega arith, refl, refl, refl))
  read_from p (suc k) remaining n r supplies covers tight pos capped =
      let product : suc k * p ≡ p + k * p = grind arith in
      let more : 0 < remaining = omega (arith, tight, product) in
      elim (le-or-lt (min remaining p) (length (content r))) [
        | inr short ↦ (
          ([], err (io "read_exact")),
          cut_off p (suc k) remaining n r more (supplies.ends (min remaining p) r short),
          inr (omega (arith, short), refl),
        )
        | inl full ↦
            let (rest, read, held) = supplies.reads (min remaining p) r full in
            let (sent, next, is_sent) =
              read_from p k (remaining - min remaining p) (n + 1) rest supplies
                (omega (arith, covers, product)) (omega (arith, tight, product)) (omega arith)
                (omega arith) in
            (
              _,
              pass p (suc k) remaining n r rest _ more pos (omega arith) read next,
              prepend n k p remaining (content r) sent full (rw held at is_sent),
            )
      ]
    where
      le-or-lt : (a b : ℕ) → (a ≤ b) ⊎ (b < a)
      le-or-lt a b = ground arith

  -- If the reader gives the bytes that it holds, then the reader's task of an upload ends within a pass
  -- for each planned part and one more. Either the reader holds at least as many bytes as the object
  -- has: then the task has sent the planned parts, in the order of their numbers, which together are
  -- that many bytes of the reader; or it holds fewer, and the task ends with an error.
  pub read_chunks_lem :
      (plan : MultipartPlan) (r : R)
      → IsPlan plan
      → Supplies reader content
      → (sent : Sent) × (read_chunks reader plan.part_size (plan.part_count + 1) plan.file_size 1 r
          ≡ some sent)
        × IsSent plan.file_size (planned plan) (content r) sent
  read_chunks_lem plan r v supplies =
      let same : plan.part_count + 1 ≡ suc plan.part_count = omega arith in
      rw same (
        read_from plan.part_size plan.part_count plan.file_size 1 r supplies v.covers v.tight
          (omega arith) (omega (arith, v.parts_capped)))
