-- ===== src/Managed/Source/Reads.antt =====
-- The parts that `read_part` of src/managed.rs reads are those of the plan.
use r2kit.Prelude.{
  ℕ, ◌+◌, ◌-◌, ◌*◌, ◌≤◌, ◌<◌, ◌≡◌, refl, arith, true, some, List, Text, Result, ok, take, drop,
  length, map, min, traverse, flatten, range_from, u64_max, checked_mul_u64, suc, zero,
}
use r2kit.Error.{Error}
use r2kit.Multipart.Plan.{MultipartPlan}
use r2kit.Multipart.Plan.Bounds.{IsPlan, offset-lt}
use r2kit.Multipart.Plan.Tiling.{planned, slice_of, slices-concat, length_of}
use r2kit.Managed.Source.{Files, read_part}

-- The file at a path can be read in this state, and holds these bytes: `read_exact` at an offset gives
-- the bytes from there on, as many as are asked for.
pub record Holds {S : Type 0} (files : Files S) (path : Text) (bytes : List ℕ) (s : S)
    : Type 0 where
  pub opens : files.open_file path s ≡ true
  pub seeks : (offset : ℕ) → files.seek path offset s ≡ true
  pub reads :
      (offset count : ℕ)
      → offset + count ≤ length bytes
      → files.read_exact path offset count s ≡ some (take count (drop offset bytes))

-- The parts of a plan, read from the file in the order of their numbers.
abbrev pub read_parts :
    {S : Type 0} → Files S → Text → MultipartPlan → S → Result (List (List ℕ)) Error
read_parts files path plan s =
    traverse (λ n. read_part files path plan.part_size (record { number = n }) (length_of plan n) s)
      (planned plan)

read_part-slice :
    {S : Type 0} (files : Files S) (path : Text) (bytes : List ℕ) (s : S) (plan : MultipartPlan)
    (m : ℕ)
    → IsPlan plan
    → length bytes ≡ plan.file_size
    → Holds files path bytes s
    → m < plan.part_count
    → read_part files path plan.part_size (record { number = m + 1 }) (length_of plan (m + 1)) s
      ≡ ok (slice_of plan bytes (m + 1))
unfolding read_part
read_part-slice files path bytes s plan m v e holds lt =
    let begins = offset-lt plan m v lt in
    let shift : m + 1 - 1 ≡ m = omega arith in
    let no_overflow : checked_mul_u64 m plan.part_size ≡ some (m * plan.part_size) =
      fits m plan.part_size (omega (arith, v.object_capped, begins)) in
    let count = min (plan.file_size - m * plan.part_size) plan.part_size in
    rw (
      shift,
      holds.opens,
      no_overflow,
      holds.seeks,
      holds.reads (m * plan.part_size) count (omega (arith, begins, e)),
    )
  where
    fits : (a b : ℕ) → a * b < u64_max → checked_mul_u64 a b ≡ some (a * b)
    fits a b lt = ground arith

read_parts_from :
    {S : Type 0} (files : Files S) (path : Text) (bytes : List ℕ) (s : S) (plan : MultipartPlan)
    (m k : ℕ)
    → IsPlan plan
    → length bytes ≡ plan.file_size
    → Holds files path bytes s
    → m + k ≤ plan.part_count
    → traverse
        (λ n. read_part files path plan.part_size (record { number = n }) (length_of plan n) s)
        (range_from (m + 1) k)
      ≡ ok (map (slice_of plan bytes) (range_from (m + 1) k))
unfolding traverse
read_parts_from files path bytes s plan m zero v e holds le = refl
read_parts_from files path bytes s plan m (suc k) v e holds le = rw (
  read_part-slice files path bytes s plan m v e holds (omega arith),
  read_parts_from files path bytes s plan (m + 1) k v e holds (omega arith),
)

-- If the file can be read and has the planned size, then `read_part` gives every planned part, and the
-- parts, in the order of their numbers, are the bytes of the file.
pub read_parts-concat :
    {S : Type 0} (files : Files S) (path : Text) (bytes : List ℕ) (s : S) (plan : MultipartPlan)
    → IsPlan plan
    → length bytes ≡ plan.file_size
    → Holds files path bytes s
    → (parts : List (List ℕ)) × (read_parts files path plan s ≡ ok parts) × (flatten parts ≡ bytes)
read_parts-concat files path bytes s plan v e holds = (
  map (slice_of plan bytes) (planned plan),
  read_parts_from files path bytes s plan 0 plan.part_count v e holds (omega arith),
  slices-concat plan bytes v e,
)
