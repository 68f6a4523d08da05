-- ===== src/Multipart/Plan.antt =====
-- src/multipart.rs: part numbers and the plan that splits an object into parts.
pub mod Bounds
pub mod Tiling
use r2kit.Prelude.{
  ℕ, ◌+◌, ◌-◌, ◌%◌, min, Bool, Text, ltb, ◌==◌, Result, ok, err, ◌>>=◌, ◌>>◌, reject, div_ceil,
  u16_mod, mul_u64, sub_u64,
}
use r2kit.Error.{
  Error, invalid_input, validation, part_number_out_of_range, multipart_file_size_zero,
  multipart_object_too_large, too_many_parts,
}
use r2kit.Types.{max_multipart_object_size, validate_part_size}

abbrev pub max_parts : ℕ
max_parts = 10_000

-- A part number: a non-zero u16 of at most `max_parts`.
pub record PartNumber : Type 0 where
  pub number : ℕ

-- `TryFrom<u16> for PartNumber`
unfoldable pub part_number_try_from : ℕ → Result PartNumber Error
part_number_try_from value = do
  reject (value == 0) (validation (part_number_out_of_range value 1 max_parts))
  reject (ltb max_parts value) (validation (part_number_out_of_range value 1 max_parts))
  ok (record { number = value })

pub record MultipartPlan : Type 0 where
  pub file_size : ℕ
  pub part_size : ℕ
  pub part_count : ℕ

-- `MultipartPlan::new`
unfoldable pub new_plan : ℕ → ℕ → Result MultipartPlan Error
new_plan file_size part_size = do
  reject (file_size == 0) (validation multipart_file_size_zero)
  reject (ltb max_multipart_object_size file_size)
      (validation (multipart_object_too_large file_size max_multipart_object_size))
  validate_part_size part_size
  let part_count = div_ceil file_size part_size
  reject (ltb max_parts part_count) (validation (too_many_parts part_count max_parts))
  ok (record { file_size = file_size; part_size = part_size; part_count = part_count % u16_mod })

-- `MultipartPlan::part_length`, in u64 arithmetic.
unfoldable pub part_length : MultipartPlan → PartNumber → Result ℕ Error
part_length plan n = do
  reject (ltb plan.part_count n.number)
      (invalid_input "part_number" "exceeds this upload's planned part count")
  let start = mul_u64 (n.number - 1) plan.part_size
  ok (min (sub_u64 plan.file_size start) plan.part_size)
