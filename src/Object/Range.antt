-- ===== src/Object/Range.antt =====
-- src/object.rs: `ByteRange`, its check and its header value.
pub mod Parses
mod Tests
use r2kit.Prelude.{
  ℕ, zero, suc, ◌+◌, ◌/◌, ◌%◌, Bool, Text, List, [], ◌∷◌, ◌++◌, codes, ltb, ◌==◌, if◌then◌else◌,
  Result, ok, reject,
}
use r2kit.Error.{Error, invalid_input}

pub data ByteRange : Type 0 where
  bounded : ℕ → ℕ → ByteRange
  from_offset : ℕ → ByteRange
  suffix : ℕ → ByteRange

-- The decimal digits of a number of at most `fuel` digits.
unfoldable pub digits : ℕ → ℕ → Text
digits zero n = []
digits (suc fuel) n =
    let front = digits fuel (n / 10) in
    if ltb n 10 then (b'0' + n) ∷ [] else front ++ ((b'0' + n % 10) ∷ [])

-- `Display` of a u64, which has at most twenty digits.
unfoldable pub print_u64 : ℕ → Text
unfolding digits
print_u64 n = digits 20 n

-- `ByteRange::as_header_value`
unfoldable pub as_header_value : ByteRange → Text
as_header_value (bounded start end) = codes "bytes=" ++ (print_u64 start ++ (b'-' ∷ print_u64 end))
as_header_value (from_offset offset) = codes "bytes=" ++ (print_u64 offset ++ (b'-' ∷ []))
as_header_value (suffix length) = codes "bytes=" ++ (b'-' ∷ print_u64 length)

-- `ByteRange::validate`
unfoldable pub validate_range : ByteRange → Result (Unit {0}) Error
validate_range (bounded start end) =
    reject (ltb end start) (invalid_input "range" "start must not exceed end")
validate_range (from_offset offset) = ok tt
validate_range (suffix length) =
    reject (length == 0) (invalid_input "range" "suffix length must be greater than zero")
