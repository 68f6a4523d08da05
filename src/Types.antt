-- ===== src/Types.antt =====
-- src/types.rs: limits, and the validated values that stand in front of every request.
pub mod Names
mod Tests
use r2kit.Prelude.{
  ℕ, ◌-◌, ◌*◌, ◌≡◌, Bool, true, false, ◌&&◌, ◌||◌, not, Option, none, some, List, [], ◌∷◌, Text,
  leb, ltb, ◌==◌, if◌then◌else◌, Result, ok, err, ◌>>=◌, ◌>>◌, reject, length, is_empty, all,
  Duration, from_secs, checked_mul_u64, u64_max,
}
use r2kit.Error.{Error, ValidationError, part_size_out_of_range, presign_expiry_out_of_range}
use r2kit.Error.{validation, invalid_input}

abbrev pub max_key_bytes : ℕ
max_key_bytes = 1024

abbrev pub min_bucket_name_len : ℕ
min_bucket_name_len = 3

abbrev pub max_bucket_name_len : ℕ
max_bucket_name_len = 63

abbrev pub min_multipart_part_size : ℕ
min_multipart_part_size = 5 * 1024 * 1024

abbrev pub max_upload_size : ℕ
max_upload_size = 5 * 1024 * 1024 * 1024 - min_multipart_part_size

abbrev pub max_multipart_part_size : ℕ
max_multipart_part_size = max_upload_size

abbrev pub max_multipart_object_size : ℕ
max_multipart_object_size = 5 * 1024 * 1024 * 1024 * 1024 - 5 * 1024 * 1024 * 1024

abbrev pub max_presign_seconds : ℕ
max_presign_seconds = 7 * 24 * 60 * 60

unfoldable pub mebibytes : ℕ → ℕ
mebibytes value = elim (checked_mul_u64 value (1024 * 1024)) [ some bytes ↦ bytes | none ↦ u64_max ]

unfoldable pub validate_prefix : Text → Result (Unit {0}) Error
validate_prefix prefix =
    reject (ltb max_key_bytes (length prefix))
      (invalid_input "prefix" "must not exceed 1,024 UTF-8 bytes")

unfoldable pub validate_expiry : Duration → Result (Unit {0}) Error
validate_expiry expires_in =
    reject (ltb expires_in (from_secs 1) || ltb (from_secs max_presign_seconds) expires_in) (
      validation
        (presign_expiry_out_of_range expires_in (from_secs 1) (from_secs max_presign_seconds)))

unfoldable pub validate_part_size : ℕ → Result (Unit {0}) Error
validate_part_size part_size =
    reject (not (leb min_multipart_part_size part_size && leb part_size max_multipart_part_size)) (
      validation (part_size_out_of_range part_size min_multipart_part_size max_multipart_part_size))

-- A validated object key.
pub record ObjectKey : Type 0 where
  pub text : Text

unfoldable pub validate_key_str : Text → Result (Unit {0}) Error
validate_key_str key =
    reject (is_empty key || ltb max_key_bytes (length key))
      (invalid_input "key" "must contain between 1 and 1,024 UTF-8 bytes")

-- `ObjectKey::new`
unfoldable pub new_object_key : Text → Result ObjectKey Error
unfolding validate_key_str
new_object_key key = do validate_key_str key; ok (record { text = key })

-- A validated bucket name.
pub record BucketName : Type 0 where
  pub text : Text

unfoldable pub is_ascii_lowercase : ℕ → Bool
is_ascii_lowercase byte = leb b'a' byte && leb byte b'z'

unfoldable pub is_ascii_digit : ℕ → Bool
is_ascii_digit byte = leb b'0' byte && leb byte b'9'

unfoldable pub is_bucket_byte : ℕ → Bool
unfolding is_ascii_lowercase is_ascii_digit
is_bucket_byte byte = is_ascii_lowercase byte || is_ascii_digit byte || byte == b'-'

abbrev pub starts_with_byte : ℕ → Text → Bool
starts_with_byte b [] = false
starts_with_byte b (x ∷ xs) = x == b

abbrev pub ends_with_byte : ℕ → Text → Bool
ends_with_byte b [] = false
ends_with_byte b (x ∷ []) = x == b
ends_with_byte b (x ∷ y ∷ ys) = ends_with_byte b (y ∷ ys)

unfoldable pub validate_bucket_name_str : Text → Result (Unit {0}) Error
validate_bucket_name_str name = do
  reject (ltb (length name) min_bucket_name_len || ltb max_bucket_name_len (length name))
      (invalid_input "bucket" "must contain between 3 and 63 bytes")
  reject (not (all is_bucket_byte name) || starts_with_byte b'-' name || ends_with_byte b'-' name)
      (invalid_input "bucket" "must use lowercase ASCII letters, digits, or interior hyphens")

-- `BucketName::new`
unfoldable pub new_bucket_name : Text → Result BucketName Error
unfolding validate_bucket_name_str
new_bucket_name name = do validate_bucket_name_str name; ok (record { text = name })

-- A validated threshold between a single PUT and a multipart upload.
pub record UploadThreshold : Type 0 where
  pub bytes : ℕ

abbrev pub threshold_min_bytes : ℕ
threshold_min_bytes = 5 * 1024 * 1024

abbrev pub threshold_default_bytes : ℕ
threshold_default_bytes = 8 * 1024 * 1024

-- `UploadThreshold::new`
unfoldable pub new_upload_threshold : ℕ → Result UploadThreshold ValidationError
new_upload_threshold bytes = do
  reject (not (leb threshold_min_bytes bytes && leb bytes max_multipart_object_size))
      (part_size_out_of_range bytes threshold_min_bytes max_multipart_object_size)
  ok (record { bytes = bytes })

abbrev pub default_upload_threshold : UploadThreshold
default_upload_threshold = record { bytes = threshold_default_bytes }
