-- ===== src/Managed/Builder.antt =====
-- src/managed.rs: the builders of a managed upload and of an adaptive file upload, their setters, and
-- what they check before they start. Progress callbacks are not modelled; a cancellation token is the
-- state of its signal when the code asks.
pub mod Limits
use r2kit.Prelude.{
  ℕ, zero, ◌+◌, ◌*◌, Bool, true, false, not, ◌&&◌, ◌||◌, Option, none, some, Text, max, Result, ok,
  err, ◌>>=◌, ◌>>◌, reject, ltb, leb, ◌==◌, is_some, div_ceil, saturating_mul_u64,
}
use r2kit.Error.{
  Error, ValidationError, invalid_input, validation, concurrency_out_of_range,
  attempts_out_of_range, managed_memory_budget_exceeded, cancelled,
}
use r2kit.Types.{
  ObjectKey, UploadThreshold, new_upload_threshold, default_upload_threshold, validate_part_size,
  mebibytes, new_object_key,
}
use r2kit.Object.Options.{Codecs, ObjectUploadOptions, default_options, is_empty_options}
use r2kit.Object.Options
use r2kit.Multipart.Plan.{max_parts}
use r2kit.Multipart.Session.{Bucket, MultipartSessionSnapshot, resume_presigned_multipart}

abbrev pub default_part_size : ℕ
default_part_size = 8 * 1024 * 1024

abbrev pub default_concurrency : ℕ
default_concurrency = 4

abbrev pub default_max_attempts : ℕ
default_max_attempts = 3

abbrev pub default_max_buffered_bytes : ℕ
default_max_buffered_bytes = 256 * 1024 * 1024

abbrev pub max_concurrency : ℕ
max_concurrency = 64

abbrev pub max_attempts_limit : ℕ
max_attempts_limit = 10

pub record ManagedMultipartBuilder : Type 0 where
  pub bucket : Bucket
  pub key : Text
  pub part_size : ℕ
  pub concurrency : ℕ
  pub max_attempts : ℕ
  pub max_buffered_bytes : ℕ
  pub abort_on_error : Bool
  pub resume : Option MultipartSessionSnapshot
  pub cancellation : Option Bool
  pub options : ObjectUploadOptions

-- `Bucket::managed_multipart`
unfoldable pub managed_multipart : Bucket → Text → Result ManagedMultipartBuilder Error
unfolding new_object_key
managed_multipart bucket key = do
  object_key ← new_object_key key
  ok (record {
    bucket = bucket;
    key = object_key.text;
    part_size = default_part_size;
    concurrency = default_concurrency;
    max_attempts = default_max_attempts;
    max_buffered_bytes = default_max_buffered_bytes;
    abort_on_error = true;
    resume = none;
    cancellation = none;
    options = default_options;
  })

-- `Bucket::resume_managed_multipart`
unfoldable pub resume_managed_multipart :
    Bucket → MultipartSessionSnapshot → Result ManagedMultipartBuilder Error
unfolding resume_presigned_multipart
resume_managed_multipart bucket snapshot = do
  _ ← resume_presigned_multipart bucket snapshot
  ok (record {
    bucket = bucket;
    key = snapshot.key;
    part_size = snapshot.part_size;
    concurrency = default_concurrency;
    max_attempts = default_max_attempts;
    max_buffered_bytes = default_max_buffered_bytes;
    abort_on_error = true;
    resume = some snapshot;
    cancellation = none;
    options = default_options;
  })

-- `required_buffer_bytes`
unfoldable pub required_buffer_bytes : ℕ → ℕ → ℕ
required_buffer_bytes part_size concurrency = saturating_mul_u64 part_size concurrency

-- The four numeric checks that both builders make, in their order.
unfoldable pub validate_numbers : ℕ → ℕ → ℕ → ℕ → Result (Unit {0}) Error
unfolding validate_part_size required_buffer_bytes
validate_numbers part_size concurrency max_attempts max_buffered_bytes = do
  validate_part_size part_size
  reject (concurrency == 0 || ltb max_concurrency concurrency)
      (validation (concurrency_out_of_range concurrency 1 max_concurrency))
  reject (max_attempts == 0 || ltb max_attempts_limit max_attempts)
      (validation (attempts_out_of_range max_attempts 1 max_attempts_limit))
  let required = required_buffer_bytes part_size concurrency
  reject (ltb max_buffered_bytes required)
      (validation (managed_memory_budget_exceeded required max_buffered_bytes))

-- `ManagedMultipartBuilder::validate`
unfoldable pub validate_managed : Codecs → ManagedMultipartBuilder → Result (Unit {0}) Error
validate_managed codecs b = do
  validate_numbers b.part_size b.concurrency b.max_attempts b.max_buffered_bytes
  Options.validate codecs b.options
  reject (is_some b.options.checksum) (
      invalid_input "checksum"
        "checksum verification is not supported on managed multipart uploads")
  reject (is_some b.options.if_match || is_some b.options.if_none_match) (
      invalid_input "if_match"
        "conditional match headers are not supported on managed multipart uploads")
  reject (is_some b.resume && not (is_empty_options b.options))
      (invalid_input "upload_options" "cannot change metadata while resuming a multipart session")

pub record UploadFileBuilder : Type 0 where
  pub bucket : Bucket
  pub key : Result ObjectKey Error
  pub path : Text
  pub options : ObjectUploadOptions
  pub threshold : UploadThreshold
  pub part_size : ℕ
  pub concurrency : ℕ
  pub max_attempts : ℕ
  pub max_buffered_bytes : ℕ
  pub cancellation : Option Bool

-- `UploadFileBuilder::new`
unfoldable pub new_upload_file : Bucket → Text → Text → UploadFileBuilder
unfolding new_object_key
new_upload_file bucket key path = record {
  bucket = bucket;
  key = new_object_key key;
  path = path;
  options = default_options;
  threshold = default_upload_threshold;
  part_size = default_part_size;
  concurrency = default_concurrency;
  max_attempts = default_max_attempts;
  max_buffered_bytes = default_max_buffered_bytes;
  cancellation = none;
}

unfoldable pub threshold_bytes : UploadFileBuilder → ℕ → Result UploadFileBuilder ValidationError
unfolding new_upload_threshold
threshold_bytes b bytes = do
  threshold ← new_upload_threshold bytes
  ok (record b { threshold = threshold })

unfoldable pub threshold_mib : UploadFileBuilder → ℕ → Result UploadFileBuilder ValidationError
unfolding threshold_bytes mebibytes
threshold_mib b mib = threshold_bytes b (mebibytes mib)

-- `UploadFileBuilder::validate`
unfoldable pub validate_upload_file : Codecs → UploadFileBuilder → Result (Unit {0}) Error
validate_upload_file codecs b = do
  Options.validate codecs b.options
  validate_numbers b.part_size b.concurrency b.max_attempts b.max_buffered_bytes

-- What `send` does with a file of a given size.
pub data Strategy : Type 0 where
  put_empty : Strategy
  put_single : Strategy
  multipart : ManagedMultipartBuilder → Strategy

-- The part size at which the file needs at most `max_parts` parts.
unfoldable pub effective_part_size : ℕ → ℕ → ℕ
unfolding div_ceil
effective_part_size file_size part_size = max part_size (div_ceil file_size max_parts)

-- The choice of `UploadFileBuilder::send`, for a key that is valid.
unfoldable pub strategy_for : UploadFileBuilder → ObjectKey → ℕ → Result Strategy Error
unfolding effective_part_size managed_multipart
strategy_for b key file_size = elim (file_size == 0) [
  | true ↦ ok put_empty
  | false ↦ elim (ltb file_size b.threshold.bytes) [
    | true ↦ ok put_single
    | false ↦ managed_multipart b.bucket key.text >>= λ mp. ok (
        multipart (record mp {
          options = b.options;
          part_size = effective_part_size file_size b.part_size;
          concurrency = b.concurrency;
          max_attempts = b.max_attempts;
          max_buffered_bytes = b.max_buffered_bytes;
          cancellation = b.cancellation;
        }))
  ]
]
