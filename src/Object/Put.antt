-- ===== src/Object/Put.antt =====
-- src/object.rs: uploads with one request: their checks and the request they make. Presigning a request
-- is a parameter, as is the digest that the crate feature `checksum` computes.
pub mod Sends
pub mod Sent
pub mod Single
pub mod Adaptive
mod Tests
use r2kit.Prelude.{
  ℕ, Bool, ◌&&◌, Option, none, some, List, Text, Result, ok, err, ◌>>=◌, ◌>>◌, reject, ok_or,
  is_some, is_none, ltb, if◌then◌else◌, length, Duration,
}
use r2kit.BTreeMap.{BTreeMap}
use r2kit.Error.{
  Error, SdkError, invalid_input, validation, single_upload_too_large, presign, precondition_failed,
  has_status, remote,
}
use r2kit.Types.{new_object_key, max_upload_size, validate_expiry}
use r2kit.Sdk.{SignedRequest}
use r2kit.Object.Options.{
  Codecs, ChecksumAlgorithm, ObjectUploadOptions, validate, content_type_of, custom_metadata_values,
}
use r2kit.Multipart.Session.{Bucket}

abbrev pub max_single_put_size : ℕ
max_single_put_size = max_upload_size

pub record PutObjectRequest : Type 0 where
  pub bucket : Text
  pub key : Text
  pub content_length : ℕ
  pub content_type : Option Text
  pub cache_control : Option Text
  pub content_disposition : Option Text
  pub content_encoding : Option Text
  pub content_language : Option Text
  pub expires : Option ℕ
  pub metadata : Option (BTreeMap Text Text)
  pub if_match : Option Text
  pub if_none_match : Option Text
  pub checksum : Option (ChecksumAlgorithm × Text)

-- The request, without its body.
unfoldable pub request_of : Bucket → Text → ℕ → ObjectUploadOptions → PutObjectRequest
unfolding custom_metadata_values
request_of bucket key content_length options = record {
  bucket = bucket.name.text;
  key = key;
  content_length = content_length;
  content_type = content_type_of options;
  cache_control = options.cache_control;
  content_disposition = options.content_disposition;
  content_encoding = options.content_encoding;
  content_language = options.content_language;
  expires = options.expires;
  metadata = custom_metadata_values options;
  if_match = options.if_match;
  if_none_match = options.if_none_match;
  checksum = options.checksum_value;
}

-- The options of `Bucket::put_bytes_with_options`: `compute_checksum` is none without the feature.
unfoldable pub put_bytes_options :
    Option (List ℕ → ChecksumAlgorithm → Text)
    → List ℕ
    → ObjectUploadOptions
    → Result ObjectUploadOptions Error
put_bytes_options compute_checksum bytes options = elim options.checksum [
  | none ↦ ok options
  | some algo ↦ elim options.checksum_value [
    | some value ↦ ok options
    | none ↦ elim compute_checksum [
      | some compute ↦ ok (record options { checksum_value = some (algo, compute bytes algo) })
      | none ↦ err (
          invalid_input "checksum" "auto-computing checksums requires the 'checksum' crate feature")
    ]
  ]
]

pub record PresignedPutObject : Type 0 where
  pub content_length : ℕ
  pub request : SignedRequest

module _ (codecs : Codecs) where
  -- The checks that follow those of the key and the expiry.
  unfoldable pub validate_put : ℕ → ObjectUploadOptions → Result (Unit {0}) Error
  unfolding validate
  validate_put content_length options = do
    validate codecs options
    reject (is_some options.checksum && is_none options.checksum_value) (
        invalid_input "checksum"
          "auto-computing checksums is only supported for in-memory bytes; provide a precomputed digest using with_checksum_value")
    reject (ltb max_single_put_size content_length)
        (validation (single_upload_too_large content_length max_single_put_size))

  -- What `Bucket::put_stream_with_options` does before its request.
  unfoldable pub put_request :
      Bucket → Text → ℕ → ObjectUploadOptions → Result PutObjectRequest Error
  unfolding new_object_key validate_put
  put_request bucket key content_length options = do
    key ← new_object_key key
    validate_put content_length options
    ok (request_of bucket key.text content_length options)

  module _ (presign_put_object : PutObjectRequest → Duration → Option SignedRequest) where
    -- `Bucket::presign_put_with_options`
    unfoldable pub presign_put_with_options :
        Bucket → Text → ℕ → Duration → ObjectUploadOptions → Result PresignedPutObject Error
    unfolding new_object_key validate_expiry validate_put
    presign_put_with_options bucket key content_length expires_in options = do
      key ← new_object_key key
      validate_expiry expires_in
      validate_put content_length options
      signed ←
          ok_or (presign_put_object (request_of bucket key.text content_length options) expires_in)
            presign
      ok (record { content_length = content_length; request = signed })

-- The mapping of a failed `PutObject`.
unfoldable pub put_error : SdkError → Error
unfolding remote
put_error e = if has_status e 412 then precondition_failed else remote "PutObject" e
