-- ===== src/Object/Put/Adaptive.antt =====
-- src/object.rs: `Bucket::presign_upload_with_options`, which presigns one request for a small object
-- and creates a multipart session for a large one.
use r2kit.Prelude.{ℕ, true, false, Option, none, Text, ok, ltb, max, div_ceil, Duration}
use r2kit.Types.{
  ObjectKey, new_object_key, validate_expiry, default_upload_threshold, threshold_default_bytes,
}
use r2kit.Sdk.{Sdk, SignedRequest, Remote, ◌>>=◌, ◌>>◌, lift}
use r2kit.Object.Options.{Codecs, ObjectUploadOptions, default_options}
use r2kit.Multipart.Plan.{max_parts}
use r2kit.Multipart.Session.{Bucket, PresignedMultipart}
use r2kit.Multipart.Checks.{PresignedMultipartBuilder, set_file_size, set_part_size}
use r2kit.Multipart.Upload.{create}
use r2kit.Object.Put.{PutObjectRequest, PresignedPutObject, presign_put_with_options}

-- `PresignedMultipartPlan` holds a session only.
pub data PresignedUploadPlan : Type 0 where
  single : PresignedPutObject → PresignedUploadPlan
  multipart : PresignedMultipart → PresignedUploadPlan

-- `Bucket::presigned_multipart`, for a valid key.
abbrev pub presigned_multipart : Bucket → ObjectKey → PresignedMultipartBuilder
presigned_multipart bucket key = record {
  bucket = bucket;
  key = key.text;
  file_size = none;
  part_size = none;
  options = default_options;
}

-- The part size of a multipart plan.
unfoldable pub presigned_part_size : ℕ → ℕ
unfolding div_ceil
presigned_part_size file_size = max (div_ceil file_size max_parts) threshold_default_bytes

-- The builder of the multipart branch.
unfoldable pub large_upload :
    Bucket → ObjectKey → ℕ → ObjectUploadOptions → PresignedMultipartBuilder
unfolding presigned_part_size
large_upload bucket key file_size options =
    record (set_part_size (set_file_size (presigned_multipart bucket key) file_size)
      (presigned_part_size file_size)) { options = options }

module _ {S : Type 0} (codecs : Codecs) (sdk : Sdk S)
    (presign_put_object : PutObjectRequest → Duration → Option SignedRequest) where
  unfoldable pub presign_upload_with_options :
      Bucket → Text → ℕ → Duration → ObjectUploadOptions → Remote S PresignedUploadPlan
  unfolding validate_expiry new_object_key presign_put_with_options create large_upload
  presign_upload_with_options bucket key file_size expires_in options = do
    lift (validate_expiry expires_in)
    key ← lift (new_object_key key)
    elim (ltb file_size default_upload_threshold.bytes) [
      | true ↦
          lift (
            presign_put_with_options codecs presign_put_object bucket key.text file_size expires_in
              options)
          >>= λ put. lift (ok (single put))
      | false ↦ create sdk codecs (large_upload bucket key file_size options) >>= λ session.
          lift (ok (multipart session))
    ]
