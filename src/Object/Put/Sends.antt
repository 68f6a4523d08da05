-- ===== src/Object/Put/Sends.antt =====
-- src/object.rs: uploads with one request. The SDK's request is a parameter; a body is any type.
use r2kit.Prelude.{ℕ, List, Option, Text, Result, ok, length}
use r2kit.Error.{SdkError}
use r2kit.Sdk.{Remote, ◌>>=◌, lift, send}
use r2kit.Object.Options.{Codecs, ChecksumAlgorithm, ObjectUploadOptions, default_options}
use r2kit.Multipart.Session.{Bucket}
use r2kit.Object.Put.{PutObjectRequest, put_request, put_bytes_options, put_error}

pub record PutObjectResult : Type 0 where
  pub etag : Option Text

module _ {S Body : Type 0} (codecs : Codecs)
    (put_object : PutObjectRequest → Body → S → Result (Option Text) SdkError × S) where
  -- `Bucket::put_stream_with_options`
  unfoldable pub put_stream_with_options :
      Bucket → Text → Body → ℕ → ObjectUploadOptions → Remote S PutObjectResult
  unfolding put_request
  put_stream_with_options bucket key body content_length options = do
    request ← lift (put_request codecs bucket key content_length options)
    etag ← send (put_object request body) put_error
    lift (ok (record { etag = etag }))

  -- `Bucket::put_stream`
  unfoldable pub put_stream : Bucket → Text → Body → ℕ → Remote S PutObjectResult
  unfolding put_stream_with_options
  put_stream bucket key body content_length =
      put_stream_with_options bucket key body content_length default_options

module _ {S : Type 0} (codecs : Codecs)
    (put_object : PutObjectRequest → List ℕ → S → Result (Option Text) SdkError × S)
    (compute_checksum : Option (List ℕ → ChecksumAlgorithm → Text)) where
  -- `Bucket::put_bytes_with_options`
  unfoldable pub put_bytes_with_options :
      Bucket → Text → List ℕ → ObjectUploadOptions → Remote S PutObjectResult
  unfolding put_bytes_options put_stream_with_options
  put_bytes_with_options bucket key bytes options = do
    options ← lift (put_bytes_options compute_checksum bytes options)
    put_stream_with_options codecs put_object bucket key bytes (length bytes) options

  -- `Bucket::put_bytes`
  unfoldable pub put_bytes : Bucket → Text → List ℕ → Remote S PutObjectResult
  unfolding put_bytes_with_options
  put_bytes bucket key bytes = put_bytes_with_options bucket key bytes default_options
