-- ===== src/Object/Put/Sent.antt =====
-- src/object.rs: the one request that an upload has sent when it succeeds.
use r2kit.Prelude.{ℕ, ◌≡◌, ◌∙◌, ap, Option, List, Text, Result, ok, length, Result-cases, inl, inr}
use r2kit.Error.{SdkError}
use r2kit.Sdk.{finished, failed-ne-done, finished-state, finished-value, reply-cases}
use r2kit.Object.Options.{Codecs, ChecksumAlgorithm, ObjectUploadOptions}
use r2kit.Multipart.Session.{Bucket}
use r2kit.Object.Put.{PutObjectRequest, put_request, put_bytes_options}
use r2kit.Object.Put.Sends.{PutObjectResult, put_stream_with_options, put_bytes_with_options}
use r2kit.Object.Put.Single.{IsPutRequest, put_request_iff}

-- A request with these arguments, and with this body, was answered with the entity tag of the result.
pub record Sent {S Body : Type 0}
    (put_object : PutObjectRequest → Body → S → Result (Option Text) SdkError × S) (to : Bucket)
    (name : Text) (size : ℕ) (body : Body) (result : PutObjectResult) (s u : S) : Type 0 where
  pub options : ObjectUploadOptions
  pub request : PutObjectRequest
  pub carries : IsPutRequest to name size options request
  pub answered : put_object request body s ≡ (ok result.etag, u)

replied :
    {S A : Type 0} {a b : A} {s t : S}
    → a ≡ b
    → s ≡ t
    → ◌≡◌ {A = Result A SdkError × S} (ok a, s) (ok b, t)
replied h k = cc

pub put_stream-Sent :
    {S Body : Type 0} (codecs : Codecs)
    (put_object : PutObjectRequest → Body → S → Result (Option Text) SdkError × S) (bucket : Bucket)
    (key : Text) (body : Body) (n : ℕ) (options : ObjectUploadOptions) (s u : S)
    {r : PutObjectResult}
    → put_stream_with_options codecs put_object bucket key body n options s ≡ finished (ok r) u
    → Sent put_object bucket key n body r s u
unfolding put_stream_with_options
put_stream-Sent codecs put_object bucket key body n options s u h =
    elim (Result-cases (put_request codecs bucket key n options)) [
      | inr (e, bad) ↦ absurd (failed-ne-done (rw (put_stream_with_options, bad) at h))
      | inl (request, good) ↦ elim (reply-cases (put_object request body s)) [
        | inr (e, t, refused) ↦
            absurd (failed-ne-done (rw (put_stream_with_options, good, refused) at h))
        | inl (etag, t, accepted) ↦
            let h' = rw (put_stream_with_options, good, accepted) at h in
            record {
              options = options;
              request = request;
              carries = ((put_request_iff codecs bucket key n options request).0 good).1;
              answered =
                  accepted ∙ replied (ap (λ r. r.etag) (finished-value h')) (finished-state h');
            }
      ]
    ]

pub put_bytes-Sent :
    {S : Type 0} (codecs : Codecs)
    (put_object : PutObjectRequest → List ℕ → S → Result (Option Text) SdkError × S)
    (compute : Option (List ℕ → ChecksumAlgorithm → Text)) (bucket : Bucket) (key : Text)
    (bytes : List ℕ) (options : ObjectUploadOptions) (s u : S) {r : PutObjectResult}
    → put_bytes_with_options codecs put_object compute bucket key bytes options s
      ≡ finished (ok r) u
    → Sent put_object bucket key (length bytes) bytes r s u
unfolding put_bytes_with_options
put_bytes-Sent codecs put_object compute bucket key bytes options s u h =
    elim (Result-cases (put_bytes_options compute bytes options)) [
      | inr (e, bad) ↦ absurd (failed-ne-done (rw (put_bytes_with_options, bad) at h))
      | inl (options', good) ↦
          put_stream-Sent codecs put_object bucket key bytes (length bytes) options' s u
            (rw (put_bytes_with_options, good) at h)
    ]
