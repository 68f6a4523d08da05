-- ===== src/Managed/Streaming/Uploads.antt =====
-- What the uploads of the parts of a stream, in src/managed.rs, have sent when they succeed.
use r2kit.Prelude.{
  ℕ, ◌≤◌, ◌<◌, ◌≡◌, refl, arith, Option, none, some, List, [], ◌∷◌, Text, Result, ok, err, length,
}
use r2kit.Error.{Error, SdkError}
use r2kit.Sdk.{
  Sdk, UploadPartRequest, Outcome, finished, bind-finished, finished-value, finished-state,
}
use r2kit.Multipart.Plan.{PartNumber}
use r2kit.Multipart.Manifest.{UploadedPart, new_uploaded_part}
use r2kit.Multipart.Session.{PresignedMultipart}
use r2kit.Managed.Retry.{is_retryable, sdk_retry_after}
use r2kit.Managed.Retry.Attempts.{Retries, retry_with_policy-ends}
use r2kit.Managed.Source.{Files}
use r2kit.Managed.Work.{uploaded_from}
use r2kit.Managed.Upload.{upload_part_with_retry}
use r2kit.Managed.Streaming.{Reader, Chunk, upload_chunks}

-- The request that carries the bytes of a part.
abbrev pub part_upload : PresignedMultipart → PartNumber → List ℕ → UploadPartRequest
part_upload session number bytes = record {
  bucket = session.bucket.name.text;
  key = session.key;
  upload_id = session.upload_id;
  part_number = number.number;
  content_length = some (length bytes);
  content_md5 = none;
  body = bytes;
}

-- The chunks were sent one after the other, each with its number and its bytes, in at most `limit` calls
-- of which the last was answered with the entity tag of the part.
pub data Uploaded {S : Type 0} (sdk : Sdk S) (limit : ℕ) (session : PresignedMultipart)
    : List Chunk → S → List UploadedPart → S → Type 0 where
  no_chunk : (s : S) → Uploaded sdk limit session [] s [] s
  chunk_uploaded :
      {number : PartNumber} {bytes : List ℕ} {chunks : List Chunk} {etag : Text}
      {parts : List UploadedPart} {calls : ℕ} {s t u : S}
      → calls ≤ limit
      → Retries
          (sdk.upload_part (part_upload session number bytes))
          is_retryable
          (ok (some etag))
          t
          s
          calls
      → Uploaded sdk limit session chunks t parts u
      → Uploaded sdk limit session
          ((number, bytes) ∷ chunks)
          s
          (record { part_number = number; etag = etag } ∷ parts)
          u

uploaded_from-ok :
    (number : PartNumber) (o : Result (Option Text) SdkError) {part : UploadedPart}
    → uploaded_from number o ≡ ok part
    → (etag : Text) × (o ≡ ok (some etag)) × (part ≡ record { part_number = number; etag = etag })
unfolding uploaded_from new_uploaded_part
uploaded_from-ok number (err x) h = cc
uploaded_from-ok number (ok none) h = cc
uploaded_from-ok number (ok (some [])) h = cc
uploaded_from-ok number (ok (some (c ∷ cs))) h = (c ∷ cs, refl, cc)

finished-result :
    {S A : Type 0} {r q : Result A Error} {s t : S}
    → ◌≡◌ {A = Outcome S A} (finished r s) (finished q t)
    → r ≡ q
finished-result h = cc

module _ {S R : Type 0} (sdk : Sdk S) (files : Files S) (random : ℕ → ℕ → ℕ) (reader : Reader R)
    (limit : ℕ) (session : PresignedMultipart) where
  part-answered :
      (number : PartNumber) (bytes : List ℕ) (s t : S) {part : UploadedPart}
      → 1 ≤ limit
      → limit < 256
      → upload_part_with_retry sdk files random limit session number bytes s ≡ finished (ok part) t
      → (etag : Text) × (calls : ℕ) × (part ≡ record { part_number = number; etag = etag })
        × (calls ≤ limit)
        × Retries
            (sdk.upload_part (part_upload session number bytes))
            is_retryable
            (ok (some etag))
            t
            s
            calls
  unfolding upload_part_with_retry
  part-answered number bytes s t some_attempt few h =
      let (run, ran, is_run) =
        retry_with_policy-ends (sdk.upload_part (part_upload session number bytes)) is_retryable
          sdk_retry_after (random number.number) limit some_attempt few s in
      let ends = rw (upload_part_with_retry, ran) at h in
      let (etag, answered, same) = uploaded_from-ok number run.outcome (finished-result ends) in
      let stays = finished-state ends in
      (etag, run.calls, same, omega (arith, is_run.within), rw (answered, stays) at is_run.replies)

  pub upload_chunks-Uploaded :
      (chunks : List Chunk) (s u : S) {parts : List UploadedPart}
      → 1 ≤ limit
      → limit < 256
      → upload_chunks sdk files random reader limit session chunks s ≡ finished (ok parts) u
      → Uploaded sdk limit session chunks s parts u
  unfolding upload_chunks
  upload_chunks-Uploaded [] s u some_attempt few h =
      rw (← finished-value h, ← finished-state h) (Uploaded.no_chunk s)
  upload_chunks-Uploaded ((number, bytes) ∷ chunks) s u some_attempt few h =
      let (part, t, sent, h1) =
        bind-finished (upload_part_with_retry sdk files random limit session number bytes) _ s u
          h in
      let (parts, v, rest, h2) =
        bind-finished (upload_chunks sdk files random reader limit session chunks) _ t u h1 in
      let (etag, calls, same, within, replies) =
        part-answered number bytes s t some_attempt few sent in
      let others = upload_chunks-Uploaded chunks t v some_attempt few rest in
      rw (← finished-value h2, ← finished-state h2, same)
        (Uploaded.chunk_uploaded within replies others)
