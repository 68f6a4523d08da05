-- ===== src/Managed/Upload.antt =====
-- src/managed.rs: the managed upload of a file, from the checks to the completion. The world `S` is
-- the state of R2 and of the file system. The uploads of the missing parts end in the order
-- `schedule`, and each is followed to its end before the next: the interleaving of their attempts,
-- which is `Managed/Pipeline`'s, is not modelled here. `interrupt` says whether the cancellation signal
-- wins against the running upload, and in which state of the world it leaves it. Progress reports and
-- log events are not modelled.
pub mod Ends
pub mod Succeeds
use r2kit.Prelude.{
  ℕ, zero, suc, ◌+◌, ◌≡◌, Bool, true, false, not, ◌&&◌, ◌||◌, Option, none, some, List, [], ◌∷◌,
  Text, Result, ok, err, reject, ok_or, map_err, ◌==◌, is_some, is_none, length, range_from,
  checked_add_u64, traverse, u16_mod, ◌%◌,
}
use r2kit.BTreeMap.{BTreeMap, nil, lookup, put, into_values, keys, nat_ord}
use r2kit.Error.{Error, SdkError, invalid_input, service, io, cancelled, remote}
use r2kit.Types.{new_object_key}
use r2kit.Sdk.{Sdk, UploadPartRequest, Outcome, finished, unfinished, Remote, ◌>>=◌, ◌>>◌, lift}
use r2kit.Object.Options.{Codecs}
use r2kit.Multipart.Plan.{MultipartPlan, PartNumber, part_number_try_from, part_length}
use r2kit.Multipart.Manifest.{UploadedPart, new_uploaded_part, try_from_parts}
use r2kit.Multipart.Session.{
  MultipartSessionSnapshot, PresignedMultipart, snapshot, resume_presigned_multipart,
}
use r2kit.Multipart.Reconcile.{reconcile}
use r2kit.Multipart.Checks.{PresignedMultipartBuilder}
use r2kit.Multipart.Upload.{CompletedObject, create, complete, abort}
use r2kit.Managed.Retry.{RetryRun, retry_with_policy, is_retryable, sdk_retry_after}
use r2kit.Managed.Builder.{ManagedMultipartBuilder, validate_managed}
use r2kit.Managed.Source.{Files, Metadata, SourceFileFingerprint, from_metadata, matches, read_part}
use r2kit.Managed.Pipeline.{Job}
use r2kit.Managed.Work.{
  ManagedUploadResult, ManagedUploadError, before_start, reuse_parts, missing_jobs, insert_all,
  uploaded_from,
}

module _ {S : Type 0} (sdk : Sdk S) (files : Files S) (random : ℕ → ℕ → ℕ) where
  abbrev pub upload_request : PresignedMultipart → PartNumber → List ℕ → UploadPartRequest
  upload_request session number bytes = record {
    bucket = session.bucket.name.text;
    key = session.key;
    upload_id = session.upload_id;
    part_number = number.number;
    content_length = some (length bytes);
    content_md5 = none;
    body = bytes;
  }

  -- What follows the retry loop.
  abbrev uploaded_part :
      PartNumber → Option (RetryRun S (Option Text) SdkError) → Outcome S UploadedPart
  uploaded_part number none = unfinished
  uploaded_part number (some run) = finished (uploaded_from number run.outcome) run.state

  -- `upload_part_with_retry`
  unfoldable pub upload_part_with_retry :
      ℕ → PresignedMultipart → PartNumber → List ℕ → Remote S UploadedPart
  upload_part_with_retry max_attempts session number bytes s = uploaded_part number (
      retry_with_policy (sdk.upload_part (upload_request session number bytes)) is_retryable
        sdk_retry_after (random number.number) max_attempts s)

  abbrev pub read_source : Text → ℕ → Job → Remote S (List ℕ)
  read_source path part_size (number, length) s =
      finished (read_part files path part_size number length s) s

  -- The stream of part uploads and `try_collect`: the first error ends it.
  unfoldable pub upload_jobs :
      ℕ → PresignedMultipart → Text → List Job → Remote S (List UploadedPart)
  upload_jobs max_attempts session path [] = lift (ok [])
  upload_jobs max_attempts session path (job ∷ jobs) = do
    bytes ← read_source path session.plan.part_size job
    part ← upload_part_with_retry max_attempts session job.0 bytes
    parts ← upload_jobs max_attempts session path jobs
    lift (ok (part ∷ parts))

  -- `list_uploaded_parts`, where the upload resumes.
  unfoldable pub existing_parts :
      ℕ → ManagedMultipartBuilder → PresignedMultipart → Remote S (List UploadedPart)
  existing_parts fuel b session = elim (is_some b.resume) [
    | false ↦ lift (ok [])
    | true ↦ reconcile sdk fuel session >>= λ r. lift (ok r.uploaded_parts)
  ]

  -- `is_some_and(ManagedUploadCancellation::is_cancelled)`
  abbrev pub is_cancelled : Option Bool → Bool
  is_cancelled none = false
  is_cancelled (some signal) = signal

  -- `tokio::fs::metadata(path)`
  abbrev pub stat : Text → Remote S Metadata
  stat path s = finished (ok_or (files.metadata path s) (io "metadata")) s

  -- `run` up to the end of the uploads: the manifest of the reused parts, and the uploaded parts.
  unfoldable pub upload_missing :
      ℕ
      → (List Job → List Job)
      → ManagedMultipartBuilder
      → Text
      → PresignedMultipart
      → Remote S (BTreeMap ℕ UploadedPart × List UploadedPart)
  upload_missing fuel schedule b path session = do
    existing ← existing_parts fuel b session
    (manifest, reused_bytes) ← lift (reuse_parts session.plan existing nil 0)
    missing ← lift (missing_jobs session.plan manifest)
    uploaded ← upload_jobs b.max_attempts session path (schedule missing)
    lift (ok (manifest, uploaded))

  -- `run` from there on: the file is looked at again, and the upload is completed.
  unfoldable pub finish_run :
      Text
      → SourceFileFingerprint
      → PresignedMultipart
      → BTreeMap ℕ UploadedPart × List UploadedPart
      → Remote S ManagedUploadResult
  finish_run path fingerprint session (manifest, uploaded) = do
    final_metadata ← stat path
    lift (
        reject (not (matches fingerprint final_metadata))
          (invalid_input "path" "file changed during upload"))
    completion ← lift (try_from_parts (into_values (insert_all uploaded manifest)))
    object ← complete sdk session completion
    lift (
        ok (record {
          object = object;
          file_size = session.plan.file_size;
          part_count = session.plan.part_count;
          uploaded_parts = length uploaded % u16_mod;
          reused_parts = length (keys manifest) % u16_mod;
        }))

  -- `ManagedMultipartBuilder::run`
  unfoldable pub run :
      ℕ
      → (List Job → List Job)
      → ManagedMultipartBuilder
      → Text
      → SourceFileFingerprint
      → PresignedMultipart
      → Remote S ManagedUploadResult
  unfolding upload_missing finish_run
  run fuel schedule b path fingerprint session =
      upload_missing fuel schedule b path session >>= finish_run path fingerprint session

  abbrev pub after_abort :
      Error → PresignedMultipart → Outcome S (Unit {0}) → Option (ManagedUploadError × S)
  after_abort error session (finished (ok done) s) =
      some (record { error = error; snapshot = none; aborted = true }, s)
  after_abort error session (finished (err e) s) =
      some (record { error = error; snapshot = some (snapshot session); aborted = false }, s)
  after_abort error session unfinished = none

  -- `after_start_error`
  unfoldable pub after_start_error :
      ManagedMultipartBuilder → Error → PresignedMultipart → S → Option (ManagedUploadError × S)
  unfolding snapshot
  after_start_error b error session s = elim b.abort_on_error [
    | false ↦
        some (record { error = error; snapshot = some (snapshot session); aborted = false }, s)
    | true ↦ after_abort error session (abort sdk session s)
  ]

  -- The session of `upload_file`: restored from the snapshot, or created.
  unfoldable pub open_session : Codecs → ManagedMultipartBuilder → ℕ → Remote S PresignedMultipart
  unfolding resume_presigned_multipart new_object_key
  open_session codecs b file_size = elim b.resume [
    | some saved ↦
        lift (
          reject (not (saved.file_size == file_size) || not (saved.part_size == b.part_size))
            (invalid_input "path" "file size or part size differs from the saved session"))
        >> lift (resume_presigned_multipart b.bucket saved)
    | none ↦ lift (new_object_key b.key) >>= λ key. create sdk codecs (record {
      bucket = b.bucket;
      key = key.text;
      file_size = some file_size;
      part_size = some b.part_size;
      options = b.options;
    })
  ]

  -- The checks of `upload_file`, its session and the fingerprint of the file.
  unfoldable pub start_upload :
      Codecs
      → ManagedMultipartBuilder
      → Text
      → Remote S (PresignedMultipart × SourceFileFingerprint)
  unfolding validate_managed open_session
  start_upload codecs b path = do
    lift (validate_managed codecs b)
    metadata ← stat path
    lift (reject (not metadata.is_file) (invalid_input "path" "must identify a regular file"))
    lift (reject (is_cancelled b.cancellation) cancelled)
    session ← open_session codecs b metadata.len
    lift (ok (session, from_metadata metadata))

  abbrev pub failed :
      Option (ManagedUploadError × S) → Option (Result ManagedUploadResult ManagedUploadError × S)
  failed none = none
  failed (some (e, s)) = some (err e, s)

  -- What `upload_file` does when its upload has ended.
  abbrev pub settle :
      ManagedMultipartBuilder
      → PresignedMultipart
      → Outcome S ManagedUploadResult
      → Option (Result ManagedUploadResult ManagedUploadError × S)
  settle b session (finished (ok result) s) = some (ok result, s)
  settle b session (finished (err error) s) = failed (after_start_error b error session s)
  settle b session unfinished = none

  -- `select(run, cancelled)`, for a builder with a cancellation token.
  abbrev pub interrupted : ManagedMultipartBuilder → (S → Option S) → S → Option S
  interrupted b interrupt s = elim b.cancellation [ none ↦ none | some signal ↦ interrupt s ]

  abbrev pub run_or_cancel :
      ℕ
      → (List Job → List Job)
      → (S → Option S)
      → ManagedMultipartBuilder
      → Text
      → SourceFileFingerprint
      → PresignedMultipart
      → Remote S ManagedUploadResult
  run_or_cancel fuel schedule interrupt b path fingerprint session s =
      elim (interrupted b interrupt s) [
        | some t ↦ finished (err cancelled) t
        | none ↦ run fuel schedule b path fingerprint session s
      ]

  -- `ManagedMultipartBuilder::upload_file`; `none` means that the fuel ran out.
  unfoldable pub upload_file :
      ℕ
      → (List Job → List Job)
      → (S → Option S)
      → Codecs
      → ManagedMultipartBuilder
      → Text
      → S
      → Option (Result ManagedUploadResult ManagedUploadError × S)
  unfolding start_upload
  upload_file fuel schedule interrupt codecs b path s = elim (start_upload codecs b path s) [
    | unfinished ↦ none
    | finished r t ↦ elim r [
      | err error ↦ some (err (before_start error), t)
      | ok started ↦
          settle b started.0 (run_or_cancel fuel schedule interrupt b path started.1 started.0 t)
    ]
  ]
