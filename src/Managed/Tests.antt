-- ===== src/Managed/Tests.antt =====
-- The theorems on src/managed.rs at concrete uploads.
use r2kit.Prelude.{
  ℕ, zero, suc, ◌*◌, ◌≤◌, ◌≡◌, ◌↔◌, refl, arith, true, false, none, some, List, [], ◌∷◌, Text,
  codes, Result, ok, err, flatten,
}
use r2kit.Error.{cancelled}
use r2kit.Types.{ObjectKey, new_object_key, validate_part_size}
use r2kit.Sdk.{finished}
use r2kit.Object.Options.{validate, validate_headers, validate_custom}
use r2kit.Multipart.Plan.{new_plan}
use r2kit.Multipart.Plan.Bounds.{IsPlan, plan_of}
use r2kit.Multipart.Plan.Tiling.{planned}
use r2kit.Multipart.Manifest.{UploadedPart, try_from_parts}
use r2kit.Multipart.RemoteParts.Outcome.{numbers}
use r2kit.Multipart.Session.{PresignedMultipart}
use r2kit.Multipart.Upload.{complete}
use r2kit.Multipart.Upload.Completes.{completion_of}
use r2kit.Multipart.Checks.{check_manifest}
use r2kit.BTreeMap.{put, lookup}
use r2kit.Managed.Retry.{RetryRun, retry_with_policy}
use r2kit.Managed.Retry.Attempts.{IsRun, retry_with_policy-ends}
use r2kit.Managed.Builder.{
  ManagedMultipartBuilder, UploadFileBuilder, new_upload_file, multipart, strategy_for,
  validate_numbers, validate_upload_file, required_buffer_bytes,
}
use r2kit.Managed.Builder.Limits.{Allowed, validate_numbers_iff, strategy_for-multipart}
use r2kit.Managed.Pipeline.{Job, Pipeline, Step, Steps, initial}
use r2kit.Managed.Pipeline.Bounded.{buffered, Steps-buffered}
use r2kit.Managed.Source.{Metadata, from_metadata, matches, read_part}
use r2kit.Managed.Source.Reads.{Holds, read_parts, read_parts-concat}
use r2kit.Managed.Work.{
  ManagedUploadError, ManagedUploadResult, reuse_parts, missing_jobs, insert_all, uploaded_from,
}
use r2kit.Managed.Upload.{
  run, upload_missing, upload_jobs, upload_part_with_retry, existing_parts, finish_run,
}
use r2kit.Managed.Upload.Succeeds.{run-completes}
use r2kit.Examples.{mib, bucket, session, r2, codecs, note, note_plan, note_metadata, disk, managed}

note_plan-IsPlan : IsPlan note_plan
note_plan-IsPlan = record {
  nonempty = omega arith;
  object_capped = omega arith;
  part_large = omega arith;
  part_small = omega arith;
  some_part = omega arith;
  parts_capped = omega arith;
  covers = omega arith;
  tight = omega arith;
}

disk-Holds : Holds disk (codes "note") note 0
disk-Holds = record { opens = refl; seeks = λ offset. refl; reads = λ offset count le. refl }

read_parts-concat_example :
    (parts : List (List ℕ)) × (read_parts disk (codes "note") note_plan 0 ≡ ok parts)
    × (flatten parts ≡ note)
read_parts-concat_example =
    read_parts-concat disk (codes "note") note 0 note_plan note_plan-IsPlan refl disk-Holds

-- An operation that fails in its first two calls.
abbrev flaky : ℕ → Result ℕ Text × ℕ
flaky zero = (err (codes "busy"), 1)
flaky (suc zero) = (err (codes "busy"), 2)
flaky (suc (suc s)) = (ok 9, suc (suc s))

retry_with_policy-ends_example :
    (run : RetryRun ℕ ℕ Text) × (retry_with_policy flaky (λ e. true) (λ e. none) (λ a. 100) 3 0
      ≡ some run)
    × IsRun flaky (λ e. true) (λ e. none) (λ a. 100) 3 1 0 run
retry_with_policy-ends_example =
    retry_with_policy-ends flaky (λ e. true) (λ e. none) (λ a. 100) 3 (omega arith) (omega arith) 0

validate_numbers_iff_example :
    (validate_numbers (5 * mib) 4 3 (20 * mib) ≡ ok tt) ↔ Allowed (5 * mib) 4 3 (20 * mib)
validate_numbers_iff_example = validate_numbers_iff (5 * mib) 4 3 (20 * mib)

valid_numbers : validate_numbers (5 * mib) 4 3 (20 * mib) ≡ ok tt
valid_numbers = (validate_numbers_iff (5 * mib) 4 3 (20 * mib)).1 (record {
  part_large = omega arith;
  part_small = omega arith;
  some_worker = omega arith;
  few_workers = omega arith;
  some_attempt = omega arith;
  few_attempts = omega arith;
  within_budget = omega arith;
})

abbrev first_job : Job
first_job = (record { number = 1 }, 5 * mib)

abbrev flying : Pipeline
flying = record { queued = []; in_flight = first_job ∷ [] }

take_off : Steps 4 (initial (first_job ∷ [])) flying
take_off = Steps.then (Steps.none _) (Step.start first_job [] [] (omega arith))

Steps-buffered_example : buffered flying ≤ 20 * mib
Steps-buffered_example =
    Steps-buffered (5 * mib) 4 3 (20 * mib) (first_job ∷ []) {s = flying} valid_numbers
      (omega arith, tt) take_off

abbrev file_upload : UploadFileBuilder
unfolding new_upload_file
file_upload = new_upload_file bucket (codes "cat.png") (codes "note")

file_upload_valid : validate_upload_file codecs file_upload ≡ ok tt
unfolding validate_upload_file validate validate_headers validate_custom validate_numbers
    validate_part_size required_buffer_bytes new_upload_file
file_upload_valid = refl

abbrev cat_key : ObjectKey
cat_key = record { text = codes "cat.png" }

strategy_for-multipart_example :
    (mp : ManagedMultipartBuilder) × (strategy_for file_upload cat_key (90_000 * mib)
      ≡ ok (multipart mp))
    × (new_plan (90_000 * mib) mp.part_size ≡ ok (plan_of (90_000 * mib) mp.part_size))
    × (file_upload.part_size ≤ mp.part_size)
    × (mp.key ≡ cat_key.text)
    × (mp.options ≡ file_upload.options)
    × (mp.max_attempts ≡ file_upload.max_attempts)
    × (mp.concurrency ≡ file_upload.concurrency)
unfolding new_object_key file_upload
strategy_for-multipart_example =
    strategy_for-multipart codecs file_upload cat_key (90_000 * mib) file_upload_valid refl
      (omega arith) (omega arith) (omega arith)

abbrev note_session : PresignedMultipart
note_session = record session { plan = note_plan }

-- A run that is cancelled after its session was created.
abbrev cancellable : ManagedMultipartBuilder
cancellable = record managed { cancellation = some false }

abbrev aborted : ManagedUploadError
aborted = record { error = cancelled; snapshot = none; aborted = true }

abbrev uploaded_note : ManagedUploadResult
uploaded_note = record {
  object = record { etag = some (codes "whole") };
  file_size = 3;
  part_count = 1;
  uploaded_parts = 1;
  reused_parts = 0;
}

note_uploaded :
    run
      (r2 [])
      disk
      (λ n a. 0)
      4
      (λ jobs. jobs)
      managed
      (codes "note")
      (from_metadata note_metadata)
      note_session
      1
    ≡ finished (ok uploaded_note) 3
unfolding run upload_missing finish_run existing_parts reuse_parts missing_jobs lookup upload_jobs
    read_part upload_part_with_retry retry_with_policy uploaded_from matches try_from_parts
    insert_all put complete check_manifest
note_uploaded = refl

run-completes_example :
    (parts : List UploadedPart) × (m : Metadata) × (t : ℕ) × (disk.metadata (codes "note") t
      ≡ some m)
    × (from_metadata m ≡ from_metadata note_metadata)
    × (numbers parts ≡ planned note_plan)
    × ((r2 []).complete_multipart_upload (completion_of note_session parts) t
        ≡ (ok uploaded_note.object.etag, 3))
run-completes_example =
    run-completes (r2 []) disk (λ n a. 0) 4 (λ jobs. jobs) managed (codes "note")
      (from_metadata note_metadata) note_session 1 3 {result = uploaded_note} note_uploaded
