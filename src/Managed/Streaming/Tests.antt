-- ===== src/Managed/Streaming/Tests.antt =====
-- The theorems on the streams of src/managed.rs at concrete uploads.
use mathlib.Core.List.Perm
use r2kit.Prelude.{
  ℕ, ◌+◌, ◌*◌, ◌≤◌, ◌<◌, ◌≡◌, refl, arith, false, none, some, List, [], ◌∷◌, ◌++◌, length, take,
  drop, leb, if◌then◌else◌, codes, ok, div_ceil,
}
use r2kit.Types.{new_object_key}
use r2kit.Sdk.{finished}
use r2kit.Object.Options.{validate}
use r2kit.Multipart.Plan.{new_plan}
use r2kit.Multipart.Plan.Bounds.{IsPlan}
use r2kit.Multipart.Plan.Tiling.{planned}
use r2kit.Multipart.Manifest.{try_from_parts}
use r2kit.Multipart.Session.{PresignedMultipart}
use r2kit.Multipart.Upload.{complete, create}
use r2kit.Multipart.Checks.{check_manifest, plan_upload}
use r2kit.BTreeMap.{put, lookup}
use r2kit.Managed.Retry.{retry_with_policy}
use r2kit.Managed.Builder.{ManagedMultipartBuilder, validate_numbers}
use r2kit.Managed.Builder.Limits.{validate_numbers_iff}
use r2kit.Managed.Pipeline.{Job}
use r2kit.Managed.Buffers.{Buffers, unstarted, Move, Moves, channel_size, buffered_bytes}
use r2kit.Managed.Buffers.Filled.{Moves-buffered}
use r2kit.Managed.Buffers.Exceeded.{Moves-exceed}
use r2kit.Managed.Work.{ManagedUploadResult, insert_all, uploaded_from}
use r2kit.Managed.Upload.{upload_part_with_retry}
use r2kit.Managed.Streaming.{
  Reader, Sent, read_chunks, upload_chunks, finish_stream, run_stream, start_stream, upload_stream,
}
use r2kit.Managed.Streaming.Reads.{Supplies, IsSent, read_chunks_lem}
use r2kit.Managed.Streaming.Succeeds.{Completed, upload_stream-completes}
use r2kit.Examples.{mib, r2, codecs, note, note_plan, disk, managed}

-- A reader of bytes in memory.
abbrev in_memory : Reader (List ℕ)
in_memory = record {
  read_exact = λ count bytes.
      if leb count (length bytes) then some (take count bytes, drop count bytes) else none;
}

in_memory-Supplies : Supplies in_memory (λ bytes. bytes)
in_memory-Supplies = record {
  reads = λ count bytes le. (drop count bytes, ground arith, refl);
  ends = λ count bytes lt. ground arith;
}

note_plan-IsPlan : IsPlan note_plan
note_plan-IsPlan = record {
  nonempty = omega arith;
  object_capped = omega arith;
  part_large = omega arith;
  part_small = omega arith;
  some_part = omega arith;
  parts_capped = omega arith;
  covers = omega arith;
  tight = omega arith;
}

read_chunks_lem_example :
    (sent : Sent) × (read_chunks in_memory (5 * mib) (1 + 1) 3 1 note ≡ some sent)
    × IsSent 3 (planned note_plan) note sent
read_chunks_lem_example =
    read_chunks_lem in_memory (λ bytes. bytes) note_plan note note_plan-IsPlan in_memory-Supplies

abbrev streamed_note : ManagedUploadResult
streamed_note = record {
  object = record { etag = some (codes "whole") };
  file_size = 3;
  part_count = 1;
  uploaded_parts = 1;
  reused_parts = 0;
}

note_streamed :
    upload_stream
      (r2 [])
      disk
      (λ n a. 0)
      in_memory
      (λ chunks. chunks)
      (λ s. none)
      codecs
      managed
      note
      3
      0
    ≡ some (ok streamed_note, 3)
unfolding upload_stream start_stream new_object_key validate_numbers validate create plan_upload
    div_ceil run_stream read_chunks finish_stream upload_chunks upload_part_with_retry
    retry_with_policy uploaded_from try_from_parts insert_all put complete check_manifest new_plan
    lookup
note_streamed = refl

upload_stream-completes_example :
    (session : PresignedMultipart) × (t : ℕ) × (start_stream
        (r2 [])
        disk
        (λ n a. 0)
        in_memory
        codecs
        managed
        3
        0
      ≡ finished (ok session) t)
    × (session.plan.file_size ≡ 3)
    × (session.plan.part_size ≡ 5 * mib)
    × Completed (r2 []) 3 note session streamed_note t 3
upload_stream-completes_example =
    upload_stream-completes (r2 []) disk (λ n a. 0) in_memory (λ bytes. bytes) (λ chunks. chunks)
      (λ s. none) codecs managed note 3 0 3 {result = streamed_note} Perm.refl in_memory-Supplies
      note_streamed

four_uploads : validate_numbers (5 * mib) 4 3 (20 * mib) ≡ ok tt
four_uploads = (validate_numbers_iff (5 * mib) 4 3 (20 * mib)).1 (record {
  part_large = omega arith;
  part_small = omega arith;
  some_worker = omega arith;
  few_workers = omega arith;
  some_attempt = omega arith;
  few_attempts = omega arith;
  within_budget = omega arith;
})

abbrev full_job : Job
full_job = (record { number = 1 }, 5 * mib)

abbrev one_read : Buffers
one_read = record { unread = []; reading = some full_job; channel = []; in_flight = [] }

Moves-buffered_example : buffered_bytes one_read ≤ 20 * mib + 2 * (5 * mib)
Moves-buffered_example =
    Moves-buffered (5 * mib) 4 3 (20 * mib) (full_job ∷ []) {s = one_read} four_uploads
      (omega arith, tt) (Moves.then (Moves.still _) (Move.read full_job [] [] []))

abbrev six_jobs : List Job
six_jobs = full_job ∷ full_job ∷ full_job ∷ full_job ∷ full_job ∷ full_job ∷ []

five_fit : 4 + channel_size (20 * mib) (5 * mib) 4 < length six_jobs
unfolding channel_size
five_fit = omega arith

Moves-exceed_example :
    (s : Buffers) × Moves 4 (channel_size (20 * mib) (5 * mib) 4) (unstarted (six_jobs ++ [])) s
    × (20 * mib < buffered_bytes s)
Moves-exceed_example =
    Moves-exceed (5 * mib) 4 3 (20 * mib) six_jobs [] four_uploads
      (refl, (refl, (refl, (refl, (refl, (refl, tt)))))) five_fit

-- An upload that is cancelled after its session was created.
abbrev cancellable : ManagedMultipartBuilder
cancellable = record managed { cancellation = some false }
