-- ===== src/Multipart/Tests.antt =====
-- The theorems on src/multipart.rs at one concrete upload.
use mathlib.Core.List.{Perm}
use mathlib.Core.List.Perm
use r2kit.Multipart.Upload.Completes.{complete_cases, completion_of}
use r2kit.Error.{SdkError, invalid_input, remote}
use r2kit.Prelude.{
  ℕ, ◌*◌, ◌≡◌, ◌↔◌, refl, ok, some, [], ◌∷◌, ◌++◌, arith, range_from, codes, div_ceil, text_eq, ◌≢◌,
  ◌⊎◌, Option, Text, err,
}
use r2kit.BTreeMap.{put, lookup}
use r2kit.Sdk.{finished}
use r2kit.Types.{validate_part_size, new_bucket_name, is_bucket_byte}
use r2kit.Types.Names.{IsBucketName, new_bucket_name_iff}
use r2kit.Multipart.Plan.{new_plan, part_number_try_from, part_length}
use r2kit.Multipart.Plan.Bounds.{IsPlan, Plannable, plan_of, new_plan_iff}
use r2kit.Multipart.Plan.Tiling.{planned}
use r2kit.Multipart.Manifest.{CompletionManifest, try_from_parts, new_uploaded_part}
use r2kit.Multipart.Manifest.Canonical.{IsAscending, try_from_parts-canonical, try_from_parts-perm}
use r2kit.Multipart.RemoteParts.{
  MultipartReconciliation, into_completion_manifest, record_parts, check_remote, fill_slot,
  uploaded_parts_from, missing_parts_from,
}
use r2kit.Multipart.RemoteParts.Outcome.{numbers, part_numbers}
use r2kit.Multipart.Reconcile.{reconcile, list_pages}
use r2kit.Multipart.Reconcile.Ends.{Ends, ListsParts, reconcile-Ends}
use r2kit.Multipart.Reconcile.Reads.{reconcile-perm, reconcile_complete}
use r2kit.Multipart.Checks.{check_manifest, check_reconciled, numbered_from, parts_eq, plan_upload}
use r2kit.Object.Options.{validate, validate_headers, validate_custom}
use r2kit.Multipart.Session.{
  MultipartSessionSnapshot, MultipartSessionRecord, snapshot, into_persistence_record,
  from_persistence_record, resume_presigned_multipart,
}
use r2kit.Multipart.Session.Persistence.{
  IsSnapshot, from_persistence_record-into_persistence_record,
}
use r2kit.Multipart.Upload.{create, complete, complete_verified}
use r2kit.Multipart.Upload.Completes.{complete_verified_lem}
use r2kit.Multipart.Upload.Creates.{create-resumes}
use r2kit.Examples.{
  mib, plan, session, two_listed, all_listed, r2, part, manifest, codecs, builder, bucket,
}

plan-IsPlan : IsPlan plan
plan-IsPlan = record {
  nonempty = omega arith;
  object_capped = omega arith;
  part_large = omega arith;
  part_small = omega arith;
  some_part = omega arith;
  parts_capped = omega arith;
  covers = omega arith;
  tight = omega arith;
}

new_plan_iff_example : (new_plan (12 * mib) (5 * mib) ≡ ok (plan_of (12 * mib) (5 * mib))) ↔ (
    Plannable (12 * mib) (5 * mib) × (plan_of (12 * mib) (5 * mib) ≡ plan_of (12 * mib) (5 * mib)))
new_plan_iff_example = new_plan_iff (12 * mib) (5 * mib) (plan_of (12 * mib) (5 * mib))

parts-IsAscending :
    (c : CompletionManifest) × (try_from_parts (part 2 ∷ part 3 ∷ part 1 ∷ []) ≡ ok manifest)
unfolding try_from_parts put lookup
parts-IsAscending = (manifest, refl)

try_from_parts-canonical_example :
    IsAscending manifest.parts × Perm manifest.parts (part 2 ∷ part 3 ∷ part 1 ∷ [])
try_from_parts-canonical_example =
    try_from_parts-canonical (part 2 ∷ part 3 ∷ part 1 ∷ []) {c = manifest} parts-IsAscending.1

swapped : Perm (part 2 ∷ part 1 ∷ []) (part 1 ∷ part 2 ∷ [])
swapped = Perm.swap (part 1) (part 2) []

try_from_parts-perm_example :
    try_from_parts (part 2 ∷ part 1 ∷ []) ≡ try_from_parts (part 1 ∷ part 2 ∷ [])
try_from_parts-perm_example = try_from_parts-perm swapped

-- What `reconcile` reports where the second part is missing, and where none is.
abbrev two_reported : MultipartReconciliation
two_reported = record {
  uploaded_parts = part 1 ∷ part 3 ∷ [];
  missing_parts = record { number = 2 } ∷ [];
}

abbrev all_reported : MultipartReconciliation
all_reported = record { uploaded_parts = manifest.parts; missing_parts = [] }

reconcile_two : reconcile (r2 two_listed) 4 session 0 ≡ finished (ok two_reported) 1
unfolding reconcile list_pages record_parts check_remote fill_slot part_number_try_from part_length
    new_uploaded_part uploaded_parts_from missing_parts_from
reconcile_two = refl

reconcile_all : reconcile (r2 all_listed) 4 session 0 ≡ finished (ok all_reported) 1
unfolding reconcile list_pages record_parts check_remote fill_slot part_number_try_from part_length
    new_uploaded_part uploaded_parts_from missing_parts_from
reconcile_all = refl

reconcile-perm_example :
    Perm
      (numbers two_reported.uploaded_parts ++ part_numbers two_reported.missing_parts)
      (range_from 1 3)
reconcile-perm_example =
    reconcile-perm (r2 two_listed) 4 session 0 1 {r = two_reported} (omega arith) reconcile_two

reconcile_complete_example :
    (into_completion_manifest all_reported ≡ ok (record { parts = all_reported.uploaded_parts }))
    × (check_manifest plan (record { parts = all_reported.uploaded_parts }) ≡ ok tt)
reconcile_complete_example =
    reconcile_complete (r2 all_listed) 4 session 0 1 {r = all_reported} plan-IsPlan reconcile_all
      refl

one_page : ListsParts (r2 two_listed)
one_page request s s' output replied truncated = cc

reconcile-Ends_example : Ends (reconcile (r2 two_listed) 4 session 0)
reconcile-Ends_example = reconcile-Ends (r2 two_listed) 4 session 0 one_page (omega arith)

complete_cases_example :
    ((numbers manifest.parts ≢ planned session.plan)
      × (complete (r2 []) session manifest 0
          ≡ finished
              (err (invalid_input "parts" "must include every planned part exactly once"))
              0))
    ⊎ ((numbers manifest.parts ≡ planned session.plan)
        × (((etag : Option Text) × (t : ℕ) × ((r2 []).complete_multipart_upload
                  (completion_of session manifest.parts)
                  0
                ≡ (ok etag, t))
              × (complete (r2 []) session manifest 0 ≡ finished (ok (record { etag = etag })) t))
            ⊎ ((x : SdkError) × (t : ℕ) × ((r2 []).complete_multipart_upload
                    (completion_of session manifest.parts)
                    0
                  ≡ (err x, t))
                × (complete (r2 []) session manifest 0
                    ≡ finished (err (remote "CompleteMultipartUpload" x)) t))))
complete_cases_example = complete_cases (r2 []) session manifest 0

completed :
    complete_verified (r2 all_listed) 4 session manifest 0
    ≡ finished (ok (record { etag = some (codes "whole") })) 2
unfolding complete_verified complete check_manifest check_reconciled numbered_from parts_eq
    reconcile list_pages record_parts check_remote fill_slot part_number_try_from part_length
    new_uploaded_part uploaded_parts_from missing_parts_from text_eq
completed = refl

complete_verified_lem_example :
    (r : MultipartReconciliation) × (t : ℕ) × (reconcile (r2 all_listed) 4 session 0
      ≡ finished (ok r) t)
    × (r.missing_parts ≡ [])
    × (r.uploaded_parts ≡ manifest.parts)
    × (numbers manifest.parts ≡ planned plan)
    × (complete (r2 all_listed) session manifest t
        ≡ finished (ok (record { etag = some (codes "whole") })) 2)
complete_verified_lem_example =
    complete_verified_lem (r2 all_listed) 4 session manifest 0 2 completed

bucket_name : IsBucketName (codes "photos")
unfolding new_bucket_name is_bucket_byte
bucket_name = ((new_bucket_name_iff (codes "photos") (record { text = codes "photos" })).0 refl).0

created : create (r2 []) codecs builder 0 ≡ finished (ok session) 1
unfolding create plan_upload new_plan validate_part_size div_ceil validate validate_headers
    validate_custom
created = refl

plan-Plannable : Plannable (12 * mib) (5 * mib)
plan-Plannable = record {
  nonempty = omega arith;
  object_capped = omega arith;
  part_large = omega arith;
  part_small = omega arith;
  few_parts = omega arith;
}

create-resumes_example :
    (builder.file_size ≡ some (12 * mib))
    × (builder.part_size ≡ some (5 * mib))
    × Plannable (12 * mib) (5 * mib)
    × (from_persistence_record (into_persistence_record (snapshot session)) ≡ ok (snapshot session))
    × (resume_presigned_multipart bucket (snapshot session) ≡ ok session)
create-resumes_example =
    create-resumes (r2 []) codecs builder 0 1 {session = session} bucket_name (omega arith)
      (omega arith) created (ground arith)

abbrev saved : MultipartSessionSnapshot
saved = record {
  bucket = codes "photos";
  key = codes "cat.png";
  upload_id = codes "upload-1";
  file_size = 12 * mib;
  part_size = 5 * mib;
}

abbrev saved_record : MultipartSessionRecord
saved_record = record {
  version = 1;
  bucket = codes "photos";
  key = codes "cat.png";
  upload_id = codes "upload-1";
  file_size = 12 * mib;
  part_size = 5 * mib;
}

saved-IsSnapshot : IsSnapshot saved
saved-IsSnapshot = record {
  bucket_name = bucket_name;
  key_bytes = omega arith;
  key_short = omega arith;
  has_upload_id = ground arith;
  planned = plan-Plannable;
}

from_persistence_record-into_persistence_record_example :
    from_persistence_record (into_persistence_record saved) ≡ ok saved
from_persistence_record-into_persistence_record_example =
    from_persistence_record-into_persistence_record saved saved-IsSnapshot
