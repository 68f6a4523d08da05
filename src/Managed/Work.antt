-- ===== src/Managed/Work.antt =====
-- src/managed.rs: what a managed upload computes between its requests: the parts that R2 holds already,
-- the parts to upload, and the manifest that grows with them.
pub mod Collected
use r2kit.Prelude.{
  ℕ, Bool, false, Option, none, some, List, [], ◌∷◌, Text, Result, ok, ◌>>=◌, ok_or, map_err,
  range_from, checked_add_u64, traverse,
}
use r2kit.BTreeMap.{BTreeMap, lookup, put, nat_ord}
use r2kit.Error.{Error, SdkError, service, remote}
use r2kit.Multipart.Plan.{MultipartPlan, PartNumber, part_number_try_from, part_length}
use r2kit.Multipart.Manifest.{UploadedPart, new_uploaded_part}
use r2kit.Multipart.Session.{MultipartSessionSnapshot}
use r2kit.Multipart.Upload.{CompletedObject}
use r2kit.Managed.Pipeline.{Job}

pub record ManagedUploadResult : Type 0 where
  pub object : CompletedObject
  pub file_size : ℕ
  pub part_count : ℕ
  pub uploaded_parts : ℕ
  pub reused_parts : ℕ

pub record ManagedUploadError : Type 0 where
  pub error : Error
  pub snapshot : Option MultipartSessionSnapshot
  pub aborted : Bool

abbrev pub before_start : Error → ManagedUploadError
before_start error = record { error = error; snapshot = none; aborted = false }

-- The loop over the parts that R2 already holds.
unfoldable pub reuse_parts :
    MultipartPlan
    → List UploadedPart
    → BTreeMap ℕ UploadedPart
    → ℕ
    → Result (BTreeMap ℕ UploadedPart × ℕ) Error
reuse_parts plan [] manifest reused_bytes = ok (manifest, reused_bytes)
reuse_parts plan (part ∷ parts) manifest reused_bytes =
    part_length plan part.part_number >>= λ expected.
    ok_or (checked_add_u64 reused_bytes expected) (service "ListParts") >>= λ bytes.
    reuse_parts plan parts (put part.part_number.number part manifest) bytes

-- The parts that are not in the manifest, in the order of their numbers, with their lengths.
abbrev pub unlisted : BTreeMap ℕ UploadedPart → List PartNumber → List PartNumber
unlisted manifest [] = []
unlisted manifest (n ∷ ns) = elim (lookup n.number manifest) [
  | none ↦ n ∷ unlisted manifest ns
  | some p ↦ unlisted manifest ns
]

unfoldable pub missing_jobs : MultipartPlan → BTreeMap ℕ UploadedPart → Result (List Job) Error
unfolding part_number_try_from part_length traverse
missing_jobs plan manifest =
    traverse part_number_try_from (range_from 1 plan.part_count) >>= λ parts.
    traverse (λ n. part_length plan n >>= λ length. ok (n, length)) (unlisted manifest parts)

-- `manifest.insert(part.part_number(), part)` for each part.
unfoldable pub insert_all : List UploadedPart → BTreeMap ℕ UploadedPart → BTreeMap ℕ UploadedPart
insert_all [] manifest = manifest
insert_all (part ∷ parts) manifest = insert_all parts (put part.part_number.number part manifest)

-- What `upload_part_with_retry` makes of the retry loop's result.
unfoldable pub uploaded_from :
    PartNumber → Result (Option Text) SdkError → Result UploadedPart Error
unfolding new_uploaded_part
uploaded_from number outcome = map_err (remote "UploadPart") outcome >>= λ output.
    ok_or output (service "UploadPart") >>= λ etag. new_uploaded_part number etag
