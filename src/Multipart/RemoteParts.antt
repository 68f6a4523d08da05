-- ===== src/Multipart/RemoteParts.antt =====
-- src/multipart.rs: what `PresignedMultipart::reconcile` does with one listed part, and how it reads
-- off its result. `uploaded` is the vector of slots, one for each planned part.
pub mod Slots
pub mod Outcome
use r2kit.Prelude.{
  ℕ, zero, suc, ◌+◌, ◌-◌, ◌%◌, Bool, not, Option, none, some, List, [], ◌∷◌, Text, Result, ok, err,
  ◌>>=◌, ◌>>◌, reject, ok_or, ok?, map_err, is_empty, is_some, ◌==◌, ℤ, to_u16?, to_u64?, u16_mod,
}
use r2kit.Error.{Error, invalid_input, service}
use r2kit.Sdk.{RemotePart}
use r2kit.Multipart.Plan.{PartNumber, MultipartPlan, part_number_try_from, part_length}
use r2kit.Multipart.Manifest.{UploadedPart, CompletionManifest, new_uploaded_part, try_from_parts}

abbrev pub Slots : Type 0
Slots = List (Option UploadedPart)

-- `slots[i]`, and a write to it. The index is below the part count, which `part_length` has checked.
abbrev pub slot_at : Slots → ℕ → Option UploadedPart
slot_at [] i = none
slot_at (x ∷ xs) zero = x
slot_at (x ∷ xs) (suc i) = slot_at xs i

abbrev pub set_slot : Slots → ℕ → UploadedPart → Slots
set_slot [] i p = []
set_slot (x ∷ xs) zero p = some p ∷ xs
set_slot (x ∷ xs) (suc i) p = x ∷ set_slot xs i p

-- `remote.size().and_then(|size| u64::try_from(size).ok()) != Some(expected_size)`
abbrev pub has_size : Option ℤ → ℕ → Bool
has_size none expected = Bool.false
has_size (some size) expected = elim (to_u64? size) [ none ↦ Bool.false | some n ↦ n == expected ]

-- `u16::try_from(raw).ok().and_then(|value| PartNumber::try_from(value).ok())`
abbrev pub valid_number : ℤ → Option PartNumber
valid_number raw = elim (to_u16? raw) [
  | none ↦ none
  | some value ↦ ok? (part_number_try_from value)
]

-- The checks on one listed part, up to the part that is stored.
unfoldable pub check_remote : MultipartPlan → RemotePart → Result UploadedPart Error
unfolding part_number_try_from new_uploaded_part
check_remote plan remote = do
  raw_number ← ok_or remote.part_number (service "ListParts")
  number ←
      ok_or (valid_number raw_number)
        (invalid_input "remote_parts" "contains an invalid part number")
  expected_size ←
      map_err (λ _. invalid_input "remote_parts" "contains a part outside the upload plan")
        (part_length plan number)
  reject (not (has_size remote.size expected_size))
      (invalid_input "remote_parts" "contains a part with an unexpected size")
  etag ← ok_or remote.e_tag (service "ListParts")
  new_uploaded_part number etag

-- `slot.replace(part).is_some()`
unfoldable pub fill_slot : Slots → UploadedPart → Result Slots Error
fill_slot uploaded part = do
  let i = part.part_number.number - 1
  reject (is_some (slot_at uploaded i))
      (invalid_input "remote_parts" "contains a duplicate part number")
  ok (set_slot uploaded i part)

-- The loop over the parts of one page.
unfoldable pub record_parts : MultipartPlan → List RemotePart → Slots → Result Slots Error
record_parts plan [] uploaded = ok uploaded
record_parts plan (remote ∷ rest) uploaded = do
  part ← check_remote plan remote
  uploaded' ← fill_slot uploaded part
  record_parts plan rest uploaded'

-- `repeat_with(|| None).take(part_count)`
abbrev pub empty_slots : ℕ → Slots
empty_slots zero = []
empty_slots (suc n) = none ∷ empty_slots n

-- The loop over the slots at the end, from the slot `index` on.
unfoldable pub uploaded_parts_from : Slots → List UploadedPart
uploaded_parts_from [] = []
uploaded_parts_from (none ∷ rest) = uploaded_parts_from rest
uploaded_parts_from (some part ∷ rest) = part ∷ uploaded_parts_from rest

unfoldable pub missing_parts_from : ℕ → Slots → List PartNumber
missing_parts_from index [] = []
missing_parts_from index (none ∷ rest) =
    record { number = (index % u16_mod + 1) % u16_mod } ∷ missing_parts_from (index + 1) rest
missing_parts_from index (some part ∷ rest) = missing_parts_from (index + 1) rest

pub record MultipartReconciliation : Type 0 where
  pub uploaded_parts : List UploadedPart
  pub missing_parts : List PartNumber

abbrev pub reconciliation : Slots → MultipartReconciliation
reconciliation uploaded = record {
  uploaded_parts = uploaded_parts_from uploaded;
  missing_parts = missing_parts_from 0 uploaded;
}

-- `MultipartReconciliation::is_complete`
abbrev pub is_complete : MultipartReconciliation → Bool
is_complete r = is_empty r.missing_parts

unfoldable pub into_completion_manifest : MultipartReconciliation → Result CompletionManifest Error
into_completion_manifest r = do
  reject (not (is_empty r.missing_parts))
      (invalid_input "remote_parts" "multipart upload is missing planned parts")
  try_from_parts r.uploaded_parts
