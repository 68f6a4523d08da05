-- ===== src/Multipart/Manifest.antt =====
-- src/multipart.rs: uploaded parts, the receipts of an uploader, and the completion manifest.
pub mod Canonical
pub mod Accepts
use r2kit.Prelude.{
  ℕ, ◌≡◌, Bool, List, [], ◌∷◌, Text, Result, ok, err, ◌>>=◌, ◌>>◌, reject, is_empty, is_some,
  traverse, if◌then◌else◌,
}
use r2kit.Error.{Error, invalid_input}
use r2kit.BTreeMap.{BTreeMap, nil, lookup, put, into_values, nat_ord}
use r2kit.Multipart.Plan.{PartNumber, part_number_try_from}

pub record UploadedPart : Type 0 where
  pub part_number : PartNumber
  pub etag : Text

-- `UploadedPart::new`
unfoldable pub new_uploaded_part : PartNumber → Text → Result UploadedPart Error
new_uploaded_part part_number etag = do
  reject (is_empty etag) (invalid_input "etag" "must not be empty")
  ok (record { part_number = part_number; etag = etag })

-- What an uploader reports, not yet validated.
pub record MultipartPartReceipt : Type 0 where
  pub part_number : ℕ
  pub etag : Text

unfoldable pub try_into_uploaded_part : MultipartPartReceipt → Result UploadedPart Error
unfolding part_number_try_from new_uploaded_part
try_into_uploaded_part receipt = do
  number ← part_number_try_from receipt.part_number
  new_uploaded_part number receipt.etag

pub record CompletionManifest : Type 0 where
  pub parts : List UploadedPart

-- The loop of `CompletionManifest::try_from_parts` over the parts that are left.
unfoldable pub canonicalize :
    List UploadedPart → BTreeMap ℕ UploadedPart → Result (BTreeMap ℕ UploadedPart) Error
canonicalize [] canonical = ok canonical
canonicalize (part ∷ parts) canonical =
    let number = part.part_number.number in
    let rest = canonicalize parts (put number part canonical) in
    reject (is_some (lookup number canonical))
      (invalid_input "parts" "contains a duplicate part number")
    >> rest

unfoldable pub try_from_parts : List UploadedPart → Result CompletionManifest Error
unfolding canonicalize
try_from_parts parts = do
  canonical ← canonicalize parts nil
  reject (is_empty (into_values canonical))
      (invalid_input "parts" "must contain at least one uploaded part")
  ok (record { parts = into_values canonical })

unfoldable pub try_from_receipts : List MultipartPartReceipt → Result CompletionManifest Error
unfolding traverse try_into_uploaded_part try_from_parts
try_from_receipts receipts = do
  parts ← traverse try_into_uploaded_part receipts
  try_from_parts parts
