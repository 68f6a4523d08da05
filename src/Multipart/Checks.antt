-- ===== src/Multipart/Checks.antt =====
-- src/multipart.rs: what creating, presigning and completing an upload decide before a request.
pub mod Exact
use r2kit.Prelude.{
  ℕ, zero, suc, ◌+◌, Bool, true, false, not, ◌&&◌, ◌||◌, Option, none, some, List, [], ◌∷◌, Text,
  length, Result, ok, err, ◌>>=◌, ◌>>◌, reject, ok_or, is_some, text_eq, ◌==◌, Duration,
}
use r2kit.Error.{Error, invalid_input, presign}
use r2kit.Types.{validate_expiry, mebibytes}
use r2kit.Sdk.{Sdk, CreateMultipartUploadRequest, SignedRequest}
use r2kit.Object.Options.{
  Codecs, ObjectUploadOptions, validate, content_type_of, custom_metadata_values,
}
use r2kit.Multipart.Plan.{PartNumber, MultipartPlan, new_plan, part_length}
use r2kit.Multipart.Manifest.{UploadedPart, CompletionManifest}
use r2kit.Multipart.Session.{Bucket, PresignedMultipart}
use r2kit.Multipart.RemoteParts.{MultipartReconciliation, is_complete}

pub record PresignedMultipartBuilder : Type 0 where
  pub bucket : Bucket
  pub key : Text
  pub file_size : Option ℕ
  pub part_size : Option ℕ
  pub options : ObjectUploadOptions

-- The setters.
abbrev pub set_file_size : PresignedMultipartBuilder → ℕ → PresignedMultipartBuilder
set_file_size b bytes = record b { file_size = some bytes }

abbrev pub set_part_size : PresignedMultipartBuilder → ℕ → PresignedMultipartBuilder
set_part_size b bytes = record b { part_size = some bytes }

unfoldable pub set_part_size_mib : PresignedMultipartBuilder → ℕ → PresignedMultipartBuilder
unfolding mebibytes
set_part_size_mib b mib = record b { part_size = some (mebibytes mib) }

-- `apply_to(req).set_metadata(..)`
abbrev pub create_request : PresignedMultipartBuilder → CreateMultipartUploadRequest
unfolding custom_metadata_values
create_request b = record {
  bucket = b.bucket.name.text;
  key = b.key;
  content_type = content_type_of b.options;
  cache_control = b.options.cache_control;
  content_disposition = b.options.content_disposition;
  content_encoding = b.options.content_encoding;
  content_language = b.options.content_language;
  expires = b.options.expires;
  metadata = custom_metadata_values b.options;
}

-- The local checks of `create`, up to the plan.
unfoldable pub plan_upload : Codecs → PresignedMultipartBuilder → Result MultipartPlan Error
plan_upload codecs b = do
  validate codecs b.options
  file_size ← ok_or b.file_size (invalid_input "file_size" "is required")
  part_size ← ok_or b.part_size (invalid_input "part_size" "is required")
  plan ← new_plan file_size part_size
  validate codecs b.options
  reject (is_some b.options.checksum) (
      invalid_input "checksum"
        "checksum verification is not supported on multipart upload sessions; verify individual parts using MD5 or SHA")
  reject (is_some b.options.if_match || is_some b.options.if_none_match) (
      invalid_input "if_match"
        "conditional match headers are not supported on multipart upload sessions")
  ok plan

-- `index + 1` is the number of the part at `index`, from `index` on.
unfoldable pub numbered_from : ℕ → List UploadedPart → Bool
numbered_from index [] = true
numbered_from index (part ∷ parts) =
    part.part_number.number == index + 1 && numbered_from (index + 1) parts

-- The check of `complete`.
unfoldable pub check_manifest : MultipartPlan → CompletionManifest → Result (Unit {0}) Error
unfolding numbered_from
check_manifest plan manifest =
    reject (not (length manifest.parts == plan.part_count) || not (numbered_from 0 manifest.parts))
      (invalid_input "parts" "must include every planned part exactly once")

-- `==` on the parts.
unfoldable pub parts_eq : List UploadedPart → List UploadedPart → Bool
parts_eq [] [] = true
parts_eq [] (q ∷ qs) = false
parts_eq (p ∷ ps) [] = false
parts_eq (p ∷ ps) (q ∷ qs) =
    p.part_number.number == q.part_number.number && text_eq p.etag q.etag && parts_eq ps qs

pub record PresignedUploadPart : Type 0 where
  pub part_number : PartNumber
  pub content_length : ℕ
  pub content_md5 : Option Text
  pub request : SignedRequest

-- `presign_part_inner`. The time of expiry is not modelled.
unfoldable pub presign_part_inner :
    {S : Type 0}
    → Sdk S
    → PresignedMultipart
    → PartNumber
    → Option Text
    → Duration
    → Result PresignedUploadPart Error
presign_part_inner sdk session number content_md5 expires_in = do
  content_length ← part_length session.plan number
  validate_expiry expires_in
  signed ←
      ok_or
        (sdk.presign_upload_part
          (record {
            bucket = session.bucket.name.text;
            key = session.key;
            upload_id = session.upload_id;
            part_number = number.number;
            content_length = none;
            content_md5 = content_md5;
            body = [];
          })
          expires_in)
        presign
  ok (record {
    part_number = number;
    content_length = content_length;
    content_md5 = content_md5;
    request = signed;
  })

-- The comparison of `complete_verified`.
unfoldable pub check_reconciled :
    CompletionManifest → MultipartReconciliation → Result (Unit {0}) Error
unfolding parts_eq
check_reconciled manifest r =
    reject (not (is_complete r) || not (parts_eq r.uploaded_parts manifest.parts))
      (invalid_input "parts" "does not match the parts currently stored by R2")
