-- ===== src/Multipart/Session.antt =====
-- src/multipart.rs: the saved state of a multipart session and its persistence record.
pub mod Persistence
use r2kit.Prelude.{ℕ, ◌≡◌, Text, not, text_eq, Result, ok, err, ◌>>=◌, ◌>>◌, reject, is_empty, ◌==◌}
use r2kit.Error.{Error, invalid_input}
use r2kit.Types.{BucketName, ObjectKey, new_bucket_name, new_object_key}
use r2kit.Multipart.Plan.{MultipartPlan, new_plan}

pub record MultipartSessionSnapshot : Type 0 where
  pub bucket : Text
  pub key : Text
  pub upload_id : Text
  pub file_size : ℕ
  pub part_size : ℕ

pub record MultipartSessionRecord : Type 0 where
  pub version : ℕ
  pub bucket : Text
  pub key : Text
  pub upload_id : Text
  pub file_size : ℕ
  pub part_size : ℕ

-- `MultipartSessionSnapshot::restore`
unfoldable pub restore : Text → Text → Text → ℕ → ℕ → Result MultipartSessionSnapshot Error
unfolding new_bucket_name new_object_key new_plan
restore bucket key upload_id file_size part_size = do
  bucket_name ← new_bucket_name bucket
  object_key ← new_object_key key
  _ ← new_plan file_size part_size
  reject (is_empty upload_id) (invalid_input "upload_id" "must not be empty")
  ok (record {
    bucket = bucket_name.text;
    key = object_key.text;
    upload_id = upload_id;
    file_size = file_size;
    part_size = part_size;
  })

unfoldable pub from_persistence_record :
    MultipartSessionRecord → Result MultipartSessionSnapshot Error
unfolding restore
from_persistence_record r = do
  reject (not (r.version == 1))
      (invalid_input "version" "unsupported multipart session record version")
  restore r.bucket r.key r.upload_id r.file_size r.part_size

unfoldable pub into_persistence_record : MultipartSessionSnapshot → MultipartSessionRecord
into_persistence_record s = record {
  version = 1;
  bucket = s.bucket;
  key = s.key;
  upload_id = s.upload_id;
  file_size = s.file_size;
  part_size = s.part_size;
}

-- A bucket handle. Its client is the SDK that the operations take.
pub record Bucket : Type 0 where
  pub name : BucketName

pub record PresignedMultipart : Type 0 where
  pub bucket : Bucket
  pub key : Text
  pub upload_id : Text
  pub plan : MultipartPlan

-- `PresignedMultipart::snapshot`
unfoldable pub snapshot : PresignedMultipart → MultipartSessionSnapshot
snapshot s = record {
  bucket = s.bucket.name.text;
  key = s.key;
  upload_id = s.upload_id;
  file_size = s.plan.file_size;
  part_size = s.plan.part_size;
}

-- `Bucket::resume_presigned_multipart`
unfoldable pub resume_presigned_multipart :
    Bucket → MultipartSessionSnapshot → Result PresignedMultipart Error
unfolding new_plan
resume_presigned_multipart b s = do
  reject (not (text_eq s.bucket b.name.text))
      (invalid_input "bucket" "snapshot belongs to another bucket")
  plan ← new_plan s.file_size s.part_size
  ok (record { bucket = b; key = s.key; upload_id = s.upload_id; plan = plan })
