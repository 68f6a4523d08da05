-- ===== src/Client/Buckets.antt =====
-- src/client.rs: the requests on buckets.
use r2kit.Prelude.{ℕ, Bool, List, Option, none, Text, Result, ok, traverse, ℤ}
use r2kit.Error.{SdkError, remote}
use r2kit.Types.{new_bucket_name}
use r2kit.Sdk.{Remote, Outcome, finished, ◌>>=◌, ◌>>◌, lift, send}
use r2kit.Client.{BucketInfo, RemoteBucket, bucket_info, existence, select_bucket}
use r2kit.Multipart.Session.{Bucket}
use r2kit.Object.Listing.{ListObjectsRequest, ListObjectsOutput}

module _ {S : Type 0} (system_time : ℤ → Option ℕ)
    (list : S → Result (List RemoteBucket) SdkError × S) where
  -- `R2Client::list_buckets`
  unfoldable pub list_buckets : Remote S (List BucketInfo)
  unfolding bucket_info traverse
  list_buckets = do
    buckets ← send list (remote "ListBuckets")
    lift (traverse (bucket_info system_time) buckets)

module _ {S : Type 0} (request : Text → S → Result (Unit {0}) SdkError × S) where
  -- `R2Client::create_bucket`
  unfoldable pub create_bucket : Text → Remote S Bucket
  unfolding new_bucket_name
  create_bucket name = do
    name ← lift (new_bucket_name name)
    send (request name.text) (remote "CreateBucket")
    lift (ok (record { name = name }))

  -- `R2Client::delete_bucket`
  unfoldable pub delete_bucket : Text → Remote S (Unit {0})
  unfolding new_bucket_name
  delete_bucket name = do
    name ← lift (new_bucket_name name)
    send (request name.text) (remote "DeleteBucket")

  -- The match on the answer of `HeadBucket`.
  abbrev pub answered : Result (Unit {0}) SdkError × S → Outcome S Bool
  unfolding existence
  answered (reply, t) = finished (existence reply) t

  -- `R2Client::bucket_exists`
  unfoldable pub bucket_exists : Text → Remote S Bool
  unfolding new_bucket_name answered
  bucket_exists name = do name ← lift (new_bucket_name name); λ s. answered (request name.text s)

module _ {S : Type 0}
    (list_objects_v2 : ListObjectsRequest → S → Result ListObjectsOutput SdkError × S) where
  -- `Bucket::validate_access`
  unfoldable pub validate_access : Bucket → Remote S (Unit {0})
  validate_access bucket = do
    _ ←
        send
          (list_objects_v2 (record {
            bucket = bucket.name.text;
            prefix = none;
            delimiter = none;
            max_keys = 1;
            continuation_token = none;
          }))
          (remote "ListObjectsV2")
    lift (ok tt)

  -- `R2Client::validate_bucket`
  unfoldable pub validate_bucket : Text → Remote S Bucket
  unfolding select_bucket validate_access
  validate_bucket name = do
    bucket ← lift (select_bucket name)
    validate_access bucket
    lift (ok bucket)
