-- ===== src/Object/Presign.antt =====
-- src/object.rs: presigned downloads and deletions. Signing is a parameter, with the lifetime of the
-- signature; the time of expiry is not modelled.
use r2kit.Prelude.{Option, Text, Result, ◌>>=◌, ◌>>◌, ok_or, Duration}
use r2kit.Error.{Error, presign}
use r2kit.Types.{new_object_key, validate_expiry}
use r2kit.Sdk.{SignedRequest}
use r2kit.Multipart.Session.{Bucket}
use r2kit.Object.Removal.{ObjectRequest}

module _ (sign : ObjectRequest → Duration → Option SignedRequest) where
  -- `Bucket::presign_get`
  unfoldable pub presign_get : Bucket → Text → Duration → Result SignedRequest Error
  unfolding new_object_key validate_expiry
  presign_get bucket key expires_in = do
    key ← new_object_key key
    validate_expiry expires_in
    ok_or (sign (record { bucket = bucket.name.text; key = key.text }) expires_in) presign

  -- `Bucket::presign_delete`
  unfoldable pub presign_delete : Bucket → Text → Duration → Result SignedRequest Error
  unfolding new_object_key validate_expiry
  presign_delete bucket key expires_in = do
    key ← new_object_key key
    validate_expiry expires_in
    ok_or (sign (record { bucket = bucket.name.text; key = key.text }) expires_in) presign
