-- ===== src/Object/Get/Sends.antt =====
-- src/object.rs: the downloads and inspections themselves. The SDK's requests, the body of a download
-- and how it is read are parameters.
use r2kit.Prelude.{ℕ, List, Option, Text, Result, ok, ok_or, ℤ}
use r2kit.Error.{SdkError, service, map_object_error}
use r2kit.Sdk.{Remote, ◌>>=◌, lift, send}
use r2kit.Multipart.Session.{Bucket}
use r2kit.Object.Get.{
  GetObjectBuilder, HeadObjectBuilder, GetObjectRequest, HeadObjectRequest, ObjectHeaders,
  ObjectMetadata, get_request, head_request, object_metadata, new_get_object, new_head_object,
}

pub record DownloadedObject (Body : Type 0) : Type 0 where
  pub metadata : ObjectMetadata
  pub body : Body

pub record ObjectBytes : Type 0 where
  pub metadata : ObjectMetadata
  pub bytes : List ℕ

module _ {S : Type 0} (http_date : Text → Option ℤ) (system_time : ℤ → Option ℕ) where
  module _ {Body : Type 0}
      (get_object : GetObjectRequest → S → Result (ObjectHeaders × Body) SdkError × S) where
    -- `GetObjectBuilder::send`
    unfoldable pub send_get : GetObjectBuilder → Remote S (DownloadedObject Body)
    unfolding get_request object_metadata
    send_get b = do
      request ← lift (get_request b)
      output ← send (get_object request) (map_object_error "GetObject")
      metadata ← lift (object_metadata http_date system_time "GetObject" output.0)
      lift (ok (record { metadata = metadata; body = output.1 }))

    -- `Bucket::get`
    unfoldable pub get : Bucket → Text → Remote S (DownloadedObject Body)
    unfolding send_get new_get_object
    get bucket key = send_get (new_get_object bucket key)

    -- `Bucket::get_bytes`, with what reading the whole body gives.
    unfoldable pub get_bytes : (Body → Option (List ℕ)) → Bucket → Text → Remote S ObjectBytes
    unfolding get
    get_bytes collect bucket key = do
      object ← get bucket key
      bytes ← lift (ok_or (collect object.body) (service "GetObject"))
      lift (ok (record { metadata = object.metadata; bytes = bytes }))

  module _ (head_object : HeadObjectRequest → S → Result ObjectHeaders SdkError × S) where
    -- `HeadObjectBuilder::send`
    unfoldable pub send_head : HeadObjectBuilder → Remote S ObjectMetadata
    unfolding head_request object_metadata
    send_head b = do
      request ← lift (head_request b)
      output ← send (head_object request) (map_object_error "HeadObject")
      lift (object_metadata http_date system_time "HeadObject" output)

    -- `Bucket::head`
    unfoldable pub head : Bucket → Text → Remote S ObjectMetadata
    unfolding send_head new_head_object
    head bucket key = send_head (new_head_object bucket key)
