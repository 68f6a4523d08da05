-- ===== src/Object/Copy/Sends.antt =====
-- src/object.rs: the copy itself. The SDK's request is a parameter.
use r2kit.Object.Copy.Encoding.{PercentEncoding}
use r2kit.Prelude.{ℕ, Option, Text, Result, ok, ok_or, ℤ}
use r2kit.Error.{SdkError, service, map_object_error}
use r2kit.Sdk.{Remote, ◌>>=◌, lift, send}
use r2kit.Object.Options.{Codecs}
use r2kit.Object.Listing.{optional_system_time}
use r2kit.Multipart.Session.{Bucket}
use r2kit.Object.Copy.{
  CopyObjectBuilder, CopyObjectRequest, CopyObjectResult, RemoteCopy, new_copy_object,
}
use r2kit.Object.Copy.Requests.{copy_request}

module _ {S : Type 0} (codecs : Codecs) (encoding : PercentEncoding) (system_time : ℤ → Option ℕ)
    (copy_object : CopyObjectRequest → S → Result (Option RemoteCopy) SdkError × S) where
  -- `CopyObjectBuilder::send`
  unfoldable pub send_copy : CopyObjectBuilder → Remote S CopyObjectResult
  unfolding copy_request optional_system_time
  send_copy b = do
    request ← lift (copy_request codecs encoding b)
    output ← send (copy_object request) (map_object_error "CopyObject")
    result ← lift (ok_or output (service "CopyObject"))
    last_modified ← lift (optional_system_time system_time result.last_modified "CopyObject")
    lift (ok (record { etag = result.e_tag; last_modified = last_modified }))

  -- `Bucket::copy`
  unfoldable pub copy_within : Bucket → Text → Text → Remote S CopyObjectResult
  unfolding send_copy new_copy_object
  copy_within bucket source_key destination_key =
      send_copy (new_copy_object bucket source_key destination_key)
