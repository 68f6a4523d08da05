-- ===== src/Multipart/Upload.antt =====
-- src/multipart.rs: creating a multipart upload, presigning its parts, completing and aborting it.
pub mod Completes
pub mod Creates
pub mod Ends
use r2kit.Prelude.{ℕ, Option, List, Text, map, ok, ok_or}
use r2kit.Error.{service, remote}
use r2kit.Sdk.{Sdk, Remote, ◌>>=◌, ◌>>◌, lift, send}
use r2kit.Object.Options.{Codecs}
use r2kit.Multipart.Manifest.{CompletionManifest}
use r2kit.Multipart.Session.{PresignedMultipart}
use r2kit.Multipart.Reconcile.{reconcile}
use r2kit.Multipart.Checks.{
  PresignedMultipartBuilder, create_request, plan_upload, check_manifest, check_reconciled,
}

pub record CompletedObject : Type 0 where
  pub etag : Option Text

module _ {S : Type 0} (sdk : Sdk S) where
  -- `PresignedMultipartBuilder::create`
  unfoldable pub create : Codecs → PresignedMultipartBuilder → Remote S PresignedMultipart
  create codecs b = do
    plan ← lift (plan_upload codecs b)
    output ← send (sdk.create_multipart_upload (create_request b)) (remote "CreateMultipartUpload")
    upload_id ← lift (ok_or output (service "CreateMultipartUpload"))
    lift (ok (record { bucket = b.bucket; key = b.key; upload_id = upload_id; plan = plan }))

  -- `complete`
  unfoldable pub complete : PresignedMultipart → CompletionManifest → Remote S CompletedObject
  complete session manifest = do
    lift (check_manifest session.plan manifest)
    etag ←
        send
          (sdk.complete_multipart_upload (record {
            bucket = session.bucket.name.text;
            key = session.key;
            upload_id = session.upload_id;
            parts = map (λ part. (part.part_number.number, part.etag)) manifest.parts;
          }))
          (remote "CompleteMultipartUpload")
    lift (ok (record { etag = etag }))

  unfoldable pub complete_verified :
      ℕ → PresignedMultipart → CompletionManifest → Remote S CompletedObject
  complete_verified fuel session manifest = do
    reconciliation ← reconcile sdk fuel session
    lift (check_reconciled manifest reconciliation)
    complete session manifest

  unfoldable pub abort : PresignedMultipart → Remote S (Unit {0})
  abort session =
      send
        (sdk.abort_multipart_upload (record {
          bucket = session.bucket.name.text;
          key = session.key;
          upload_id = session.upload_id;
        }))
        (remote "AbortMultipartUpload")
