-- ===== src/Managed/Streaming/Ends.antt =====
-- `upload_stream` of src/managed.rs comes to an end, and how it leaves the upload on R2 then.
use r2kit.Prelude.{ℕ, ◌≡◌, Result, ok, err, ◌⊎◌}
use r2kit.Error.{Error}
use r2kit.Sdk.{Sdk, finished}
use r2kit.Object.Options.{Codecs}
use r2kit.Multipart.Session.{PresignedMultipart}
use r2kit.Multipart.Reconcile.Ends.{Ends}
use r2kit.Managed.Builder.{ManagedMultipartBuilder}
use r2kit.Managed.Source.{Files}
use r2kit.Managed.Work.{ManagedUploadResult, ManagedUploadError, before_start}
use r2kit.Managed.Upload.Ends.{Recoverable}
use r2kit.Managed.Streaming.{Reader, start_stream}

module _ {S R : Type 0} (sdk : Sdk S) (files : Files S) (random : ℕ → ℕ → ℕ)
    (reader : Reader R) where
  -- How an upload ends after its session was created.
  abbrev pub Settled :
      ManagedMultipartBuilder
      → PresignedMultipart
      → Result ManagedUploadResult ManagedUploadError
      → S
      → Type 0
  Settled b session outcome u =
      ((result : ManagedUploadResult) × (outcome ≡ ok result))
      ⊎ ((e : ManagedUploadError) × (outcome ≡ err e) × Recoverable sdk files random b session e u)

  -- How `upload_stream` ends: as `start_stream` failed, with that error and no snapshot, and nothing more
  -- was sent; or after it gave a session.
  abbrev pub Ended :
      Codecs
      → ManagedMultipartBuilder
      → ℕ
      → S
      → Result ManagedUploadResult ManagedUploadError
      → S
      → Type 0
  Ended codecs b file_size s outcome u =
      ((error : Error) × (outcome ≡ err (before_start error))
        × (start_stream sdk files random reader codecs b file_size s ≡ finished (err error) u))
      ⊎ ((session : PresignedMultipart) × (t : S) × (start_stream sdk files random reader codecs b
              file_size s
            ≡ finished (ok session) t)
          × Settled b session outcome u)
