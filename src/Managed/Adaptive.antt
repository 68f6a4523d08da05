-- ===== src/Managed/Adaptive.antt =====
-- src/managed.rs: `UploadFileBuilder::send`, which puts a small file with one request and uploads a large
-- one in parts. The world is that of Managed.Upload; `interrupt` says whether the cancellation signal wins.
-- Bodies are a parameter: those made of bytes, and those that stream a file.
pub mod Single
pub mod Unchanged
mod Tests
use r2kit.Prelude.{
  ℕ, ◌≡◌, Bool, true, false, not, Option, none, some, List, [], ◌∷◌, Text, Result, ok, err, reject,
  ok_or, ◌==◌, ltb,
}
use r2kit.Error.{Error, SdkError, invalid_input, io, cancelled}
use r2kit.Types.{ObjectKey}
use r2kit.Sdk.{Sdk, Outcome, finished, unfinished, Remote, ◌>>=◌, ◌>>◌, lift}
use r2kit.Object.Options.{Codecs, ChecksumAlgorithm}
use r2kit.Object.Put.{PutObjectRequest}
use r2kit.Object.Put.Sends.{PutObjectResult, put_bytes_with_options, put_stream_with_options}
use r2kit.Object.Removal.{ObjectRequest, delete}
use r2kit.Managed.Builder.{
  UploadFileBuilder, validate_upload_file, Strategy, put_empty, put_single, multipart, strategy_for,
}
use r2kit.Managed.Source.{Files, Metadata, SourceFileFingerprint, from_metadata, matches}
use r2kit.Managed.Pipeline.{Job}
use r2kit.Managed.Work.{ManagedUploadResult, ManagedUploadError}
use r2kit.Managed.Upload.{upload_file, stat, is_cancelled}

pub data TransferStrategyUsed : Type 0 where
  single_put : TransferStrategyUsed
  in_parts : ℕ → TransferStrategyUsed

pub record TransferResult : Type 0 where
  pub key : ObjectKey
  pub etag : Text
  pub size : ℕ
  pub strategy : TransferStrategyUsed

-- The requests and bodies that a single upload uses.
pub record SinglePut (S Body : Type 0) : Type 0 where
  pub put_object : PutObjectRequest → Body → S → Result (Option Text) SdkError × S
  pub delete_object : ObjectRequest → S → Result (Unit {0}) SdkError × S
  pub bytes_body : List ℕ → Body
  pub file_body : Text → ℕ → S → Option Body
  pub compute_checksum : Option (List ℕ → ChecksumAlgorithm → Text)

-- `unwrap_or_default`
abbrev pub text_or_empty : Option Text → Text
text_or_empty none = []
text_or_empty (some text) = text

-- The state after a request whose result is ignored.
abbrev pub after : {S A : Type 0} → Outcome S A → S → S
after (finished r t) s = t
after unfinished s = s

abbrev pub of_managed :
    {S : Type 0}
    → ObjectKey
    → Option (Result ManagedUploadResult ManagedUploadError × S)
    → Outcome S TransferResult
of_managed key none = unfinished
of_managed key (some (err e, s)) = finished (err e.error) s
of_managed key (some (ok r, s)) =
    finished
      (ok (record {
        key = key;
        etag = text_or_empty r.object.etag;
        size = r.file_size;
        strategy = in_parts r.part_count;
      }))
      s

module _ {S Body : Type 0} (sdk : Sdk S) (single : SinglePut S Body) (files : Files S)
    (random : ℕ → ℕ → ℕ) (interrupt : S → Option S) where
  -- `select(put, cancelled)`, where there is a cancellation token.
  unfoldable pub put_or_cancel : Option Bool → Remote S PutObjectResult → Remote S PutObjectResult
  put_or_cancel none put s = put s
  put_or_cancel (some signal) put s = elim (interrupt s) [
    | some t ↦ finished (err cancelled) t
    | none ↦ put s
  ]

  -- The match on the second look at the file: if it changed, the object is deleted.
  unfoldable pub decide :
      UploadFileBuilder
      → ObjectKey
      → ℕ
      → SourceFileFingerprint
      → PutObjectResult
      → Metadata
      → Remote S TransferResult
  decide b key size fingerprint put_res final_metadata = elim (matches fingerprint final_metadata) [
    | false ↦ λ s.
        finished (err (invalid_input "path" "file changed during upload"))
          (after (delete single.delete_object b.bucket key.text s) s)
    | true ↦ lift (
        ok (record {
          key = key;
          etag = text_or_empty put_res.etag;
          size = size;
          strategy = single_put;
        }))
  ]

  -- What follows a single upload.
  unfoldable pub finish_single :
      UploadFileBuilder
      → ObjectKey
      → ℕ
      → SourceFileFingerprint
      → PutObjectResult
      → Remote S TransferResult
  finish_single b key size fingerprint put_res = do
    final_metadata ← stat sdk files random b.path
    decide b key size fingerprint put_res final_metadata

  -- The upload by the strategy that the size of the file gives.
  unfoldable pub transfer :
      ℕ
      → (List Job → List Job)
      → Codecs
      → UploadFileBuilder
      → ObjectKey
      → Metadata
      → Strategy
      → Remote S TransferResult
  transfer fuel schedule codecs b key metadata put_empty = do
    put_res ← put_or_cancel b.cancellation (
        put_bytes_with_options codecs
          (λ request bytes. single.put_object request (single.bytes_body bytes))
          single.compute_checksum b.bucket key.text [] b.options)
    finish_single b key 0 (from_metadata metadata) put_res
  transfer fuel schedule codecs b key metadata put_single = do
    body ← λ s. finished (ok_or (single.file_body b.path metadata.len s) (io "open")) s
    put_res ← put_or_cancel b.cancellation (
        put_stream_with_options codecs single.put_object b.bucket key.text body metadata.len
          b.options)
    finish_single b key metadata.len (from_metadata metadata) put_res
  transfer fuel schedule codecs b key metadata (multipart mp) =
      λ s. of_managed key (upload_file sdk files random fuel schedule interrupt codecs mp b.path s)

  -- `UploadFileBuilder::send`
  unfoldable pub send_upload :
      ℕ → (List Job → List Job) → Codecs → UploadFileBuilder → Remote S TransferResult
  send_upload fuel schedule codecs b = do
    lift (validate_upload_file codecs b)
    key ← lift b.key
    lift (reject (is_cancelled sdk files random b.cancellation) cancelled)
    metadata ← stat sdk files random b.path
    lift (reject (not metadata.is_file) (invalid_input "path" "must identify a regular file"))
    strategy ← lift (strategy_for b key metadata.len)
    transfer fuel schedule codecs b key metadata strategy
