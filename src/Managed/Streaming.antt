-- ===== src/Managed/Streaming.antt =====
-- src/managed.rs: the managed upload of a stream of bytes. The reader is a parameter: what reading
-- exactly so many bytes gives, and the reader after it. Its task is followed to its end before the
-- uploads, which end in the order `schedule`: that the two overlap is `Managed/Buffers`'s matter. The
-- file system is only passed on to what `upload_file` shares with this. `interrupt` is as in
-- `Managed/Upload`.
pub mod Reads
pub mod Ends
pub mod Succeeds
pub mod Uploads
mod Tests
use r2kit.Prelude.{
  ℕ, zero, suc, ◌+◌, ◌-◌, min, Bool, true, false, Option, none, some, List, [], ◌∷◌, Text, Result,
  ok, err, reject, ◌==◌, is_some, length, u16_mod, ◌%◌,
}
use r2kit.BTreeMap.{nil, into_values}
use r2kit.Error.{Error, invalid_input, io, cancelled}
use r2kit.Types.{ObjectKey, new_object_key}
use r2kit.Sdk.{Sdk, Outcome, finished, unfinished, Remote, ◌>>=◌, ◌>>◌, lift}
use r2kit.Object.Options.{Codecs}
use r2kit.Multipart.Plan.{PartNumber, part_number_try_from}
use r2kit.Multipart.Manifest.{UploadedPart, try_from_parts}
use r2kit.Multipart.Session.{PresignedMultipart}
use r2kit.Multipart.Checks.{PresignedMultipartBuilder}
use r2kit.Multipart.Upload.{create, complete}
use r2kit.Managed.Builder.{ManagedMultipartBuilder, validate_managed}
use r2kit.Managed.Source.{Files}
use r2kit.Managed.Work.{ManagedUploadResult, ManagedUploadError, before_start, insert_all}
use r2kit.Managed.Upload.{upload_part_with_retry, is_cancelled, settle, interrupted}

-- `tokio::io::AsyncRead` with `read_exact`, for a buffer of so many bytes.
pub record Reader (R : Type 0) : Type 0 where
  pub read_exact : ℕ → R → Option (List ℕ × R)

-- A part that the reader's task sends: its number and its bytes.
abbrev pub Chunk : Type 0
Chunk = PartNumber × List ℕ

-- What the reader's task has sent when it ends, and its result.
abbrev pub Sent : Type 0
Sent = List Chunk × Result (Unit {0}) Error

abbrev pub sending : Chunk → Option Sent → Option Sent
sending chunk none = none
sending chunk (some (chunks, result)) = some (chunk ∷ chunks, result)

-- The loop of the reader's task; `none` means that the fuel ran out.
unfoldable pub read_chunks : {R : Type 0} → Reader R → ℕ → ℕ → ℕ → ℕ → R → Option Sent
unfolding part_number_try_from
read_chunks reader part_size zero remaining number r = none
read_chunks reader part_size (suc fuel) remaining number r = elim (remaining == 0) [
  | true ↦ some ([], ok tt)
  | false ↦
      let current_part_size = min remaining part_size in
      elim (reader.read_exact current_part_size r) [
        | none ↦ some ([], err (io "read_exact"))
        | some (buf, rest) ↦ elim (part_number_try_from number) [
          | err e ↦ some ([], err (invalid_input "part_number" "exceeded maximum parts"))
          | ok part_number ↦
              sending (part_number, buf)
                (read_chunks reader part_size fuel (remaining - current_part_size) (number + 1)
                  rest)
        ]
      ]
]

-- `presigned_multipart(&self.key)?` and its setters, for the key that its check gives.
abbrev pub session_builder : ManagedMultipartBuilder → ObjectKey → ℕ → PresignedMultipartBuilder
session_builder b key file_size = record {
  bucket = b.bucket;
  key = key.text;
  file_size = some file_size;
  part_size = some b.part_size;
  options = b.options;
}

abbrev pub reject_resume : ManagedMultipartBuilder → Result (Unit {0}) Error
reject_resume b = reject (is_some b.resume) (
    invalid_input "resume"
      "streaming uploads cannot resume an existing multipart session; use upload_file for resumable transfers")

module _ {S R : Type 0} (sdk : Sdk S) (files : Files S) (random : ℕ → ℕ → ℕ)
    (reader : Reader R) where
  -- The uploads and `try_collect`: the first error ends them.
  unfoldable pub upload_chunks : ℕ → PresignedMultipart → List Chunk → Remote S (List UploadedPart)
  upload_chunks max_attempts session [] = lift (ok [])
  upload_chunks max_attempts session ((number, bytes) ∷ chunks) = do
    part ← upload_part_with_retry sdk files random max_attempts session number bytes
    parts ← upload_chunks max_attempts session chunks
    lift (ok (part ∷ parts))

  -- `run_stream` after the uploads: the result of the reader's task, and the completion.
  unfoldable pub complete_stream :
      PresignedMultipart
      → Result (Unit {0}) Error
      → List UploadedPart
      → Remote S ManagedUploadResult
  complete_stream session read uploaded = do
    lift read
    completion ← lift (try_from_parts (into_values (insert_all uploaded nil)))
    object ← complete sdk session completion
    lift (
        ok (record {
          object = object;
          file_size = session.plan.file_size;
          part_count = session.plan.part_count;
          uploaded_parts = length uploaded % u16_mod;
          reused_parts = 0;
        }))

  -- `run_stream` when the reader's task has ended.
  unfoldable pub finish_stream :
      (List Chunk → List Chunk)
      → ManagedMultipartBuilder
      → PresignedMultipart
      → Option Sent
      → Remote S ManagedUploadResult
  unfolding upload_chunks complete_stream
  finish_stream schedule b session none = λ s. unfinished
  finish_stream schedule b session (some (chunks, read)) =
      upload_chunks b.max_attempts session (schedule chunks) >>= complete_stream session read

  -- `ManagedMultipartBuilder::run_stream`. The loop of the reader's task has a pass for each planned
  -- part, and one that ends it.
  unfoldable pub run_stream :
      (List Chunk → List Chunk)
      → ManagedMultipartBuilder
      → PresignedMultipart
      → R
      → Remote S ManagedUploadResult
  unfolding read_chunks finish_stream
  run_stream schedule b session r = finish_stream schedule b session (
      read_chunks reader session.plan.part_size (session.plan.part_count + 1) session.plan.file_size
        1 r)

  -- The checks of `upload_stream`, and its session.
  unfoldable pub start_stream : Codecs → ManagedMultipartBuilder → ℕ → Remote S PresignedMultipart
  unfolding validate_managed new_object_key
  start_stream codecs b file_size = do
    lift (validate_managed codecs b)
    lift (reject (is_cancelled sdk files random b.cancellation) cancelled)
    lift (reject_resume b)
    key ← lift (new_object_key b.key)
    create sdk codecs (session_builder b key file_size)

  abbrev pub stream_or_cancel :
      (List Chunk → List Chunk)
      → (S → Option S)
      → ManagedMultipartBuilder
      → PresignedMultipart
      → R
      → Remote S ManagedUploadResult
  stream_or_cancel schedule interrupt b session r s =
      elim (interrupted sdk files random b interrupt s) [
        | some t ↦ finished (err cancelled) t
        | none ↦ run_stream schedule b session r s
      ]

  -- `ManagedMultipartBuilder::upload_stream`; `none` means that a loop ran out of fuel.
  unfoldable pub upload_stream :
      (List Chunk → List Chunk)
      → (S → Option S)
      → Codecs
      → ManagedMultipartBuilder
      → R
      → ℕ
      → S
      → Option (Result ManagedUploadResult ManagedUploadError × S)
  unfolding start_stream
  upload_stream schedule interrupt codecs b r file_size s =
      elim (start_stream codecs b file_size s) [
        | unfinished ↦ none
        | finished started t ↦ elim started [
          | err error ↦ some (err (before_start error), t)
          | ok session ↦
              settle sdk files random b session (stream_or_cancel schedule interrupt b session r t)
        ]
      ]
