-- ===== src/Managed/Adaptive/Tests.antt =====
-- The theorem on adaptive uploads of src/managed.rs for a file of three bytes.
use r2kit.Prelude.{ℕ, ◌+◌, ◌*◌, ◌<◌, ◌≡◌, ◌⊎◌, refl, true, none, some, List, [], codes, ok, text_eq}
use r2kit.Sdk.{finished}
use r2kit.Object.Options.{default_options}
use r2kit.Object.Put.Sends.{put_stream_with_options}
use r2kit.Managed.Builder.{UploadFileBuilder, validate_upload_file, validate_numbers, strategy_for}
use r2kit.Managed.Source.{Metadata, matches}
use r2kit.Managed.Adaptive.{
  SinglePut, TransferResult, single_put, send_upload, transfer, put_or_cancel, finish_single,
  decide,
}
use r2kit.Managed.Adaptive.Unchanged.{Kept, send_upload-unchanged}
use r2kit.Examples.{mib, bucket, codecs, disk, note, r2}

abbrev puts : SinglePut ℕ (List ℕ)
puts = record {
  put_object = λ request body s. (ok (some (codes "etag")), s + 1);
  delete_object = λ request s. (ok tt, s + 1);
  bytes_body = λ bytes. bytes;
  file_body = λ path size s. some note;
  compute_checksum = none;
}

abbrev note_upload : UploadFileBuilder
note_upload = record {
  bucket = bucket;
  key = ok (record { text = codes "note" });
  path = codes "note.txt";
  options = default_options;
  threshold = record { bytes = 8 * mib };
  part_size = 8 * mib;
  concurrency = 4;
  max_attempts = 3;
  max_buffered_bytes = 256 * mib;
  cancellation = none;
}

abbrev sent_note : TransferResult
sent_note = record {
  key = record { text = codes "note" };
  etag = codes "etag";
  size = 3;
  strategy = single_put;
}

send_note :
    send_upload (r2 []) puts disk (λ n m. 0) (λ s. none) 0 (λ jobs. jobs) codecs note_upload 7
    ≡ finished (ok sent_note) 8
unfolding send_upload validate_upload_file strategy_for transfer put_or_cancel finish_single decide
    put_stream_with_options matches text_eq validate_numbers
send_note = refl

send_upload-unchanged_example :
    (m : Metadata) × (disk.metadata note_upload.path 7 ≡ some m)
    × (m.is_file ≡ true)
    × ((m.len ≡ 0) ⊎ (m.len < note_upload.threshold.bytes))
    × Kept (r2 []) puts disk (λ n m. 0) (λ s. none) note_upload m sent_note 7 8
send_upload-unchanged_example =
    send_upload-unchanged (r2 []) puts disk (λ n m. 0) (λ s. none) 0 (λ jobs. jobs) codecs
      note_upload 7 8 refl send_note
