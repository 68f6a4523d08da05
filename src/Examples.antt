-- ===== src/Examples.antt =====
-- The data that the tests share: an upload of twelve mebibytes in parts of five, and an R2 that answers
-- every request and lists the given parts on one page. Its state counts the requests.
use r2kit.Prelude.{ℕ, ◌+◌, ◌*◌, true, false, none, some, List, [], ◌∷◌, codes, ok, pos, take, drop}
use r2kit.Sdk.{Sdk, RemotePart, ListPartsOutput}
use r2kit.Object.Options.{Codecs, default_options}
use r2kit.Multipart.Plan.{MultipartPlan}
use r2kit.Multipart.Manifest.{UploadedPart, CompletionManifest}
use r2kit.Multipart.Session.{Bucket, PresignedMultipart}
use r2kit.Multipart.Checks.{PresignedMultipartBuilder}
use r2kit.Managed.Source.{Files, Metadata}
use r2kit.Managed.Builder.{ManagedMultipartBuilder}

abbrev pub mib : ℕ
mib = 1_048_576

abbrev pub plan : MultipartPlan
plan = record { file_size = 12 * mib; part_size = 5 * mib; part_count = 3 }

abbrev pub bucket : Bucket
bucket = record { name = record { text = codes "photos" } }

abbrev pub session : PresignedMultipart
session = record {
  bucket = bucket;
  key = codes "cat.png";
  upload_id = codes "upload-1";
  plan = plan;
}

abbrev pub remote_part : ℕ → ℕ → RemotePart
remote_part number size = record {
  part_number = some (pos number);
  size = some (pos size);
  e_tag = some (codes "etag");
}

-- The first and the last part are stored; all parts are.
abbrev pub two_listed : List RemotePart
two_listed = remote_part 3 (2 * mib) ∷ remote_part 1 (5 * mib) ∷ []

abbrev pub all_listed : List RemotePart
all_listed = remote_part 2 (5 * mib) ∷ two_listed

abbrev pub page : List RemotePart → ListPartsOutput
page listed = record { parts = listed; is_truncated = some false; next_part_number_marker = none }

abbrev pub r2 : List RemotePart → Sdk ℕ
r2 listed = record {
  create_multipart_upload = λ request s. (ok (some (codes "upload-1")), s + 1);
  upload_part = λ request s. (ok (some (codes "etag")), s + 1);
  list_parts = λ request s. (ok (page listed), s + 1);
  complete_multipart_upload = λ request s. (ok (some (codes "whole")), s + 1);
  abort_multipart_upload = λ request s. (ok tt, s + 1);
  presign_upload_part = λ request expires. none;
}

abbrev pub part : ℕ → UploadedPart
part n = record { part_number = record { number = n }; etag = codes "etag" }

abbrev pub manifest : CompletionManifest
manifest = record { parts = part 1 ∷ part 2 ∷ part 3 ∷ [] }

abbrev pub codecs : Codecs
codecs = record {
  parse_mime = λ text. some text;
  is_language_tag = λ text. true;
  decode = λ text. some text;
  encode = λ bytes. bytes;
}

abbrev pub builder : PresignedMultipartBuilder
builder = record {
  bucket = bucket;
  key = codes "cat.png";
  file_size = some (12 * mib);
  part_size = some (5 * mib);
  options = default_options;
}

-- A file of three bytes, and its plan.
abbrev pub note : List ℕ
note = 10 ∷ 20 ∷ 30 ∷ []

abbrev pub note_plan : MultipartPlan
note_plan = record { file_size = 3; part_size = 5 * mib; part_count = 1 }

abbrev pub note_metadata : Metadata
note_metadata = record { is_file = true; len = 3; modified = some 7; dev = 1; ino = 2 }

abbrev pub disk : Files ℕ
disk = record {
  metadata = λ path s. some note_metadata;
  open_file = λ path s. true;
  seek = λ path offset s. true;
  read_exact = λ path offset count s. some (take count (drop offset note));
}

abbrev pub managed : ManagedMultipartBuilder
managed = record {
  bucket = bucket;
  key = codes "cat.png";
  part_size = 5 * mib;
  concurrency = 4;
  max_attempts = 3;
  max_buffered_bytes = 20 * mib;
  abort_on_error = true;
  resume = none;
  cancellation = none;
  options = default_options;
}

-- A builder whose upload is cancelled before it starts.
abbrev pub cancelled_upload : ManagedMultipartBuilder
cancelled_upload = record managed { cancellation = some true }
