-- ===== src/Object/Copy/Tests.antt =====
-- The theorems on copies of src/object.rs for one copy between buckets.
use r2kit.Prelude.{
  ℕ, ◌/◌, ◌%◌, ◌||◌, ◌==◌, [], Bool, leb, ltb, if◌then◌else◌, Text, ◌∷◌, arith, ◌≡◌, ◌⊎◌, refl,
  none, some, codes, ok, err,
}
use r2kit.Error.{invalid_input}
use r2kit.Types.{BucketName, ObjectKey, new_bucket_name, is_bucket_byte}
use r2kit.Types.Names.{IsBucketName, new_bucket_name_iff}
use r2kit.Object.Options.{ObjectUploadOptions, default_options}
use r2kit.Object.Copy.{CopyObjectBuilder, CopyObjectRequest, copy, replace}
use r2kit.Object.Copy.Requests.{copy_request, request_of}
use r2kit.Object.Copy.Directives.{KeepsMetadata, ReplacesMetadata, copy_request-metadata}
use r2kit.Object.Copy.Sources.{Encodes, hex_digit, copy_source-injective}
use r2kit.Object.Copy.Encoding.{PercentEncoding, copy_source_encode_set}
use r2kit.Examples.{bucket, codecs}

abbrev encode : (ℕ → Bool) → Text → Text
encode set [] = []
encode set (b ∷ bs) =
    let rest = encode set bs in
    if set b || leb 128 b then b'%' ∷ hex_digit (b / 16) ∷ hex_digit (b % 16) ∷ rest else b ∷ rest

abbrev encoding : PercentEncoding
encoding = record { controls = λ b. ltb b 32 || b == 127; utf8_percent_encode = encode }

abbrev archive : BucketName
archive = record { text = codes "archive" }

abbrev cat : ObjectKey
cat = record { text = codes "cat.png" }

abbrev builder : CopyObjectBuilder
builder = record {
  bucket = bucket;
  source_key = ok cat;
  destination_key = ok cat;
  source_bucket = some (ok archive);
  source_if_match = none;
  source_if_none_match = none;
  source_if_modified_since = none;
  source_if_unmodified_since = none;
  metadata_directive = none;
  metadata_options = some default_options;
}

abbrev request : CopyObjectRequest
request = record {
  bucket = codes "photos";
  key = codes "cat.png";
  copy_source = codes "archive/cat.png";
  copy_source_if_match = none;
  copy_source_if_none_match = none;
  copy_source_if_modified_since = none;
  copy_source_if_unmodified_since = none;
  metadata_directive = replace;
  content_type = none;
  cache_control = none;
  content_disposition = none;
  content_encoding = none;
  content_language = none;
  expires = none;
  metadata = none;
}

requested : copy_request codecs encoding builder ≡ ok request
unfolding copy_request request_of copy_source_encode_set
requested = refl

contradictory :
    copy_request codecs encoding (record builder { metadata_directive = some copy })
    ≡ err (
        invalid_input "metadata_directive"
          "cannot specify upload_options when metadata_directive is Copy")
unfolding copy_request
contradictory = refl

archive-IsBucketName : IsBucketName (codes "archive")
unfolding new_bucket_name is_bucket_byte
archive-IsBucketName = ((new_bucket_name_iff (codes "archive") archive).0 refl).0

copy_request-metadata_example :
    ((builder.metadata_options ≡ none) × KeepsMetadata request)
    ⊎ ((o : ObjectUploadOptions) × (builder.metadata_options ≡ some o)
        × ReplacesMetadata codecs o request)
copy_request-metadata_example = copy_request-metadata codecs encoding builder request requested

encoding-Encodes : Encodes encoding
encoding-Encodes = record {
  empty = λ set. refl;
  stays = λ set b bs kept. rw kept refl;
  escapes = λ set b bs escaped byte. rw escaped refl;
}

-- A key that its encoding changes.
abbrev percent : ObjectKey
percent = record { text = codes "50%" }

copy_source-injective_example : (archive ≡ archive) × (percent ≡ percent)
copy_source-injective_example =
    copy_source-injective encoding archive archive percent percent encoding-Encodes
      archive-IsBucketName archive-IsBucketName (omega arith, (omega arith, (omega arith, tt)))
      (omega arith, (omega arith, (omega arith, tt))) refl
