-- ===== src/Object/Copy.antt =====
-- src/object.rs: copying an object on the server. Percent-encoding a key, the conversion of a date and
-- the SDK's request are parameters.
pub mod Encoding
pub mod Requests
pub mod Sends
pub mod Directives
pub mod Sources
mod Tests
use r2kit.Object.Copy.Encoding.{PercentEncoding, copy_source_encode_set}
use r2kit.Prelude.{
  ℕ, Bool, true, false, ◌++◌, ◌||◌, ◌∷◌, Option, none, some, Text, Result, ok, err, ok_or, is_some,
  reject, ℤ,
}
use r2kit.BTreeMap.{BTreeMap}
use r2kit.Error.{Error, SdkError, invalid_input, service, map_object_error}
use r2kit.Types.{ObjectKey, BucketName, new_object_key}
use r2kit.Sdk.{Remote, ◌>>=◌, ◌>>◌, lift, send}
use r2kit.Object.Options.{
  Codecs, ObjectUploadOptions, validate, content_type_of, custom_metadata_values,
  validate_metadata_header,
}
use r2kit.Object.Get.{checked_header}
use r2kit.Object.Listing.{optional_system_time}
use r2kit.Multipart.Session.{Bucket}

pub data MetadataDirective : Type 0 where
  copy replace : MetadataDirective

pub record CopyObjectBuilder : Type 0 where
  pub bucket : Bucket
  pub source_key : Result ObjectKey Error
  pub destination_key : Result ObjectKey Error
  pub source_bucket : Option (Result BucketName Error)
  pub source_if_match : Option Text
  pub source_if_none_match : Option Text
  pub source_if_modified_since : Option ℕ
  pub source_if_unmodified_since : Option ℕ
  pub metadata_directive : Option MetadataDirective
  pub metadata_options : Option ObjectUploadOptions

-- `CopyObjectBuilder::new`
unfoldable pub new_copy_object : Bucket → Text → Text → CopyObjectBuilder
unfolding new_object_key
new_copy_object bucket source_key destination_key = record {
  bucket = bucket;
  source_key = new_object_key source_key;
  destination_key = new_object_key destination_key;
  source_bucket = none;
  source_if_match = none;
  source_if_none_match = none;
  source_if_modified_since = none;
  source_if_unmodified_since = none;
  metadata_directive = none;
  metadata_options = none;
}

pub record CopyObjectRequest : Type 0 where
  pub bucket : Text
  pub key : Text
  pub copy_source : Text
  pub copy_source_if_match : Option Text
  pub copy_source_if_none_match : Option Text
  pub copy_source_if_modified_since : Option ℕ
  pub copy_source_if_unmodified_since : Option ℕ
  pub metadata_directive : MetadataDirective
  pub content_type : Option Text
  pub cache_control : Option Text
  pub content_disposition : Option Text
  pub content_encoding : Option Text
  pub content_language : Option Text
  pub expires : Option ℕ
  pub metadata : Option (BTreeMap Text Text)

-- What the code reads of the reply's result.
pub record RemoteCopy : Type 0 where
  pub e_tag : Option Text
  pub last_modified : Option ℤ

pub record CopyObjectResult : Type 0 where
  pub etag : Option Text
  pub last_modified : Option ℕ

-- `format!("{}/{}", source_bucket_name, utf8_percent_encode(source_key, ..))`
abbrev pub copy_source : PercentEncoding → BucketName → ObjectKey → Text
copy_source encoding bucket key =
    bucket.text
    ++ (b'/' ∷ encoding.utf8_percent_encode (copy_source_encode_set encoding.controls) key.text)

-- The directive that is sent.
unfoldable pub effective_directive :
    Option MetadataDirective → Option ObjectUploadOptions → MetadataDirective
effective_directive (some directive) options = directive
effective_directive none (some options) = replace
effective_directive none none = copy

abbrev pub is_copy : Option MetadataDirective → Bool
is_copy none = false
is_copy (some copy) = true
is_copy (some replace) = false

abbrev pub resolve : Option (Result BucketName Error) → BucketName → Result BucketName Error
resolve none own = ok own
resolve (some name) own = name

-- A field of the options, where there are some.
abbrev pub sent {ℓ} :
    {A : Type ℓ} → (ObjectUploadOptions → Option A) → Option ObjectUploadOptions → Option A
sent field none = none
sent field (some options) = field options
