-- ===== src/Object/Get.antt =====
-- src/object.rs: the builders of downloads and inspections, with what they check, the request they make
-- and what they read of the reply. The conversions of dates are parameters.
pub mod Sends
pub mod Requests
mod Tests
use r2kit.Prelude.{
  ℕ, String, Option, none, some, List, [], ◌∷◌, Text, Result, ok, err, ◌>>=◌, ◌>>◌, ok_or, ℤ,
}
use r2kit.BTreeMap.{BTreeMap, nil, put, text_ord}
use r2kit.Error.{Error, service}
use r2kit.Types.{ObjectKey, new_object_key}
use r2kit.Object.Options.{validate_metadata_header}
use r2kit.Object.Range.{ByteRange, as_header_value, validate_range}
use r2kit.Object.Listing.{non_negative_size, optional_system_time}
use r2kit.Multipart.Session.{Bucket}

pub record ObjectMetadata : Type 0 where
  pub size : ℕ
  pub etag : Option Text
  pub content_type : Option Text
  pub cache_control : Option Text
  pub content_disposition : Option Text
  pub content_encoding : Option Text
  pub content_language : Option Text
  pub expires : Option ℕ
  pub last_modified : Option ℕ
  pub custom : BTreeMap Text Text

pub record GetObjectBuilder : Type 0 where
  pub bucket : Bucket
  pub key : Result ObjectKey Error
  pub range : Option ByteRange
  pub if_match : Option Text
  pub if_none_match : Option Text
  pub if_modified_since : Option ℕ
  pub if_unmodified_since : Option ℕ

-- `GetObjectBuilder::new`
unfoldable pub new_get_object : Bucket → Text → GetObjectBuilder
unfolding new_object_key
new_get_object bucket key = record {
  bucket = bucket;
  key = new_object_key key;
  range = none;
  if_match = none;
  if_none_match = none;
  if_modified_since = none;
  if_unmodified_since = none;
}

pub record HeadObjectBuilder : Type 0 where
  pub bucket : Bucket
  pub key : Result ObjectKey Error
  pub if_match : Option Text
  pub if_none_match : Option Text
  pub if_modified_since : Option ℕ
  pub if_unmodified_since : Option ℕ

-- `HeadObjectBuilder::new`
unfoldable pub new_head_object : Bucket → Text → HeadObjectBuilder
unfolding new_object_key
new_head_object bucket key = record {
  bucket = bucket;
  key = new_object_key key;
  if_match = none;
  if_none_match = none;
  if_modified_since = none;
  if_unmodified_since = none;
}

-- The requests. A `DateTime` made of a `SystemTime` is that time.
pub record GetObjectRequest : Type 0 where
  pub bucket : Text
  pub key : Text
  pub range : Option Text
  pub if_match : Option Text
  pub if_none_match : Option Text
  pub if_modified_since : Option ℕ
  pub if_unmodified_since : Option ℕ

pub record HeadObjectRequest : Type 0 where
  pub bucket : Text
  pub key : Text
  pub if_match : Option Text
  pub if_none_match : Option Text
  pub if_modified_since : Option ℕ
  pub if_unmodified_since : Option ℕ

-- What the code reads of a reply, besides the body of a download.
pub record ObjectHeaders : Type 0 where
  pub content_length : Option ℤ
  pub e_tag : Option Text
  pub content_type : Option Text
  pub cache_control : Option Text
  pub content_disposition : Option Text
  pub content_encoding : Option Text
  pub content_language : Option Text
  pub expires_string : Option Text
  pub last_modified : Option ℤ
  pub metadata : Option (List (Text × Text))

abbrev checked_range : Option ByteRange → Result (Unit {0}) Error
checked_range none = ok tt
checked_range (some range) = validate_range range

abbrev pub checked_header : String → Option Text → Result (Unit {0}) Error
checked_header field none = ok tt
checked_header field (some value) = validate_metadata_header field value

abbrev pub header_value : Option ByteRange → Option Text
header_value none = none
header_value (some range) = some (as_header_value range)

-- The checks of `GetObjectBuilder::send`, and the request it makes.
unfoldable pub get_request : GetObjectBuilder → Result GetObjectRequest Error
unfolding validate_range validate_metadata_header as_header_value
get_request b = do
  key ← b.key
  checked_range b.range
  checked_header "if_match" b.if_match
  checked_header "if_none_match" b.if_none_match
  ok (record {
    bucket = b.bucket.name.text;
    key = key.text;
    range = header_value b.range;
    if_match = b.if_match;
    if_none_match = b.if_none_match;
    if_modified_since = b.if_modified_since;
    if_unmodified_since = b.if_unmodified_since;
  })

-- The checks of `HeadObjectBuilder::send`, and the request it makes.
unfoldable pub head_request : HeadObjectBuilder → Result HeadObjectRequest Error
unfolding validate_metadata_header
head_request b = do
  key ← b.key
  checked_header "if_match" b.if_match
  checked_header "if_none_match" b.if_none_match
  ok (record {
    bucket = b.bucket.name.text;
    key = key.text;
    if_match = b.if_match;
    if_none_match = b.if_none_match;
    if_modified_since = b.if_modified_since;
    if_unmodified_since = b.if_unmodified_since;
  })

-- `metadata.unwrap_or_default().into_iter().collect()`
abbrev collect : List (Text × Text) → BTreeMap Text Text → BTreeMap Text Text
collect [] map = map
collect ((key, value) ∷ rest) map = collect rest (put key value map)

abbrev pub custom_of : Option (List (Text × Text)) → BTreeMap Text Text
custom_of none = nil
custom_of (some pairs) = collect pairs nil

-- `DateTime::from_str` of an HTTP date, and `SystemTime::try_from`.
module _ (http_date : Text → Option ℤ) (system_time : ℤ → Option ℕ) where
  unfoldable pub optional_http_date : Option Text → String → Result (Option ℕ) Error
  optional_http_date none operation = ok none
  optional_http_date (some value) operation = do
    date ← ok_or (http_date value) (service operation)
    time ← ok_or (system_time date) (service operation)
    ok (some time)

  -- What `send` makes of a reply.
  unfoldable pub object_metadata : String → ObjectHeaders → Result ObjectMetadata Error
  unfolding optional_http_date non_negative_size optional_system_time put
  object_metadata operation output = do
    size ← non_negative_size output.content_length operation
    expires ← optional_http_date output.expires_string operation
    last_modified ← optional_system_time system_time output.last_modified operation
    ok (record {
      size = size;
      etag = output.e_tag;
      content_type = output.content_type;
      cache_control = output.cache_control;
      content_disposition = output.content_disposition;
      content_encoding = output.content_encoding;
      content_language = output.content_language;
      expires = expires;
      last_modified = last_modified;
      custom = custom_of output.metadata;
    })
