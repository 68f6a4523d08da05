-- ===== src/Object/Listing.antt =====
-- src/object.rs: the request for a page of a listing and what `ListObjectsBuilder::send` makes of the
-- reply. The conversion of a date to a system time is a parameter.
pub mod Pages
pub mod Replies
pub mod Stream
mod Tests
use r2kit.Prelude.{
  ℕ, Bool, true, false, ◌||◌, String, Option, none, some, List, [], ◌∷◌, Text, ltb, ◌==◌, Result,
  ok, err, ◌>>=◌, ◌>>◌, reject, ok_or, map_err, length, is_empty, is_some_and, traverse, ℤ, to_u64?,
}
use r2kit.Error.{Error, invalid_input, validation, service, list_limit_out_of_range}
use r2kit.Types.{max_key_bytes, validate_prefix}
use r2kit.Multipart.Session.{Bucket}

abbrev pub max_list_keys : ℕ
max_list_keys = 1_000

-- A `SystemTime` and a `DateTime` are numbers of nanoseconds; the second may lie before the epoch.
pub record ObjectSummary : Type 0 where
  pub key : Text
  pub size : ℕ
  pub etag : Option Text
  pub last_modified : Option ℕ

pub record ObjectPage : Type 0 where
  pub objects : List ObjectSummary
  pub common_prefixes : List Text
  pub next_continuation_token : Option Text

pub record ListObjectsBuilder : Type 0 where
  pub bucket : Bucket
  pub prefix : Option Text
  pub delimiter : Option Text
  pub limit : ℕ
  pub continuation_token : Option Text

-- `Bucket::list`
unfoldable pub list : Bucket → ListObjectsBuilder
list bucket = record {
  bucket = bucket;
  prefix = none;
  delimiter = none;
  limit = max_list_keys;
  continuation_token = none;
}

-- `ListObjectsBuilder::continuation_token`
abbrev pub set_continuation_token : ListObjectsBuilder → Text → ListObjectsBuilder
set_continuation_token b value = record b { continuation_token = some value }

abbrev checked_prefix : Option Text → Result (Unit {0}) Error
checked_prefix none = ok tt
checked_prefix (some prefix) = validate_prefix prefix

-- What `send` checks before the request.
unfoldable pub validate_list : ListObjectsBuilder → Result (Unit {0}) Error
unfolding validate_prefix
validate_list b = do
  reject (b.limit == 0 || ltb max_list_keys b.limit)
      (validation (list_limit_out_of_range b.limit 1 max_list_keys))
  checked_prefix b.prefix
  reject (is_some_and b.delimiter is_empty) (invalid_input "delimiter" "must not be empty")
  reject (is_some_and b.delimiter (λ d. ltb max_key_bytes (length d)))
      (invalid_input "delimiter" "must not exceed 1,024 UTF-8 bytes")
  reject (is_some_and b.continuation_token is_empty)
      (invalid_input "continuation_token" "must not be empty")

pub record ListObjectsRequest : Type 0 where
  pub bucket : Text
  pub prefix : Option Text
  pub delimiter : Option Text
  pub max_keys : ℕ
  pub continuation_token : Option Text

pub record RemoteObject : Type 0 where
  pub key : Option Text
  pub size : Option ℤ
  pub e_tag : Option Text
  pub last_modified : Option ℤ

pub record ListObjectsOutput : Type 0 where
  pub contents : List RemoteObject
  pub common_prefixes : List (Option Text)
  pub is_truncated : Option Bool
  pub next_continuation_token : Option Text

abbrev pub list_request : ListObjectsBuilder → ListObjectsRequest
list_request b = record {
  bucket = b.bucket.name.text;
  prefix = b.prefix;
  delimiter = b.delimiter;
  max_keys = b.limit;
  continuation_token = b.continuation_token;
}

abbrev to_size : Option ℤ → Option ℕ
to_size none = none
to_size (some size) = to_u64? size

unfoldable pub non_negative_size : Option ℤ → String → Result ℕ Error
non_negative_size value operation = ok_or (to_size value) (service operation)

-- The match on the token of a truncated page.
abbrev pub nonempty_token : Option Text → Result (Option Text) Error
nonempty_token none = err (service "ListObjectsV2")
nonempty_token (some []) = err (service "ListObjectsV2")
nonempty_token (some (byte ∷ token)) = ok (some (byte ∷ token))

abbrev pub is_truncated : ListObjectsOutput → Bool
is_truncated output = elim output.is_truncated [ none ↦ false | some b ↦ b ]

unfoldable pub next_token : ListObjectsOutput → Result (Option Text) Error
next_token output = elim (is_truncated output) [
  | true ↦ nonempty_token output.next_continuation_token
  | false ↦ ok none
]

-- `SystemTime::try_from(DateTime)`
module _ (system_time : ℤ → Option ℕ) where
  unfoldable pub optional_system_time : Option ℤ → String → Result (Option ℕ) Error
  optional_system_time none operation = ok none
  optional_system_time (some value) operation =
      ok_or (system_time value) (service operation) >>= λ time. ok (some time)

  unfoldable pub object_summary : RemoteObject → Result ObjectSummary Error
  unfolding optional_system_time non_negative_size
  object_summary object = do
    key ← ok_or object.key (service "ListObjectsV2")
    size ← non_negative_size object.size "ListObjectsV2"
    last_modified ← optional_system_time object.last_modified "ListObjectsV2"
    ok (record { key = key; size = size; etag = object.e_tag; last_modified = last_modified })

  -- What `send` makes of a reply.
  unfoldable pub object_page : ListObjectsOutput → Result ObjectPage Error
  unfolding object_summary next_token
  object_page output = do
    objects ← traverse object_summary output.contents
    common_prefixes ←
        traverse (λ prefix. ok_or prefix (service "ListObjectsV2")) output.common_prefixes
    token ← next_token output
    ok (record {
      objects = objects;
      common_prefixes = common_prefixes;
      next_continuation_token = token;
    })
