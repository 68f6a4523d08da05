-- ===== src/Object/Options.antt =====
-- src/object.rs: upload options, their validation, and the metadata that is sent.
use r2kit.Prelude.{
  ℕ, ◌+◌, Bool, true, false, ◌&&◌, ◌||◌, not, String, Option, none, some, List, [], ◌∷◌, Text,
  codes, text_eq, leb, ltb, ◌==◌, if◌then◌else◌, Result, ok, err, ◌>>=◌, ◌>>◌, reject, ok_or, map,
  length, is_empty, all, is_some, is_none, saturating_add_u64,
}
use r2kit.Error.{Error, invalid_input}
use r2kit.Types.{is_ascii_lowercase, is_ascii_digit}
use r2kit.BTreeMap.{BTreeMap, nil, entry, lookup, put, text_ord}

-- What the options use of other crates: the parsers of `mime` and `oxilangtag`, and `base64`.
pub record Codecs : Type 0 where
  pub parse_mime : Text → Option Text
  pub is_language_tag : Text → Bool
  pub decode : Text → Option (List ℕ)
  pub encode : List ℕ → Text

pub data ChecksumAlgorithm : Type 0 where
  crc32 crc32c sha1 sha256 : ChecksumAlgorithm

abbrev pub digest_length : ChecksumAlgorithm → ℕ
digest_length crc32 = 4
digest_length crc32c = 4
digest_length sha1 = 20
digest_length sha256 = 32

-- A `Mime` and a `CacheControl` are known by their printed header values, a `SystemTime` by its
-- nanoseconds since the epoch.
pub record ObjectUploadOptions : Type 0 where
  pub content_type : Option (Result Text Error)
  pub cache_control : Option Text
  pub content_disposition : Option Text
  pub content_encoding : Option Text
  pub content_language : Option Text
  pub expires : Option ℕ
  pub custom : BTreeMap Text Text
  pub if_match : Option Text
  pub if_none_match : Option Text
  pub checksum : Option ChecksumAlgorithm
  pub checksum_value : Option (ChecksumAlgorithm × Text)

abbrev pub default_options : ObjectUploadOptions
default_options = record {
  content_type = none;
  cache_control = none;
  content_disposition = none;
  content_encoding = none;
  content_language = none;
  expires = none;
  custom = nil;
  if_match = none;
  if_none_match = none;
  checksum = none;
  checksum_value = none;
}

-- The getter: a media type that failed to parse is none.
abbrev pub content_type_of : ObjectUploadOptions → Option Text
content_type_of o = elim o.content_type [
  | none ↦ none
  | some r ↦ elim r [ ok mime ↦ some mime | err e ↦ none ]
]

abbrev pub is_empty_map : BTreeMap Text Text → Bool
is_empty_map nil = true
is_empty_map (entry k v m) = false

-- `ObjectUploadOptions::is_empty`
unfoldable pub is_empty_options : ObjectUploadOptions → Bool
is_empty_options o =
    is_none o.content_type
    && is_none o.cache_control
    && is_none o.content_disposition
    && is_none o.content_encoding
    && is_none o.content_language
    && is_none o.expires
    && is_empty_map o.custom
    && is_none o.if_match
    && is_none o.if_none_match
    && is_none o.checksum
    && is_none o.checksum_value

unfoldable pub with_custom_metadata : ObjectUploadOptions → Text → Text → ObjectUploadOptions
unfolding put
with_custom_metadata o key value = record o { custom = put key value o.custom }

unfoldable pub is_header_byte : ℕ → Bool
is_header_byte byte = byte == b'\t' || leb 0x20 byte && leb byte 0x7e

unfoldable pub validate_metadata_header : String → Text → Result (Unit {0}) Error
validate_metadata_header field value = do
  reject (is_empty value) (invalid_input field "must not be empty")
  reject (not (all is_header_byte value))
      (invalid_input field "must contain only visible ASCII or horizontal tabs")

-- `value.split(',')`
unfoldable pub split_commas : Text → List Text
split_commas [] = [] ∷ []
split_commas (c ∷ cs) = add_byte (split_commas cs)
  where
    add_byte : List Text → List Text
    add_byte [] = []
    add_byte (s ∷ ss) = if c == b',' then [] ∷ s ∷ ss else (c ∷ s) ∷ ss

-- `str::trim` on the bytes that a header may hold: the spaces among them are tab and space.
unfoldable pub trim_start : Text → Text
trim_start [] = []
trim_start (c ∷ cs) = let rest = trim_start cs in if c == b'\t' || c == b' ' then rest else c ∷ cs

unfoldable pub trim_end : Text → Text
trim_end [] = []
trim_end (c ∷ cs) = keep (trim_end cs)
  where
    keep : Text → Text
    keep [] = if c == b'\t' || c == b' ' then [] else c ∷ []
    keep (d ∷ ds) = c ∷ d ∷ ds

unfoldable pub trim : Text → Text
unfolding trim_start trim_end
trim s = trim_end (trim_start s)

unfoldable pub to_ascii_lower_byte : ℕ → ℕ
to_ascii_lower_byte c = if leb b'A' c && leb c b'Z' then c + 32 else c

abbrev pub to_ascii_lowercase : Text → Text
to_ascii_lowercase = map to_ascii_lower_byte

abbrev pub starts_with : Text → Text → Bool
starts_with s [] = true
starts_with [] (p ∷ ps) = false
starts_with (c ∷ cs) (p ∷ ps) = c == p && starts_with cs ps

unfoldable pub is_key_byte : ℕ → Bool
unfolding is_ascii_lowercase is_ascii_digit
is_key_byte c =
    is_ascii_lowercase c
    || leb b'A' c && leb c b'Z'
    || is_ascii_digit c
    || c == b'-'
    || c == b'_'
    || c == b'.'

unfoldable pub validate_metadata_key : Text → Result (Unit {0}) Error
validate_metadata_key key = do
  reject (is_empty key) (invalid_input "custom_metadata" "keys must not be empty")
  reject (starts_with (to_ascii_lowercase key) (codes "x-amz-meta-"))
      (invalid_input "custom_metadata" "keys must omit the x-amz-meta- prefix")
  reject (not (all is_key_byte key)) (
      invalid_input "custom_metadata"
        "keys must use ASCII letters, digits, hyphens, underscores, or periods")

-- `for (field, value) in [..] { if let Some(value) = value { .. } }`
unfoldable pub validate_headers : List (String × Option Text) → Result (Unit {0}) Error
validate_headers [] = ok tt
validate_headers ((field, none) ∷ rest) = validate_headers rest
validate_headers ((field, some value) ∷ rest) =
    let later = validate_headers rest in validate_metadata_header field value >> later

-- The loop over the custom metadata: the bytes counted so far, and the keys seen.
unfoldable pub validate_custom : BTreeMap Text Text → ℕ → BTreeMap Text (Unit {0}) → Result ℕ Error
validate_custom nil total_bytes normalized = ok total_bytes
validate_custom (entry name value rest) total_bytes normalized =
    let key = to_ascii_lowercase name in
    let later =
      validate_custom rest
        (saturating_add_u64
          (saturating_add_u64 (saturating_add_u64 total_bytes (length (codes "x-amz-meta-")))
            (length key))
          (length value))
        (put key tt normalized) in
    validate_metadata_key name
    >> (validate_metadata_header "custom_metadata" value
        >> (reject (is_some (lookup key normalized)) (
              invalid_input "custom_metadata"
                "contains duplicate keys after ASCII case normalization")
            >> later))

-- `value.map_or(0, |value| name.len() + value.len())`
abbrev pub header_bytes : String → Option Text → ℕ
header_bytes name none = 0
header_bytes name (some value) = length (codes name) + length value

abbrev pub max_object_metadata_bytes : ℕ
max_object_metadata_bytes = 8192

module _ (codecs : Codecs) where
  unfoldable pub validate_content_language : Text → Result (Unit {0}) Error
  unfolding split_commas trim
  validate_content_language value = do
    validate_metadata_header "content_language" value
    reject (not (all is_tag (split_commas value))) (
        invalid_input "content_language"
          "must contain one or more well-formed BCP 47 language tags")
    where
      is_tag : Text → Bool
      is_tag tag = not (is_empty (trim tag)) && codecs.is_language_tag (trim tag)

  unfoldable pub validate_checksum_value : ChecksumAlgorithm × Text → Result (Unit {0}) Error
  validate_checksum_value (algorithm, base64_val) = do
    decoded ← ok_or (codecs.decode base64_val) (invalid_input "checksum" "must be canonical Base64")
    reject
        (not (length decoded == digest_length algorithm)
          || not (text_eq (codecs.encode decoded) base64_val))
        (invalid_input "checksum" "checksum digest length or encoding does not match algorithm")

  abbrev if_some {ℓ} :
      {A : Type ℓ} → Option A → (A → Result (Unit {0}) Error) → Result (Unit {0}) Error
  if_some none f = ok tt
  if_some (some a) f = f a

  abbrev checked_mime : Result Text Error → Result (Unit {0}) Error
  checked_mime (ok mime) = ok tt
  checked_mime (err e) = err e

  -- `ObjectUploadOptions::validate`
  unfoldable pub validate : ObjectUploadOptions → Result (Unit {0}) Error
  unfolding validate_content_language validate_checksum_value validate_headers validate_custom
  validate o = do
    if_some o.content_type checked_mime
    validate_headers (
        ("content_disposition", o.content_disposition)
        ∷ ("content_encoding", o.content_encoding)
        ∷ ("if_match", o.if_match)
        ∷ ("if_none_match", o.if_none_match)
        ∷ [])
    if_some o.content_language validate_content_language
    if_some o.checksum_value validate_checksum_value
    total_bytes ←
        validate_custom o.custom
          (header_bytes "content-type" (content_type_of o)
            + header_bytes "cache-control" o.cache_control
            + header_bytes "content-disposition" o.content_disposition
            + header_bytes "content-encoding" o.content_encoding
            + header_bytes "content-language" o.content_language)
          nil
    reject (ltb max_object_metadata_bytes total_bytes)
        (invalid_input "upload_options" "metadata exceeds R2's 8,192-byte object metadata limit")

-- `iter().map(..).collect()` into a map: a later entry replaces an earlier one with its key.
unfoldable pub collect_lowercase : BTreeMap Text Text → BTreeMap Text Text → BTreeMap Text Text
collect_lowercase nil values = values
collect_lowercase (entry key value rest) values =
    collect_lowercase rest (put (to_ascii_lowercase key) value values)

-- `ObjectUploadOptions::custom_metadata_values`
unfoldable pub custom_metadata_values : ObjectUploadOptions → Option (BTreeMap Text Text)
unfolding collect_lowercase
custom_metadata_values o =
    if is_empty_map o.custom then none else some (collect_lowercase o.custom nil)
