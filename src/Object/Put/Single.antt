-- ===== src/Object/Put/Single.antt =====
-- src/object.rs: which uploads with one request reach R2, and with what request.
use r2kit.Prelude.{
  ℕ, ◌≤◌, ◌<◌, ◌^◌, ◌≡◌, ◌≢◌, ◌↔◌, inl, inr, refl, sym, ap, ◌∙◌, arith, false, ◌&&◌, Option, none,
  some, List, Text, Result, ok, ◌∷◌, length, is_some, is_none, ltb, reject, >>=-eq-ok, reject-eq-ok,
  ok-injective, Result-cases,
}
use r2kit.Error.{Error, SdkError}
use r2kit.Types.{new_object_key, ObjectKey}
use r2kit.Types.Names.{new_object_key_iff, new_object_key-ok}
use r2kit.Sdk.{finished, failed-ne-done, finished-state}
use r2kit.Object.Options.{
  Codecs, ChecksumAlgorithm, ObjectUploadOptions, validate, content_type_of, custom_metadata_values,
}
use r2kit.Multipart.Session.{Bucket}
use r2kit.Object.Put.{
  PutObjectRequest, request_of, validate_put, put_request, put_bytes_options, max_single_put_size,
}
use r2kit.Object.Put.Sends.{PutObjectResult, put_stream_with_options, put_bytes_with_options}

-- An upload that one request may carry.
pub record Uploadable (codecs : Codecs) (key : Text) (size : ℕ) (options : ObjectUploadOptions)
    : Type 0 where
  pub key_nonempty : 1 ≤ length key
  pub key_short : length key ≤ 1024
  pub options_valid : validate codecs options ≡ ok tt
  pub digest_known : options.checksum ≢ none → options.checksum_value ≢ none
  pub size_small : size ≤ max_single_put_size

digest_iff :
    {A B : Type 0} (o : Option A) (v : Option B)
    → ((is_some o && is_none v) ≡ false) ↔ (o ≢ none → v ≢ none)
digest_iff none v = (λ h n. absurd (n refl), λ h. refl)
digest_iff (some a) none = (λ h. cc, λ h. absurd (h (λ e. cc) refl))
digest_iff (some a) (some b) = (λ h n e. cc, λ h. refl)

within_limit : (limit n : ℕ) (e : Error) → reject (ltb limit n) e ≡ ok tt → n ≤ limit
within_limit limit n e h = ground arith

carried :
    (codecs : Codecs) (bucket : Bucket) (key : Text) (size : ℕ) (options : ObjectUploadOptions)
    (request : PutObjectRequest)
    → put_request codecs bucket key size options ≡ ok request
    → Uploadable codecs key size options × (request ≡ request_of bucket key size options)
unfolding put_request validate_put
carried codecs bucket key size options request h =
    let (k, key_ok, h1) = >>=-eq-ok (new_object_key key) _ h in
    let (_, put_ok, h2) = >>=-eq-ok (validate_put codecs size options) _ h1 in
    let (_, valid, h3) = >>=-eq-ok (validate codecs options) _ put_ok in
    let (digest, h4) =
      reject-eq-ok (is_some options.checksum && is_none options.checksum_value) _ _ h3 in
    let (same, long, short) = new_object_key-ok key key_ok in
    (
      record {
        key_nonempty = long;
        key_short = short;
        options_valid = valid;
        digest_known = (digest_iff options.checksum options.checksum_value).0 digest;
        size_small = within_limit _ _ _ h4;
      },
      sym (ok-injective h2) ∙ ap (λ (k : ObjectKey). request_of bucket k.text size options) same,
    )

carries :
    (codecs : Codecs) (bucket : Bucket) (key : Text) (size : ℕ) (options : ObjectUploadOptions)
    → Uploadable codecs key size options
    → put_request codecs bucket key size options ≡ ok (request_of bucket key size options)
unfolding put_request validate_put
carries codecs bucket key size options u =
    let key_ok = (new_object_key_iff key).1 (u.key_nonempty, u.key_short) in
    let digest = (digest_iff options.checksum options.checksum_value).1 u.digest_known in
    let small : ltb max_single_put_size size ≡ false = ground (arith, u.size_small) in
    rw (put_request, key_ok, validate_put, u.options_valid, digest, small)

-- The request carries the bucket, the key and the size, and each field of the options in its place.
pub record IsPutRequest (to : Bucket) (name : Text) (size : ℕ) (options : ObjectUploadOptions)
    (request : PutObjectRequest) : Type 0 where
  pub bucket : request.bucket ≡ to.name.text
  pub key : request.key ≡ name
  pub content_length : request.content_length ≡ size
  pub content_type : request.content_type ≡ content_type_of options
  pub cache_control : request.cache_control ≡ options.cache_control
  pub content_disposition : request.content_disposition ≡ options.content_disposition
  pub content_encoding : request.content_encoding ≡ options.content_encoding
  pub content_language : request.content_language ≡ options.content_language
  pub expires : request.expires ≡ options.expires
  pub metadata : request.metadata ≡ custom_metadata_values options
  pub if_match : request.if_match ≡ options.if_match
  pub if_none_match : request.if_none_match ≡ options.if_none_match
  pub checksum : request.checksum ≡ options.checksum_value

request_of-IsPutRequest :
    (bucket : Bucket) (key : Text) (size : ℕ) (options : ObjectUploadOptions)
    → IsPutRequest bucket key size options (request_of bucket key size options)
unfolding request_of
request_of-IsPutRequest bucket key size options = record {
  bucket = refl;
  key = refl;
  content_length = refl;
  content_type = refl;
  cache_control = refl;
  content_disposition = refl;
  content_encoding = refl;
  content_language = refl;
  expires = refl;
  metadata = refl;
  if_match = refl;
  if_none_match = refl;
  checksum = refl;
}

IsPutRequest-request_of :
    (bucket : Bucket) (key : Text) (size : ℕ) (options : ObjectUploadOptions)
    (request : PutObjectRequest)
    → IsPutRequest bucket key size options request
    → request ≡ request_of bucket key size options
unfolding request_of
IsPutRequest-request_of bucket key size options request q = sym same
  where
    same :
        ◌≡◌ {A = PutObjectRequest}
          (record {
            bucket = bucket.name.text;
            key = key;
            content_length = size;
            content_type = content_type_of options;
            cache_control = options.cache_control;
            content_disposition = options.content_disposition;
            content_encoding = options.content_encoding;
            content_language = options.content_language;
            expires = options.expires;
            metadata = custom_metadata_values options;
            if_match = options.if_match;
            if_none_match = options.if_none_match;
            checksum = options.checksum_value;
          })
          request
    same = rw (
      ← q.bucket,
      ← q.key,
      ← q.content_length,
      ← q.content_type,
      ← q.cache_control,
      ← q.content_disposition,
      ← q.content_encoding,
      ← q.content_language,
      ← q.expires,
      ← q.metadata,
      ← q.if_match,
      ← q.if_none_match,
      ← q.checksum,
    )

-- An upload with one request gets past the checks exactly where the key has 1 to 1,024 bytes, the options
-- are valid, a requested checksum has its digest, and the size is at most R2's limit for one request;
-- the request then has the bucket, the key and the size, and the fields of the options.
pub put_request_iff :
    (codecs : Codecs) (bucket : Bucket) (key : Text) (size : ℕ) (options : ObjectUploadOptions)
    (request : PutObjectRequest)
    → (put_request codecs bucket key size options ≡ ok request)
      ↔ (Uploadable codecs key size options × IsPutRequest bucket key size options request)
put_request_iff codecs bucket key size options request = (
  λ h.
      let (u, e) = carried codecs bucket key size options request h in
      (u, rw e (request_of-IsPutRequest bucket key size options)),
  λ (u, q).
      carries codecs bucket key size options u
      ∙ ap (λ r. ok r) (sym (IsPutRequest-request_of bucket key size options request q)),
)

-- A length that passes the checks fits in an i64, so that the conversion the code expects to succeed does.
pub put_request-i64 :
    (codecs : Codecs) (bucket : Bucket) (key : Text) (size : ℕ) (options : ObjectUploadOptions)
    (request : PutObjectRequest)
    → put_request codecs bucket key size options ≡ ok request
    → (request.content_length ≡ size) × (size < 2 ^ 63)
unfolding request_of
put_request-i64 codecs bucket key size options request h =
    let (u, e) = carried codecs bucket key size options request h in
    (ap (λ r. r.content_length) e, omega (arith, u.size_small))

module _ (codecs : Codecs) (compute : List ℕ → ChecksumAlgorithm → Text)
    (answer : PutObjectRequest → Result (Option Text) SdkError) where
  -- R2 that logs the requests and their bodies.
  abbrev pub logged :
      PutObjectRequest
      → List ℕ
      → List (PutObjectRequest × List ℕ)
      → Result (Option Text) SdkError × List (PutObjectRequest × List ℕ)
  logged request body log = (answer request, (request, body) ∷ log)

  stream-logged :
      (bucket : Bucket) (key : Text) (bytes : List ℕ) (n : ℕ) (options : ObjectUploadOptions)
      (log u : List (PutObjectRequest × List ℕ)) {r : PutObjectResult}
      → put_stream_with_options codecs logged bucket key bytes n options log ≡ finished (ok r) u
      → u ≡ (request_of bucket key n options, bytes) ∷ log
  unfolding put_stream_with_options
  stream-logged bucket key bytes n options log u h =
      elim (Result-cases (put_request codecs bucket key n options)) [
        | inr (e, bad) ↦ absurd (failed-ne-done (rw (put_stream_with_options, bad) at h))
        | inl (request, good) ↦ elim (Result-cases (answer request)) [
          | inr (e, refused) ↦
              absurd (failed-ne-done (rw (put_stream_with_options, good, refused) at h))
          | inl (etag, replied) ↦
              let (_, same) = carried codecs bucket key n options request good in
              sym (finished-state (rw (put_stream_with_options, good, replied) at h))
              ∙ ap (λ q. (q, bytes) ∷ log) same
        ]
      ]

  filled :
      (bytes : List ℕ) (options : ObjectUploadOptions) (algo : ChecksumAlgorithm)
      → options.checksum ≡ some algo
      → options.checksum_value ≡ none
      → put_bytes_options (some compute) bytes options
        ≡ ok (record options { checksum_value = some (algo, compute bytes algo) })
  unfolding put_bytes_options
  filled bytes options algo asked missing =
      let with_checksum : Option ChecksumAlgorithm → ObjectUploadOptions =
        λ c. record options { checksum = c; checksum_value = some (algo, compute bytes algo) } in
      rw (put_bytes_options, asked, missing) (ap (λ c. ok (with_checksum c)) asked)

  -- An upload of bytes that asks for a checksum, without a digest given by the caller, and that succeeds,
  -- sent one request: with those bytes, their length, and the digest of those bytes by the algorithm that
  -- was asked for.
  pub put_bytes-digest :
      (bucket : Bucket) (key : Text) (bytes : List ℕ) (options : ObjectUploadOptions)
      (algo : ChecksumAlgorithm) (log u : List (PutObjectRequest × List ℕ)) {r : PutObjectResult}
      → options.checksum ≡ some algo
      → options.checksum_value ≡ none
      → put_bytes_with_options codecs logged (some compute) bucket key bytes options log
        ≡ finished (ok r) u
      → (request : PutObjectRequest) × (u ≡ (request, bytes) ∷ log)
        × (request.checksum ≡ some (algo, compute bytes algo))
        × (request.content_length ≡ length bytes)
  unfolding put_bytes_with_options request_of
  put_bytes-digest bucket key bytes options algo log u asked missing h =
      let options' : ObjectUploadOptions = record options {
        checksum_value = some (algo, compute bytes algo);
      } in
      let h' = rw (put_bytes_with_options, filled bytes options algo asked missing) at h in
      (
        request_of bucket key (length bytes) options',
        stream-logged bucket key bytes (length bytes) options' log u h',
        refl,
        refl,
      )
