-- ===== src/Object/Get/Tests.antt =====
-- The theorems on downloads of src/object.rs for a range of one object.
use r2kit.Prelude.{ℕ, ◌≡◌, ◌↔◌, ◌⊎◌, refl, none, some, List, [], ◌∷◌, codes, Result, ok, err}
use r2kit.Error.{Error, SdkError, map_object_error, invalid_input, not_modified, response_error}
use r2kit.Sdk.{finished}
use r2kit.Object.Options.{is_header_byte}
use r2kit.Object.Range.{bounded, print_u64}
use r2kit.Object.Get.{GetObjectBuilder, GetObjectRequest, ObjectHeaders, get_request}
use r2kit.Object.Get.Sends.{DownloadedObject, send_get}
use r2kit.Object.Get.Requests.{RefusedAs, IsRequest, get_request_iff, send_get-once}
use r2kit.Examples.{bucket}

abbrev download : GetObjectBuilder
download = record {
  key = ok (record { text = codes "cat.png" });
  bucket = bucket;
  range = some (bounded 0 1023);
  if_match = none;
  if_none_match = some (codes "etag");
  if_modified_since = none;
  if_unmodified_since = none;
}

abbrev request : GetObjectRequest
request = record {
  bucket = codes "photos";
  key = codes "cat.png";
  range = some (codes "bytes=0-1023");
  if_match = none;
  if_none_match = some (codes "etag");
  if_modified_since = none;
  if_unmodified_since = none;
}

requested : get_request download ≡ ok request
unfolding get_request print_u64 is_header_byte
requested = refl

-- A line break in a condition is refused.
injected :
    get_request (record download { if_match = some (10 ∷ []) })
    ≡ err (invalid_input "if_match" "must contain only visible ASCII or horizontal tabs")
unfolding get_request is_header_byte
injected = refl

abbrev unchanged : SdkError
unchanged = record {
  variant = response_error;
  raw_response = some (record { status = 304; retry_after = none; amz_retry_after = none });
  code = none;
}

-- R2 that holds the object unchanged.
abbrev answer : GetObjectRequest → Result (ObjectHeaders × List ℕ) SdkError
answer asked = err unchanged

not_modified_run :
    send_get {S = List GetObjectRequest}
      (λ t. none)
      (λ t. none)
      {Body = List ℕ}
      (λ request log. (answer request, request ∷ log))
      download
      []
    ≡ finished (err not_modified) (request ∷ [])
unfolding send_get print_u64 map_object_error is_header_byte
not_modified_run = refl

get_request_iff_example : (get_request download ≡ ok request) ↔ IsRequest download request
get_request_iff_example = get_request_iff download request

send_get-once_example :
    ((e : Error) × (get_request download ≡ err e)
      × (send_get {S = List GetObjectRequest}
            (λ t. none)
            (λ t. none)
            {Body = List ℕ}
            (λ request log. (answer request, request ∷ log))
            download
            []
          ≡ finished (err e) []))
    ⊎ ((request : GetObjectRequest) × (get_request download ≡ ok request)
        × (result : Result (DownloadedObject (List ℕ)) Error) × (send_get
              {S = List GetObjectRequest}
              (λ t. none)
              (λ t. none)
              {Body = List ℕ}
              (λ request log. (answer request, request ∷ log))
              download
              []
            ≡ finished result (request ∷ []))
        × ((e : SdkError)
            → answer request ≡ err e
            → (error : Error) × (result ≡ err error) × RefusedAs "GetObject" e error)
        × ((d : DownloadedObject (List ℕ))
            → result ≡ ok d
            → (headers : ObjectHeaders) × (answer request ≡ ok (headers, d.body))))
send_get-once_example = send_get-once (λ t. none) (λ t. none) answer download []
