-- ===== src/Error.antt =====
-- src/error.rs: the error types, and the classification of a failed SDK request.
-- The SDK's error type is not code of the repository: `SdkError` holds what the code reads of one,
-- the variant that a `match` sees, the raw response and the service's error code.
pub mod Classify
mod Tests
use r2kit.Prelude.{
  ℕ, ◌≡◌, String, Bool, true, false, ◌&&◌, ◌||◌, Option, none, some, List, [], ◌∷◌, Text, codes,
  text_eq, leb, ◌==◌, if◌then◌else◌, is_some_and, Duration,
}

pub data ConfigError : Type 0 where
  missing_field : String → ConfigError
  invalid_account_id : ConfigError
  empty_field : String → ConfigError
  invalid_environment : String → ConfigError
  invalid_jurisdiction : ConfigError
  invalid_timeout : String → ConfigError
  invalid_attempts : String → ConfigError
  inconsistent_timeouts : ConfigError

-- `provided`, `min` and `max`, or `required` and `max`, in the source's order.
pub data ValidationError : Type 0 where
  part_size_out_of_range : ℕ → ℕ → ℕ → ValidationError
  multipart_file_size_zero : ValidationError
  multipart_object_too_large : ℕ → ℕ → ValidationError
  too_many_parts : ℕ → ℕ → ValidationError
  part_number_out_of_range : ℕ → ℕ → ℕ → ValidationError
  concurrency_out_of_range : ℕ → ℕ → ℕ → ValidationError
  attempts_out_of_range : ℕ → ℕ → ℕ → ValidationError
  managed_memory_budget_exceeded : ℕ → ℕ → ValidationError
  single_upload_too_large : ℕ → ℕ → ValidationError
  list_limit_out_of_range : ℕ → ℕ → ℕ → ValidationError
  presign_expiry_out_of_range : Duration → Duration → Duration → ValidationError

pub data ServiceErrorKind : Type 0 where
  authentication permission_denied not_found conflict rate_limited timeout network :
      ServiceErrorKind
  unavailable invalid_response unknown : ServiceErrorKind

pub record ServiceError : Type 0 where
  pub operation : String
  pub kind : ServiceErrorKind
  pub status : Option ℕ

-- A field and a reason for `invalid_input`; an operation for `service` and `io`.
pub data Error : Type 0 where
  config : ConfigError → Error
  validation : ValidationError → Error
  invalid_input : String → String → Error
  service : String → Error
  remote_error : ServiceError → Error
  not_found precondition_failed not_modified : Error
  io : String → Error
  cancelled presign invalid_signed_header : Error

-- The variants that the code tells apart; the SDK's enum may grow.
pub data SdkVariant : Type 0 where
  construction_failure timeout_error dispatch_failure response_error service_error : SdkVariant
  other_error : SdkVariant

pub record RawResponse : Type 0 where
  pub status : ℕ
  pub retry_after : Option Text
  pub amz_retry_after : Option Text

pub record SdkError : Type 0 where
  pub variant : SdkVariant
  pub raw_response : Option RawResponse
  pub code : Option Text

-- `ServiceErrorKind::from_status`
unfoldable pub from_status : ℕ → ServiceErrorKind
from_status status =
    if status == 401
    then authentication
    else (if status == 403
        then permission_denied
        else (if status == 404
            then ServiceErrorKind.not_found
            else (if status == 409
                then conflict
                else (if status == 408
                    then timeout
                    else (if status == 429
                        then rate_limited
                        else (if leb 500 status && leb status 599
                            then unavailable
                            else unknown))))))

-- A `match` of a text against literals.
abbrev pub one_of : List String → Text → Bool
one_of [] s = false
one_of (x ∷ xs) s = text_eq s (codes x) || one_of xs s

-- `ServiceErrorKind::from_code`
unfoldable pub from_code : Text → Option ServiceErrorKind
from_code code =
    if one_of ("Unauthorized" ∷ "ExpiredRequest" ∷ "SignatureDoesNotMatch" ∷ []) code
    then some authentication
    else (if one_of ("AccessDenied" ∷ "NotEntitled" ∷ "ObjectLockedByBucketPolicy" ∷ []) code
        then some permission_denied
        else (if one_of ("NoSuchBucket" ∷ "NoSuchKey" ∷ "NoSuchUpload" ∷ []) code
            then some ServiceErrorKind.not_found
            else (if one_of ("BucketConflict" ∷ "BucketNotEmpty" ∷ "PreconditionFailed" ∷ []) code
                then some conflict
                else (if one_of ("TooManyRequests" ∷ "SlowDown" ∷ []) code
                    then some rate_limited
                    else (if one_of ("InternalError" ∷ "ServiceUnavailable" ∷ []) code
                        then some unavailable
                        else none)))))

-- The kind where neither a code nor a status decides it.
unfoldable pub fallback_kind : SdkVariant → ServiceErrorKind
fallback_kind timeout_error = timeout
fallback_kind dispatch_failure = network
fallback_kind response_error = invalid_response
fallback_kind construction_failure = unknown
fallback_kind service_error = unknown
fallback_kind other_error = unknown

unfoldable pub service_code : SdkError → Option Text
service_code e = elim e.variant [ service_error ↦ e.code | _ ↦ none ]

abbrev pub status_of : SdkError → Option ℕ
status_of e = elim e.raw_response [ none ↦ none | some r ↦ some r.status ]

abbrev and_then {ℓ κ} : {A : Type ℓ} {B : Type κ} → Option A → (A → Option B) → Option B
and_then none f = none
and_then (some a) f = f a

unfoldable pub sdk_kind : SdkError → ServiceErrorKind
unfolding fallback_kind service_code
sdk_kind e = elim (and_then (service_code e) from_code) [
  | some k ↦ k
  | none ↦ elim (status_of e) [ some s ↦ from_status s | none ↦ fallback_kind e.variant ]
]

-- `ServiceError::from_sdk`
unfoldable pub service_error_from_sdk : String → SdkError → ServiceError
unfolding sdk_kind
service_error_from_sdk operation e = record {
  operation = operation;
  kind = sdk_kind e;
  status = status_of e;
}

-- `Error::remote`. Its log event is not modelled.
unfoldable pub remote : String → SdkError → Error
unfolding service_error_from_sdk
remote operation e = remote_error (service_error_from_sdk operation e)

-- `raw_response().is_some_and(|response| response.status() == status)`
abbrev pub has_status : SdkError → ℕ → Bool
has_status e status = is_some_and e.raw_response (λ r. r.status == status)

-- `Error::from_sdk`
unfoldable pub from_sdk : String → SdkError → Error
unfolding remote
from_sdk operation e = if has_status e 404 then Error.not_found else remote operation e

-- The macro `map_object_error!` of src/object.rs.
unfoldable pub map_object_error : String → SdkError → Error
unfolding remote
map_object_error operation e =
    if has_status e 404
    then Error.not_found
    else (if has_status e 304
        then not_modified
        else (if has_status e 412 then precondition_failed else remote operation e))

unfoldable pub is_missing : ServiceErrorKind → Bool
is_missing ServiceErrorKind.not_found = true
is_missing ServiceErrorKind.authentication = false
is_missing _ = false

-- `Error::is_not_found`
unfoldable pub is_not_found : Error → Bool
unfolding is_missing
is_not_found Error.not_found = true
is_not_found (remote_error e) = is_missing e.kind
is_not_found _ = false
