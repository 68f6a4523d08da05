-- ===== src/Error/Tests.antt =====
-- The theorems on src/error.rs at a concrete failed request.
use r2kit.Prelude.{none, some, codes}
use r2kit.Error.{SdkError, service_error}

abbrev no_such_upload : SdkError
no_such_upload = record {
  variant = service_error;
  raw_response = some (record { status = 400; retry_after = none; amz_retry_after = none });
  code = some (codes "NoSuchUpload");
}
