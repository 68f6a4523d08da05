-- ===== src/Client.antt =====
-- src/client.rs: the settings of the SDK client, and the operations on buckets. The SDK's requests are
-- parameters, as is the conversion of a date.
pub mod Buckets
pub mod Settings
mod Tests
use r2kit.Prelude.{
  ℕ, Bool, true, false, ◌||◌, Option, none, some, List, Text, Result, ok, err, ◌>>=◌, ok_or,
  is_some, ℤ, Duration, if◌then◌else◌, traverse, String,
}
use r2kit.Error.{Error, ConfigError, SdkError, service, remote, has_status, config}
use r2kit.Types.{new_bucket_name}
use r2kit.Config.{R2Config, VarError, endpoint_url, from_env_with}
use r2kit.Multipart.Session.{Bucket}
use r2kit.Object.Listing.{optional_system_time}

-- The settings that `R2Client::new` gives to the SDK; what it leaves out is none.
pub record TimeoutConfig : Type 0 where
  pub connect_timeout : Option Duration
  pub read_timeout : Option Duration
  pub operation_timeout : Option Duration
  pub operation_attempt_timeout : Option Duration

pub record SdkConfig : Type 0 where
  pub region : String
  pub endpoint_url : Text
  pub access_key_id : Text
  pub secret_access_key : Text
  pub session_token : Option Text
  pub timeout_config : Option TimeoutConfig
  pub max_attempts : Option ℕ

-- The timeouts, where any is configured.
unfoldable pub timeout_config : R2Config → Option TimeoutConfig
timeout_config c =
    if is_some c.connect_timeout
      || is_some c.read_timeout
      || is_some c.operation_timeout
      || is_some c.operation_attempt_timeout
    then some (record {
      connect_timeout = c.connect_timeout;
      read_timeout = c.read_timeout;
      operation_timeout = c.operation_timeout;
      operation_attempt_timeout = c.operation_attempt_timeout;
    })
    else none

-- `R2Client::new`
unfoldable pub new_client : R2Config → SdkConfig
unfolding endpoint_url timeout_config
new_client c = record {
  region = "auto";
  endpoint_url = endpoint_url c;
  access_key_id = c.access_key_id;
  secret_access_key = c.secret_access_key;
  session_token = c.session_token;
  timeout_config = timeout_config c;
  max_attempts = c.sdk_max_attempts;
}

abbrev converted : Result R2Config ConfigError → Result SdkConfig Error
converted (ok c) = ok (new_client c)
converted (err e) = err (config e)

-- `R2Client::from_env`, for a read of the environment.
unfoldable pub from_env : (String → Result Text VarError) → Result SdkConfig Error
unfolding from_env_with new_client
from_env read = converted (from_env_with read)

-- `R2Client::bucket`
unfoldable pub select_bucket : Text → Result Bucket Error
unfolding new_bucket_name
select_bucket name = do name ← new_bucket_name name; ok (record { name = name })

pub record BucketInfo : Type 0 where
  pub name : Text
  pub creation_date : Option ℕ

-- What the code reads of a bucket in a reply.
pub record RemoteBucket : Type 0 where
  pub name : Option Text
  pub creation_date : Option ℤ

unfoldable pub bucket_info : (ℤ → Option ℕ) → RemoteBucket → Result BucketInfo Error
unfolding optional_system_time
bucket_info system_time bucket = do
  name ← ok_or bucket.name (service "ListBuckets")
  creation_date ← optional_system_time system_time bucket.creation_date "ListBuckets"
  ok (record { name = name; creation_date = creation_date })

-- What `bucket_exists` makes of the answer.
unfoldable pub existence : Result (Unit {0}) SdkError → Result Bool Error
unfolding remote
existence (ok _) = ok true
existence (err e) = if has_status e 404 then ok false else err (remote "HeadBucket" e)
