-- ===== src/Client/Tests.antt =====
-- The theorems on src/client.rs for one account and one bucket.
use r2kit.Prelude.{
  ℕ, ◌+◌, ◌≡◌, ◌↔◌, ◌⊎◌, refl, true, false, none, some, Text, codes, Result, ok, err, String,
  text_eq, if◌then◌else◌,
}
use r2kit.Error.{SdkError, response_error, has_status}
use r2kit.Types.{BucketName, new_bucket_name, is_bucket_byte}
use r2kit.Sdk.{finished}
use r2kit.Config.{R2Config, VarError, not_present}
use r2kit.Client.{SdkConfig, from_env}
use r2kit.Client.Buckets.{bucket_exists}
use r2kit.Client.Settings.{IsClient, from_env-IsClient, bucket_exists_iff}

abbrev account : Text
account = codes "0123456789abcdefABCDEF0123456789"

abbrev environment : String → Result Text VarError
environment name =
    if text_eq (codes name) (codes "R2_ACCOUNT_ID")
    then ok account
    else (if text_eq (codes name) (codes "R2_ACCESS_KEY_ID")
        then ok (codes "key")
        else (if text_eq (codes name) (codes "R2_SECRET_ACCESS_KEY")
            then ok (codes "secret")
            else err not_present))

abbrev client : SdkConfig
client = record {
  region = "auto";
  endpoint_url = codes "https://0123456789abcdefABCDEF0123456789.r2.cloudflarestorage.com";
  access_key_id = codes "key";
  secret_access_key = codes "secret";
  session_token = none;
  timeout_config = none;
  max_attempts = none;
}

made : from_env environment ≡ ok client
unfolding from_env text_eq
made = refl

from_env-IsClient_example : (c : R2Config) × IsClient environment client c
from_env-IsClient_example = from_env-IsClient environment client made

abbrev missing : SdkError
missing = record {
  variant = response_error;
  raw_response = some (record { status = 404; retry_after = none; amz_retry_after = none });
  code = none;
}

abbrev no_bucket : Text → ℕ → Result (Unit {0}) SdkError × ℕ
no_bucket name s = (err missing, s + 1)

not_there : bucket_exists no_bucket (codes "photos") 0 ≡ finished (ok false) 1
unfolding bucket_exists is_bucket_byte
not_there = refl

bucket_exists_iff_example : (bucket_exists no_bucket (codes "photos") 0 ≡ finished (ok false) 1) ↔ (
    (bucket : BucketName) × (new_bucket_name (codes "photos") ≡ ok bucket)
    × (((no_bucket bucket.text 0 ≡ (ok tt, 1)) × (false ≡ true))
        ⊎ ((e : SdkError) × (no_bucket bucket.text 0 ≡ (err e, 1))
            × (has_status e 404 ≡ true)
            × (false ≡ false))))
bucket_exists_iff_example = bucket_exists_iff no_bucket (codes "photos") 0 1 false
