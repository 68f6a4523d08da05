-- ===== src/Config/Tests.antt =====
-- The theorems on src/config.rs at a concrete configuration, and runs of the builder.
use r2kit.Prelude.{
  ◌≡◌, ◌↔◌, refl, String, Text, none, some, [], codes, Result, ok, err, from_secs, text_eq,
  if◌then◌else◌,
}
use r2kit.Error.{invalid_account_id, empty_field, inconsistent_timeouts, missing_field}
use r2kit.Config.{R2Config, eu, us, build, from_env_with, VarError, not_present}
use r2kit.Config.Accepts.{IsConfig, builder_of, build_iff}

abbrev config : R2Config
config = record {
  account_id = codes "0123456789abcdefABCDEF0123456789";
  access_key_id = codes "key";
  secret_access_key = codes "secret";
  session_token = none;
  jurisdiction = eu;
  connect_timeout = some (from_secs 3);
  read_timeout = none;
  operation_timeout = some (from_secs 30);
  operation_attempt_timeout = some (from_secs 10);
  sdk_max_attempts = some 3;
}

build_accepts : build (builder_of config) ≡ ok config
unfolding build
build_accepts = refl

build_short :
    build (record (builder_of config) { account_id = some (codes "0123") }) ≡ err invalid_account_id
unfolding build
build_short = refl

build_token :
    build (record (builder_of config) { session_token = some [] })
    ≡ err (empty_field "session_token")
unfolding build
build_token = refl

build_timeouts :
    build (record (builder_of config) { operation_attempt_timeout = some (from_secs 31) })
    ≡ err inconsistent_timeouts
unfolding build
build_timeouts = refl

abbrev environment : String → Result Text VarError
environment name =
    if text_eq (codes name) (codes "R2_ACCOUNT_ID")
    then ok config.account_id
    else (if text_eq (codes name) (codes "R2_JURISDICTION")
        then ok (codes "us")
        else (if text_eq (codes name) (codes "R2_ACCESS_KEY_ID")
            then ok (codes "key")
            else (if text_eq (codes name) (codes "R2_SECRET_ACCESS_KEY")
                then ok (codes "secret")
                else err not_present)))

abbrev env_config : R2Config
env_config = record {
  account_id = config.account_id;
  access_key_id = codes "key";
  secret_access_key = codes "secret";
  session_token = none;
  jurisdiction = us;
  connect_timeout = none;
  read_timeout = none;
  operation_timeout = none;
  operation_attempt_timeout = none;
  sdk_max_attempts = none;
}

from_environment : from_env_with environment ≡ ok env_config
unfolding from_env_with text_eq
from_environment = refl

from_nothing : from_env_with (λ name. err not_present) ≡ err (missing_field "R2_ACCOUNT_ID")
unfolding from_env_with
from_nothing = refl

config-IsConfig : IsConfig config
config-IsConfig = ((build_iff (builder_of config) config).0 build_accepts).0

build_iff_example :
    (build (builder_of config) ≡ ok config)
    ↔ (IsConfig config × (builder_of config ≡ builder_of config))
build_iff_example = build_iff (builder_of config) config
