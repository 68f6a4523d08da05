-- ===== src/Config.antt =====
-- src/config.rs: the jurisdictions, the configuration of a client, its builder with the checks, and the
-- environment variables it can be read from. A read of the environment is a parameter.
pub mod Accepts
pub mod Env
pub mod Endpoints
mod Tests
use r2kit.Prelude.{
  ℕ, ◌++◌, Bool, true, false, ◌&&◌, ◌||◌, not, String, Option, none, some, Text, codes, text_eq,
  leb, ltb, ◌==◌, if◌then◌else◌, Result, ok, err, ◌>>=◌, ◌>>◌, reject, ok_or, length, is_empty, all,
  is_some_and, Duration,
}
use r2kit.Error.{
  ConfigError, missing_field, invalid_account_id, empty_field, invalid_environment,
  invalid_jurisdiction, invalid_timeout, invalid_attempts, inconsistent_timeouts,
}
use r2kit.Types.{is_ascii_digit}

pub data R2Jurisdiction : Type 0 where
  default eu us fed_ramp : R2Jurisdiction

-- `R2Jurisdiction::as_str`
unfoldable pub as_str : R2Jurisdiction → Option Text
as_str default = none
as_str eu = some (codes "eu")
as_str us = some (codes "us")
as_str fed_ramp = some (codes "fedramp")

-- `R2Jurisdiction::from_str`
unfoldable pub from_str : Text → Result R2Jurisdiction ConfigError
from_str value =
    if text_eq value (codes "default")
    then ok default
    else (if text_eq value (codes "eu")
        then ok eu
        else (if text_eq value (codes "us")
            then ok us
            else (if text_eq value (codes "fedramp")
                then ok fed_ramp
                else err invalid_jurisdiction)))

pub record R2Config : Type 0 where
  pub account_id : Text
  pub access_key_id : Text
  pub secret_access_key : Text
  pub session_token : Option Text
  pub jurisdiction : R2Jurisdiction
  pub connect_timeout : Option Duration
  pub read_timeout : Option Duration
  pub operation_timeout : Option Duration
  pub operation_attempt_timeout : Option Duration
  pub sdk_max_attempts : Option ℕ

-- `R2Config::endpoint_url`
unfoldable pub endpoint_url : R2Config → Text
unfolding as_str
endpoint_url c = elim (as_str c.jurisdiction) [
  | some jurisdiction ↦
      codes "https://"
      ++ (c.account_id ++ (codes "." ++ jurisdiction ++ codes ".r2.cloudflarestorage.com"))
  | none ↦ codes "https://" ++ c.account_id ++ codes ".r2.cloudflarestorage.com"
]

pub record R2ConfigBuilder : Type 0 where
  pub account_id : Option Text
  pub access_key_id : Option Text
  pub secret_access_key : Option Text
  pub session_token : Option Text
  pub jurisdiction : R2Jurisdiction
  pub connect_timeout : Option Duration
  pub read_timeout : Option Duration
  pub operation_timeout : Option Duration
  pub operation_attempt_timeout : Option Duration
  pub sdk_max_attempts : Option ℕ

-- `R2Config::builder`
abbrev pub builder : R2ConfigBuilder
builder = record {
  account_id = none;
  access_key_id = none;
  secret_access_key = none;
  session_token = none;
  jurisdiction = default;
  connect_timeout = none;
  read_timeout = none;
  operation_timeout = none;
  operation_attempt_timeout = none;
  sdk_max_attempts = none;
}

-- The setters that `from_env_with` chains.
abbrev pub set_account_id : R2ConfigBuilder → Text → R2ConfigBuilder
set_account_id b value = record b { account_id = some value }

abbrev pub set_access_key_id : R2ConfigBuilder → Text → R2ConfigBuilder
set_access_key_id b value = record b { access_key_id = some value }

abbrev pub set_secret_access_key : R2ConfigBuilder → Text → R2ConfigBuilder
set_secret_access_key b value = record b { secret_access_key = some value }

abbrev pub set_jurisdiction : R2ConfigBuilder → R2Jurisdiction → R2ConfigBuilder
set_jurisdiction b value = record b { jurisdiction = value }

abbrev pub optional_session_token : R2ConfigBuilder → Option Text → R2ConfigBuilder
optional_session_token b value = record b { session_token = value }

-- `u8::is_ascii_hexdigit`
unfoldable pub is_ascii_hexdigit : ℕ → Bool
unfolding is_ascii_digit
is_ascii_hexdigit byte =
    is_ascii_digit byte || (leb b'A' byte && leb byte b'F') || (leb b'a' byte && leb byte b'f')

unfoldable pub required_non_empty : Option Text → String → Result Text ConfigError
required_non_empty value name = do
  value ← ok_or value (missing_field name)
  reject (is_empty value) (empty_field name)
  ok value

unfoldable pub validate_timeout : Option Duration → String → Result (Unit {0}) ConfigError
validate_timeout value name = reject (is_some_and value (λ d. d == 0)) (invalid_timeout name)

-- `operation_timeout.zip(operation_attempt_timeout).is_some_and(..)`
unfoldable pub inconsistent : Option Duration → Option Duration → Bool
inconsistent operation attempt = is_some_and operation (λ o. is_some_and attempt (λ a. ltb o a))

-- `R2ConfigBuilder::build`
unfoldable pub build : R2ConfigBuilder → Result R2Config ConfigError
unfolding is_ascii_hexdigit required_non_empty validate_timeout inconsistent
build b = do
  account_id ← ok_or b.account_id (missing_field "account_id")
  reject (not (length account_id == 32) || not (all is_ascii_hexdigit account_id))
      invalid_account_id
  access_key_id ← required_non_empty b.access_key_id "access_key_id"
  secret_access_key ← required_non_empty b.secret_access_key "secret_access_key"
  reject (is_some_and b.session_token is_empty) (empty_field "session_token")
  validate_timeout b.connect_timeout "connect_timeout"
  validate_timeout b.read_timeout "read_timeout"
  validate_timeout b.operation_timeout "operation_timeout"
  validate_timeout b.operation_attempt_timeout "operation_attempt_timeout"
  reject (is_some_and b.sdk_max_attempts (λ n. n == 0)) (invalid_attempts "sdk_max_attempts")
  reject (inconsistent b.operation_timeout b.operation_attempt_timeout) inconsistent_timeouts
  ok (record {
    account_id = account_id;
    access_key_id = access_key_id;
    secret_access_key = secret_access_key;
    session_token = b.session_token;
    jurisdiction = b.jurisdiction;
    connect_timeout = b.connect_timeout;
    read_timeout = b.read_timeout;
    operation_timeout = b.operation_timeout;
    operation_attempt_timeout = b.operation_attempt_timeout;
    sdk_max_attempts = b.sdk_max_attempts;
  })

-- `std::env::VarError`
pub data VarError : Type 0 where
  not_present not_unicode : VarError

unfoldable pub required_env_with :
    (String → Result Text VarError) → String → Result Text ConfigError
required_env_with read name = elim (read name) [
  | ok value ↦ ok value
  | err not_present ↦ err (missing_field name)
  | err not_unicode ↦ err (invalid_environment name)
]

unfoldable pub optional_env_with :
    (String → Result Text VarError) → String → Result (Option Text) ConfigError
optional_env_with read name = elim (read name) [
  | ok value ↦ ok (some value)
  | err not_present ↦ ok none
  | err not_unicode ↦ err (invalid_environment name)
]

-- `map_or(Ok(R2Jurisdiction::Default), |value| value.parse())`
unfoldable pub parsed_jurisdiction : Option Text → Result R2Jurisdiction ConfigError
unfolding from_str
parsed_jurisdiction none = ok default
parsed_jurisdiction (some value) = from_str value

-- `R2Config::from_env_with`
unfoldable pub from_env_with : (String → Result Text VarError) → Result R2Config ConfigError
unfolding required_env_with optional_env_with parsed_jurisdiction build
from_env_with read = do
  account_id ← required_env_with read "R2_ACCOUNT_ID"
  access_key_id ← required_env_with read "R2_ACCESS_KEY_ID"
  secret_access_key ← required_env_with read "R2_SECRET_ACCESS_KEY"
  session_token ← optional_env_with read "R2_SESSION_TOKEN"
  text ← optional_env_with read "R2_JURISDICTION"
  jurisdiction ← parsed_jurisdiction text
  build (
      set_jurisdiction
        (optional_session_token
          (set_secret_access_key
            (set_access_key_id (set_account_id builder account_id) access_key_id) secret_access_key)
          session_token)
        jurisdiction)
