-- ===== src/Config/Env.antt =====
-- src/config.rs: what R2Config::from_env_with makes of the environment.
use r2kit.Prelude.{
  ◌≡◌, ◌↔◌, ◌⊎◌, inl, inr, refl, ap, arith, String, Option, none, some, Text, codes, Result, ok,
  err, >>=-eq-ok, text_eq, eq_of_text_eq, true, Result-cases, sym, subst,
}
use r2kit.Config.{
  R2Config, R2Jurisdiction, R2ConfigBuilder, default, eu, us, fed_ramp, from_str, VarError,
  not_present, not_unicode, builder, required_env_with, optional_env_with, parsed_jurisdiction,
  from_env_with,
}
use r2kit.Config.Accepts.{IsConfig, build_iff, builder_of}

-- The name that a jurisdiction is chosen by.
abbrev pub jurisdiction_name : R2Jurisdiction → Text
jurisdiction_name default = codes "default"
jurisdiction_name eu = codes "eu"
jurisdiction_name us = codes "us"
jurisdiction_name fed_ramp = codes "fedramp"

chosen :
    (value : Text) (j : R2Jurisdiction)
    → from_str value ≡ ok j
    → text_eq value (jurisdiction_name j) ≡ true
unfolding from_str
chosen value default h = ground arith
chosen value eu h = ground arith
chosen value us h = ground arith
chosen value fed_ramp h = ground arith

from_str-jurisdiction_name : (j : R2Jurisdiction) → from_str (jurisdiction_name j) ≡ ok j
unfolding from_str text_eq
from_str-jurisdiction_name default = refl
from_str-jurisdiction_name eu = refl
from_str-jurisdiction_name us = refl
from_str-jurisdiction_name fed_ramp = refl

-- `R2Jurisdiction::from_str` reads exactly the four names.
pub from_str_iff :
    (value : Text) (j : R2Jurisdiction) → (from_str value ≡ ok j) ↔ (value ≡ jurisdiction_name j)
from_str_iff value j =
    (λ h. eq_of_text_eq value _ (chosen value j h), λ e. rw e (from_str-jurisdiction_name j))

-- What the environment says of one variable that may be missing.
abbrev pub Given : (String → Result Text VarError) → String → Option Text → Type 0
Given read name none = read name ≡ err not_present
Given read name (some value) = read name ≡ ok value

-- The settings of `c` are those of the environment, and the rest is left unset.
pub record IsFromEnv (read : String → Result Text VarError) (c : R2Config) : Type 0 where
  pub account_id : read "R2_ACCOUNT_ID" ≡ ok c.account_id
  pub access_key_id : read "R2_ACCESS_KEY_ID" ≡ ok c.access_key_id
  pub secret_access_key : read "R2_SECRET_ACCESS_KEY" ≡ ok c.secret_access_key
  pub session_token : Given read "R2_SESSION_TOKEN" c.session_token
  pub jurisdiction :
      ((read "R2_JURISDICTION" ≡ err not_present) × (c.jurisdiction ≡ default))
      ⊎ (read "R2_JURISDICTION" ≡ ok (jurisdiction_name c.jurisdiction))
  pub connect_timeout : c.connect_timeout ≡ none
  pub read_timeout : c.read_timeout ≡ none
  pub operation_timeout : c.operation_timeout ≡ none
  pub operation_attempt_timeout : c.operation_attempt_timeout ≡ none
  pub sdk_max_attempts : c.sdk_max_attempts ≡ none

module _ (read : String → Result Text VarError) where
  abbrev Chosen : R2Jurisdiction → Type 0
  Chosen j =
      ((read "R2_JURISDICTION" ≡ err not_present) × (j ≡ default))
      ⊎ (read "R2_JURISDICTION" ≡ ok (jurisdiction_name j))

  abbrev settings : Text → Text → Text → Option Text → R2Jurisdiction → R2ConfigBuilder
  settings id key secret token j = record builder {
    account_id = some id;
    access_key_id = some key;
    secret_access_key = some secret;
    session_token = token;
    jurisdiction = j;
  }

  required_env_with_iff :
      (name : String) (t : Text) → (required_env_with read name ≡ ok t) ↔ (read name ≡ ok t)
  unfolding required_env_with
  required_env_with_iff name t = elim (Result-cases (read name)) [
    | inl (v, e) ↦ rw (required_env_with, e) (λ h. cc, λ h. cc)
    | inr (not_present, e) ↦ rw (required_env_with, e) (λ h. cc, λ h. cc)
    | inr (not_unicode, e) ↦ rw (required_env_with, e) (λ h. cc, λ h. cc)
  ]

  optional_env_with_iff :
      (name : String) (o : Option Text) → (optional_env_with read name ≡ ok o) ↔ Given read name o
  unfolding optional_env_with
  optional_env_with_iff name none = elim (Result-cases (read name)) [
    | inl (v, e) ↦ rw (optional_env_with, e) (λ h. cc, λ h. cc)
    | inr (not_present, e) ↦ rw (optional_env_with, e) (λ h. refl, λ h. refl)
    | inr (not_unicode, e) ↦ rw (optional_env_with, e) (λ h. cc, λ h. cc)
  ]
  optional_env_with_iff name (some t) = elim (Result-cases (read name)) [
    | inl (v, e) ↦ rw (optional_env_with, e) (λ h. cc, λ h. cc)
    | inr (not_present, e) ↦ rw (optional_env_with, e) (λ h. cc, λ h. cc)
    | inr (not_unicode, e) ↦ rw (optional_env_with, e) (λ h. cc, λ h. cc)
  ]

  parsed-Chosen :
      (o : Option Text) (j : R2Jurisdiction)
      → Given read "R2_JURISDICTION" o
      → parsed_jurisdiction o ≡ ok j
      → Chosen j
  unfolding parsed_jurisdiction
  parsed-Chosen none j given h = inl (given, cc)
  parsed-Chosen (some value) j given h = inr (rw (← (from_str_iff value j).0 h) given)

  from_parts :
      (id key secret : Text) (token : Option Text) (j : R2Jurisdiction) {c : R2Config}
      → read "R2_ACCOUNT_ID" ≡ ok id
      → read "R2_ACCESS_KEY_ID" ≡ ok key
      → read "R2_SECRET_ACCESS_KEY" ≡ ok secret
      → Given read "R2_SESSION_TOKEN" token
      → Chosen j
      → ◌≡◌ {A = R2ConfigBuilder} (settings id key secret token j) (builder_of c)
      → IsFromEnv read c
  from_parts id key secret token j id_read key_read secret_read token_read j_read same =
      let same_id = ap (λ b. b.account_id) same in
      let same_key = ap (λ b. b.access_key_id) same in
      let same_secret = ap (λ b. b.secret_access_key) same in
      record {
        account_id = cc;
        access_key_id = cc;
        secret_access_key = cc;
        session_token =
            subst (Given read "R2_SESSION_TOKEN") (ap (λ b. b.session_token) same) token_read;
        jurisdiction = subst Chosen (ap (λ b. b.jurisdiction) same) j_read;
        connect_timeout = sym (ap (λ b. b.connect_timeout) same);
        read_timeout = sym (ap (λ b. b.read_timeout) same);
        operation_timeout = sym (ap (λ b. b.operation_timeout) same);
        operation_attempt_timeout = sym (ap (λ b. b.operation_attempt_timeout) same);
        sdk_max_attempts = sym (ap (λ b. b.sdk_max_attempts) same);
      }

  env_read : (c : R2Config) → from_env_with read ≡ ok c → IsFromEnv read c × IsConfig c
  unfolding from_env_with
  env_read c h =
      let (id, id_read, h1) = >>=-eq-ok (required_env_with read "R2_ACCOUNT_ID") _ h in
      let (key, key_read, h2) = >>=-eq-ok (required_env_with read "R2_ACCESS_KEY_ID") _ h1 in
      let (secret, secret_read, h3) =
        >>=-eq-ok (required_env_with read "R2_SECRET_ACCESS_KEY") _ h2 in
      let (token, token_read, h4) = >>=-eq-ok (optional_env_with read "R2_SESSION_TOKEN") _ h3 in
      let (text, text_read, h5) = >>=-eq-ok (optional_env_with read "R2_JURISDICTION") _ h4 in
      let (j, parsed, h6) = >>=-eq-ok (parsed_jurisdiction text) _ h5 in
      let (valid, same) = (build_iff (settings id key secret token j) c).0 h6 in
      (
        from_parts id key secret token j ((required_env_with_iff _ id).0 id_read)
            ((required_env_with_iff _ key).0 key_read)
            ((required_env_with_iff _ secret).0 secret_read)
            ((optional_env_with_iff _ token).0 token_read)
            (parsed-Chosen text j ((optional_env_with_iff _ text).0 text_read) parsed) same,
        valid,
      )

  Chosen-parsed :
      (c : R2Config)
      → Chosen c.jurisdiction
      → (o : Option Text) × Given read "R2_JURISDICTION" o
        × (parsed_jurisdiction o ≡ ok c.jurisdiction)
  unfolding parsed_jurisdiction
  Chosen-parsed c (inl (absent, e)) = (none, absent, rw e)
  Chosen-parsed c (inr named) = (some _, named, from_str-jurisdiction_name c.jurisdiction)

  of_env : (c : R2Config) → IsFromEnv read c → IsConfig c → from_env_with read ≡ ok c
  unfolding from_env_with
  of_env c e valid =
      let id = (required_env_with_iff "R2_ACCOUNT_ID" c.account_id).1 e.account_id in
      let key = (required_env_with_iff "R2_ACCESS_KEY_ID" c.access_key_id).1 e.access_key_id in
      let secret =
        (required_env_with_iff "R2_SECRET_ACCESS_KEY" c.secret_access_key).1 e.secret_access_key in
      let token = (optional_env_with_iff "R2_SESSION_TOKEN" c.session_token).1 e.session_token in
      let (text, given, parsed) = Chosen-parsed c e.jurisdiction in
      let found = (optional_env_with_iff "R2_JURISDICTION" text).1 given in
      let same : settings c.account_id c.access_key_id c.secret_access_key c.session_token
            c.jurisdiction
          ≡ builder_of c =
        rw (
          e.connect_timeout, e.read_timeout, e.operation_timeout, e.operation_attempt_timeout,
          e.sdk_max_attempts,
        ) in
      rw (from_env_with, id, key, secret, token, found, parsed) ((build_iff _ c).1 (valid, same))

-- `R2Config::from_env` gives a configuration exactly where it is a valid one, its settings are those of
-- the environment, a variable that is not present standing for no session token or for the default
-- jurisdiction, and every other setting is unset.
pub from_env_with_iff :
    (read : String → Result Text VarError) (c : R2Config)
    → (from_env_with read ≡ ok c) ↔ (IsFromEnv read c × IsConfig c)
from_env_with_iff read c = (env_read read c, λ (e, valid). of_env read c e valid)
