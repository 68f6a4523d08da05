-- ===== src/Client/Settings.antt =====
-- src/client.rs: what a client is made of, and what the answer about a bucket means.
use r2kit.Prelude.{
  ◌≡◌, ◌↔◌, ◌⊎◌, ◌∙◌, inl, inr, refl, sym, ap, Bool, true, false, ◌||◌, is_some, Option, none, some,
  Text, Result, ok, err, String, Duration, Result-cases, Bool-cases, ok-injective, err-ne-ok,
}
use r2kit.Error.{SdkError, has_status}
use r2kit.Types.{BucketName, new_bucket_name}
use r2kit.Sdk.{finished, reply-cases, failed-ne-done, finished-state, finished-value}
use r2kit.Config.{R2Config, VarError, endpoint_url, from_env_with}
use r2kit.Config.Accepts.{IsConfig}
use r2kit.Config.Env.{IsFromEnv, from_env_with_iff}
use r2kit.Client.{SdkConfig, TimeoutConfig, timeout_config, new_client, from_env, existence}
use r2kit.Client.Buckets.{bucket_exists}

-- A timeout of the SDK's configuration.
abbrev pub timeout_of : (TimeoutConfig → Option Duration) → Option TimeoutConfig → Option Duration
timeout_of field none = none
timeout_of field (some timeouts) = field timeouts

none_set :
    (w x y z : Option Duration)
    → (is_some w || is_some x || is_some y || is_some z) ≡ false
    → (w ≡ none) × (x ≡ none) × (y ≡ none) × (z ≡ none)
none_set none none none none h = (refl, refl, refl, refl)
none_set (some w) x y z h = cc
none_set none (some x) y z h = cc
none_set none none (some y) z h = cc
none_set none none none (some z) h = cc

-- The SDK gets each timeout exactly as it is configured, and those that are not stay unset.
pub timeouts_kept :
    (c : R2Config)
    → (timeout_of (λ t. t.connect_timeout) (timeout_config c) ≡ c.connect_timeout)
      × (timeout_of (λ t. t.read_timeout) (timeout_config c) ≡ c.read_timeout)
      × (timeout_of (λ t. t.operation_timeout) (timeout_config c) ≡ c.operation_timeout)
      × (timeout_of (λ t. t.operation_attempt_timeout) (timeout_config c)
          ≡ c.operation_attempt_timeout)
unfolding timeout_config
timeouts_kept c =
    elim (Bool-cases (
      is_some c.connect_timeout
      || is_some c.read_timeout
      || is_some c.operation_timeout
      || is_some c.operation_attempt_timeout)) [
        | inl any ↦ (
          rw (timeout_config, any),
          rw (timeout_config, any),
          rw (timeout_config, any),
          rw (timeout_config, any),
        )
        | inr unset ↦
            let (connect, read, operation, attempt) =
              none_set c.connect_timeout c.read_timeout c.operation_timeout
                c.operation_attempt_timeout unset in
            (
              rw (timeout_config, unset) (sym connect),
              rw (timeout_config, unset) (sym read),
              rw (timeout_config, unset) (sym operation),
              rw (timeout_config, unset) (sym attempt),
            )
      ]

-- What a client that is made from the environment works with.
pub record IsClient (read : String → Result Text VarError) (s : SdkConfig) (c : R2Config)
    : Type 0 where
  pub valid : IsConfig c
  pub of_env : IsFromEnv read c
  pub endpoint : s.endpoint_url ≡ endpoint_url c
  pub access_key : read "R2_ACCESS_KEY_ID" ≡ ok s.access_key_id
  pub secret_key : read "R2_SECRET_ACCESS_KEY" ≡ ok s.secret_access_key
  pub token : s.session_token ≡ c.session_token
  pub no_timeout : s.timeout_config ≡ none

-- A client that is made from the environment has a valid configuration of the environment, its endpoint,
-- the credentials of the environment and no timeouts of its own.
pub from_env-IsClient :
    (read : String → Result Text VarError) (s : SdkConfig)
    → from_env read ≡ ok s
    → (c : R2Config) × IsClient read s c
unfolding from_env new_client timeout_config
from_env-IsClient read s h = elim (Result-cases (from_env_with read)) [
  | inr (e, bad) ↦ absurd (err-ne-ok (rw (from_env, bad) at h))
  | inl (c, good) ↦
      let made = ok-injective (rw (from_env, good) at h) in
      let (of_env, valid) = (from_env_with_iff read c).0 good in
      let unset : timeout_config c ≡ none = rw (
        timeout_config, of_env.connect_timeout, of_env.read_timeout, of_env.operation_timeout,
        of_env.operation_attempt_timeout,
      ) in
      (
        c,
        record {
          valid = valid;
          of_env = of_env;
          endpoint = sym (ap (λ s. s.endpoint_url) made);
          access_key = of_env.access_key_id ∙ ap (λ s. ok s.access_key_id) made;
          secret_key = of_env.secret_access_key ∙ ap (λ s. ok s.secret_access_key) made;
          token = sym (ap (λ s. s.session_token) made);
          no_timeout = sym (ap (λ s. s.timeout_config) made) ∙ unset;
        },
      )
]

module _ {S : Type 0} (request : Text → S → Result (Unit {0}) SdkError × S) (name : Text) (s t : S)
    (b : Bool) where
  -- How R2 answers the question about a bucket.
  abbrev Answer : BucketName → Type 0
  Answer bucket =
      ((request bucket.text s ≡ (ok tt, t)) × (b ≡ true))
      ⊎ ((e : SdkError) × (request bucket.text s ≡ (err e, t))
          × (has_status e 404 ≡ true)
          × (b ≡ false))

  bucket_exists-Answer :
      bucket_exists request name s ≡ finished (ok b) t
      → (bucket : BucketName) × (new_bucket_name name ≡ ok bucket) × Answer bucket
  unfolding bucket_exists existence
  bucket_exists-Answer h = elim (Result-cases (new_bucket_name name)) [
    | inr (e, bad) ↦ absurd (failed-ne-done (rw (bucket_exists, bad) at h))
    | inl (bucket, valid) ↦ elim (reply-cases (request bucket.text s)) [
      | inl (_, u, replied) ↦
          let h' = rw (bucket_exists, valid, replied) at h in
          (bucket, valid, inl (rw (replied, finished-state h'), sym (finished-value h')))
      | inr (e, u, replied) ↦ elim (Bool-cases (has_status e 404)) [
        | inl missing ↦
            let h' = rw (bucket_exists, valid, replied, missing) at h in
            (
              bucket,
              valid,
              inr (e, rw (replied, finished-state h'), missing, sym (finished-value h')),
            )
        | inr other ↦ absurd (failed-ne-done (rw (bucket_exists, valid, replied, other) at h))
      ]
    ]
  ]

  Answer-bucket_exists :
      (bucket : BucketName)
      → new_bucket_name name ≡ ok bucket
      → Answer bucket
      → bucket_exists request name s ≡ finished (ok b) t
  unfolding bucket_exists existence
  Answer-bucket_exists bucket valid (inl (replied, e)) = rw (bucket_exists, valid, replied, e)
  Answer-bucket_exists bucket valid (inr (e, replied, missing, gone)) =
      rw (bucket_exists, valid, replied, missing, gone)

-- `bucket_exists` answers exactly where the name is valid and R2 answers it: yes where R2 grants the
-- request, no where it refuses it with status 404; R2's state is then that after the one request.
pub bucket_exists_iff :
    {S : Type 0} (request : Text → S → Result (Unit {0}) SdkError × S) (name : Text) (s t : S)
    (b : Bool)
    → (bucket_exists request name s ≡ finished (ok b) t) ↔ (
        (bucket : BucketName) × (new_bucket_name name ≡ ok bucket)
        × (((request bucket.text s ≡ (ok tt, t)) × (b ≡ true))
            ⊎ ((e : SdkError) × (request bucket.text s ≡ (err e, t))
                × (has_status e 404 ≡ true)
                × (b ≡ false))))
bucket_exists_iff request name s t b = (
  bucket_exists-Answer request name s t b,
  λ (bucket, valid, answer). Answer-bucket_exists request name s t b bucket valid answer,
)
