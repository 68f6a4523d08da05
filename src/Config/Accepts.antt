-- ===== src/Config/Accepts.antt =====
-- src/config.rs: which settings R2ConfigBuilder::build accepts.
use r2kit.Prelude.{
  ℕ, ◌≤◌, ◌≡◌, ◌≢◌, ◌↔◌, ◌⊎◌, refl, arith, true, false, Option, none, ok_or-eq-ok, reject-eq-ok,
  ok-injective, subst, some, String, Text, [], ◌∷◌, ok, length, All, all, is_some_and, is_empty,
  Duration, >>=-eq-ok, ok_or, ◌==◌, not, ◌||◌,
}
use r2kit.Error.{missing_field, invalid_attempts, inconsistent_timeouts}
use r2kit.Config.{
  R2Config, R2ConfigBuilder, build, is_ascii_hexdigit, required_non_empty, validate_timeout,
  inconsistent,
}

abbrev pub HexDigit : ℕ → Type 0
HexDigit b = ((b'0' ≤ b) × (b ≤ b'9')) ⊎ ((b'A' ≤ b) × (b ≤ b'F')) ⊎ ((b'a' ≤ b) × (b ≤ b'f'))

-- A configuration that a client can work with.
pub record IsConfig (c : R2Config) : Type 0 where
  pub id_length : length c.account_id ≡ 32
  pub id_digits : All HexDigit c.account_id
  pub access_key : c.access_key_id ≢ []
  pub secret_key : c.secret_access_key ≢ []
  pub token : c.session_token ≢ some []
  pub connect : c.connect_timeout ≢ some 0
  pub read : c.read_timeout ≢ some 0
  pub operation : c.operation_timeout ≢ some 0
  pub attempt : c.operation_attempt_timeout ≢ some 0
  pub attempts : c.sdk_max_attempts ≢ some 0
  pub attempt_within :
      (o a : Duration) → c.operation_timeout ≡ some o → c.operation_attempt_timeout ≡ some a → a ≤ o

-- The builder in which exactly the settings of `c` were made.
abbrev pub builder_of : R2Config → R2ConfigBuilder
builder_of c = record {
  account_id = some c.account_id;
  access_key_id = some c.access_key_id;
  secret_access_key = some c.secret_access_key;
  session_token = c.session_token;
  jurisdiction = c.jurisdiction;
  connect_timeout = c.connect_timeout;
  read_timeout = c.read_timeout;
  operation_timeout = c.operation_timeout;
  operation_attempt_timeout = c.operation_attempt_timeout;
  sdk_max_attempts = c.sdk_max_attempts;
}

hexdigit_iff : (b : ℕ) → (is_ascii_hexdigit b ≡ true) ↔ HexDigit b
unfolding is_ascii_hexdigit
hexdigit_iff b = ground arith

all_iff : (id : Text) → (all is_ascii_hexdigit id ≡ true) ↔ All HexDigit id
all_iff [] = ground arith
all_iff (b ∷ bs) = ground (arith, hexdigit_iff b, all_iff bs)

zero_iff : (v : Option ℕ) → (is_some_and v (λ d. d == 0) ≡ false) ↔ (v ≢ some 0)
zero_iff none = (λ h e. cc, λ h. refl)
zero_iff (some n) = ground arith

empty_iff : (v : Option Text) → (is_some_and v is_empty ≡ false) ↔ (v ≢ some [])
empty_iff none = (λ h e. cc, λ h. refl)
empty_iff (some []) = (λ h. cc, λ h. absurd (h refl))
empty_iff (some (x ∷ xs)) = (λ h e. cc, λ h. refl)

inconsistent_iff :
    (operation attempt : Option Duration)
    → (inconsistent operation attempt ≡ false)
      ↔ ((o a : Duration) → operation ≡ some o → attempt ≡ some a → a ≤ o)
unfolding inconsistent
inconsistent_iff none attempt = (λ h o a e f. cc, λ h. refl)
inconsistent_iff (some o) none = (λ h o a e f. cc, λ h. refl)
inconsistent_iff (some o) (some a) =
    (λ h p b e f. within h e f, λ h. let le = h o a refl refl in ground arith)
  where
    within :
        {o a p b : Duration}
        → inconsistent (some o) (some a) ≡ false
        → ◌≡◌ {A = Option Duration} (some o) (some p)
        → ◌≡◌ {A = Option Duration} (some a) (some b)
        → b ≤ p
    within h e f = ground arith

required_non_empty_iff :
    (v : Option Text) (name : String) (t : Text)
    → (required_non_empty v name ≡ ok t) ↔ ((v ≡ some t) × (t ≢ []))
unfolding required_non_empty
required_non_empty_iff none name t = (λ h. cc, λ h. cc)
required_non_empty_iff (some []) name t = (λ h. cc, λ (e, n). absurd (n cc))
required_non_empty_iff (some (x ∷ xs)) name t = (λ h. (cc, λ e. cc), λ (e, n). cc)

validate_timeout_iff :
    (v : Option Duration) (name : String) → (validate_timeout v name ≡ ok tt) ↔ (v ≢ some 0)
unfolding validate_timeout
validate_timeout_iff v name = ground (arith, zero_iff v)

id_iff :
    (id : Text)
    → ((not (length id == 32) || not (all is_ascii_hexdigit id)) ≡ false)
      ↔ ((length id ≡ 32) × All HexDigit id)
id_iff id = ground (arith, all_iff id)

accepted : (b : R2ConfigBuilder) (c : R2Config) → build b ≡ ok c → IsConfig c × (b ≡ builder_of c)
unfolding build
accepted b c h =
    let (id, has_id, h1) = >>=-eq-ok (ok_or b.account_id (missing_field "account_id")) _ h in
    let (id_ok, h2) = reject-eq-ok _ _ _ h1 in
    let (key, has_key, h3) = >>=-eq-ok (required_non_empty b.access_key_id "access_key_id") _ h2 in
    let (secret, has_secret, h4) =
      >>=-eq-ok (required_non_empty b.secret_access_key "secret_access_key") _ h3 in
    let (token, h5) = reject-eq-ok _ _ _ h4 in
    let (_, connect, h6) = >>=-eq-ok (validate_timeout b.connect_timeout "connect_timeout") _ h5 in
    let (_, read, h7) = >>=-eq-ok (validate_timeout b.read_timeout "read_timeout") _ h6 in
    let (_, operation, h8) =
      >>=-eq-ok (validate_timeout b.operation_timeout "operation_timeout") _ h7 in
    let (_, attempt, h9) =
      >>=-eq-ok (validate_timeout b.operation_attempt_timeout "operation_attempt_timeout") _ h8 in
    let (attempts, h10) =
      reject-eq-ok (is_some_and b.sdk_max_attempts (λ n. n == 0))
        (invalid_attempts "sdk_max_attempts") _ h9 in
    let (within, h11) =
      reject-eq-ok (inconsistent b.operation_timeout b.operation_attempt_timeout)
        inconsistent_timeouts _ h10 in
    let key_ok = (required_non_empty_iff _ _ key).0 has_key in
    let secret_ok = (required_non_empty_iff _ _ secret).0 has_secret in
    let e = ok-injective h11 in
    subst (λ d. IsConfig d × (b ≡ builder_of d)) e
      (
        record {
          id_length = ((id_iff id).0 id_ok).0;
          id_digits = ((id_iff id).0 id_ok).1;
          access_key = key_ok.1;
          secret_key = secret_ok.1;
          token = (empty_iff b.session_token).0 token;
          connect = (validate_timeout_iff _ _).0 connect;
          read = (validate_timeout_iff _ _).0 read;
          operation = (validate_timeout_iff _ _).0 operation;
          attempt = (validate_timeout_iff _ _).0 attempt;
          attempts = (zero_iff b.sdk_max_attempts).0 attempts;
          attempt_within =
              (inconsistent_iff b.operation_timeout b.operation_attempt_timeout).0 within;
        },
        rw (← ok_or-eq-ok _ _ has_id, ← key_ok.0, ← secret_ok.0),
      )

restored : (c : R2Config) → IsConfig c → build (builder_of c) ≡ ok c
unfolding build
restored c v =
    let id = (id_iff c.account_id).1 (v.id_length, v.id_digits) in
    let key =
      (required_non_empty_iff (some c.access_key_id) "access_key_id" _).1 (refl, v.access_key) in
    let secret =
      (required_non_empty_iff (some c.secret_access_key) "secret_access_key" _).1
        (refl, v.secret_key) in
    let token = (empty_iff c.session_token).1 v.token in
    let connect = (validate_timeout_iff c.connect_timeout "connect_timeout").1 v.connect in
    let read = (validate_timeout_iff c.read_timeout "read_timeout").1 v.read in
    let operation = (validate_timeout_iff c.operation_timeout "operation_timeout").1 v.operation in
    let attempt =
      (validate_timeout_iff c.operation_attempt_timeout "operation_attempt_timeout").1 v.attempt in
    let attempts = (zero_iff c.sdk_max_attempts).1 v.attempts in
    let within =
      (inconsistent_iff c.operation_timeout c.operation_attempt_timeout).1 v.attempt_within in
    rw (build, id, key, secret, token, connect, read, operation, attempt, attempts, within)

-- `build` gives a configuration exactly where it is a valid one and the builder has exactly its settings.
pub build_iff :
    (b : R2ConfigBuilder) (c : R2Config) → (build b ≡ ok c) ↔ (IsConfig c × (b ≡ builder_of c))
build_iff b c = (accepted b c, λ (valid, e). rw e (restored c valid))
