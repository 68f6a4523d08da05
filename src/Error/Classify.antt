-- ===== src/Error/Classify.antt =====
-- What a caller learns from the class of a failed request (src/error.rs).
use r2kit.Prelude.{
  ℕ, ◌≡◌, ◌↔◌, ◌≢◌, ◌⊎◌, Bool-cases, inl, inr, refl, sym, ap, ◌∙◌, arith, String, Bool, true, false,
  Option, none, some, Text, codes, text_eq, text_eq_iff, ◌==◌, [], ◌∷◌,
}
use r2kit.Error.{
  ServiceErrorKind, SdkError, SdkVariant, RawResponse, from_sdk, remote, is_not_found, is_missing,
  from_status, from_code, has_status, sdk_kind, service_code, service_error_from_sdk, fallback_kind,
  one_of, status_of,
}
use r2kit.Error.{and_then}

-- The service's codes for a missing bucket, object or upload.
abbrev pub names_missing : Option Text → Bool
names_missing none = false
names_missing (some code) = one_of ("NoSuchBucket" ∷ "NoSuchKey" ∷ "NoSuchUpload" ∷ []) code

eq_of_text_eq : (s t : Text) → text_eq s t ≡ true → s ≡ t
eq_of_text_eq s t = (text_eq_iff s t).0

from_code-missing :
    (code : Text)
    → names_missing (some code) ≡ true
    → from_code code ≡ some ServiceErrorKind.not_found
unfolding from_code text_eq
from_code-missing code h = elim (Bool-cases (text_eq code (codes "NoSuchBucket"))) [
  | inl e ↦ rw (eq_of_text_eq code (codes "NoSuchBucket") e)
  | inr n₁ ↦ elim (Bool-cases (text_eq code (codes "NoSuchKey"))) [
    | inl e ↦ rw (eq_of_text_eq code (codes "NoSuchKey") e)
    | inr n₂ ↦ elim (Bool-cases (text_eq code (codes "NoSuchUpload"))) [
      | inl e ↦ rw (eq_of_text_eq code (codes "NoSuchUpload") e)
      | inr n₃ ↦ absurd (ground (arith, n₁, n₂, n₃, h))
    ]
  ]
]

from_code-missing_inv :
    (code : Text)
    → from_code code ≡ some ServiceErrorKind.not_found
    → names_missing (some code) ≡ true
unfolding from_code
from_code-missing_inv code h = ground arith

from_status-missing : (status : ℕ) → from_status status ≡ ServiceErrorKind.not_found → status ≡ 404
unfolding from_status
from_status-missing status h = ground arith

fallback-present : (v : SdkVariant) → is_missing (fallback_kind v) ≡ false
unfolding is_missing fallback_kind
fallback-present SdkVariant.construction_failure = refl
fallback-present SdkVariant.timeout_error = refl
fallback-present SdkVariant.dispatch_failure = refl
fallback-present SdkVariant.response_error = refl
fallback-present SdkVariant.service_error = refl
fallback-present SdkVariant.other_error = refl

is_missing-eq : (k : ServiceErrorKind) → is_missing k ≡ true → k ≡ ServiceErrorKind.not_found
unfolding is_missing
is_missing-eq k h = ground arith

-- The class that the status gives, where no code decides it.
no_code :
    (e : SdkError) (status : Option ℕ)
    → and_then (service_code e) from_code ≡ none
    → status_of e ≡ status
    → status ≢ some 404
    → is_missing (sdk_kind e) ≡ false
unfolding sdk_kind
no_code e none ec es other = rw (sdk_kind, ec, es, fallback-present e.variant)
no_code e (some s) ec es other =
    rw (sdk_kind, ec, es)
      (elim (Bool-cases (is_missing (from_status s))) [
        | inl missing ↦ absurd (other (ap some (from_status-missing s (is_missing-eq _ missing))))
        | inr present ↦ present
      ])

Bool-apart : true ≡ false → ⊥
Bool-apart h = cc

none-apart : {k : ServiceErrorKind} → ◌≡◌ {A = Option ServiceErrorKind} none (some k) → ⊥
none-apart h = cc

some-injective :
    {j k : ServiceErrorKind} → ◌≡◌ {A = Option ServiceErrorKind} (some j) (some k) → j ≡ k
some-injective h = cc

-- The class of an error whose status is not 404.
kind-missing :
    (e : SdkError) (code : Option Text)
    → service_code e ≡ code
    → status_of e ≢ some 404
    → (is_missing (sdk_kind e) ≡ true) ↔ (names_missing code ≡ true)
unfolding sdk_kind is_missing
kind-missing e none ec other = rw (no_code e (status_of e) (rw ec) refl other) (ground arith)
kind-missing e (some code) ec other = go (from_code code) refl
  where
    go :
        (k : Option ServiceErrorKind)
        → from_code code ≡ k
        → (is_missing (sdk_kind e) ≡ true) ↔ (names_missing (some code) ≡ true)
    go none eq = (
      λ h. absurd (Bool-apart (sym h ∙ no_code e (status_of e) (rw (ec, eq)) refl other)),
      λ h. absurd (none-apart (sym eq ∙ from_code-missing code h)),
    )
    go (some k) eq =
        let is_k : sdk_kind e ≡ k = rw (sdk_kind, ec, eq) in
        (
          λ h. from_code-missing_inv code (eq ∙ ap some (is_missing-eq k (rw is_k at h))),
          λ h. rw (is_k, some-injective (sym eq ∙ from_code-missing code h)),
        )

not_404 : (e : SdkError) → has_status e 404 ≡ false → status_of e ≢ some 404
not_404 e h found = go e.raw_response refl
  where
    go : (r : Option RawResponse) → e.raw_response ≡ r → ⊥
    go none eq = none-eq (rw eq at found)
      where
        none-eq : ◌≡◌ {A = Option ℕ} none (some 404) → ⊥
        none-eq k = cc
    go (some r) eq =
        let is_404 : (r.status == 404) ≡ false = rw eq at h in
        let status : ◌≡◌ {A = Option ℕ} (some r.status) (some 404) = rw eq at found in
        ground (arith, is_404, status)

-- An error made of a failed request is a "not found" exactly if the response has the status 404, or the
-- service names a missing bucket, object or upload.
pub is_not_found_iff :
    (operation : String) (e : SdkError)
    → (is_not_found (from_sdk operation e) ≡ true)
      ↔ ((has_status e 404 ≡ true) ⊎ (names_missing (service_code e) ≡ true))
unfolding is_not_found from_sdk remote service_error_from_sdk
is_not_found_iff operation e = elim (Bool-cases (has_status e 404)) [
  | inl found ↦ (λ h. inl found, λ h. rw found)
  | inr other ↦
      let same = kind-missing e (service_code e) refl (not_404 e other) in
      (
        λ h. inr (same.0 (rw other at h)),
        λ h.
            rw other
              (same.1 (elim h [ inl found ↦ absurd (apart found other) | inr named ↦ named ])),
      )
]
  where
    apart : {b : Bool} → b ≡ true → b ≡ false → ⊥
    apart h k = cc
