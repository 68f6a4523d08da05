-- ===== src/Object/Get/Requests.antt =====
-- src/object.rs: which downloads reach R2, and with what request.
use r2kit.Prelude.{
  ℕ, ◌≤◌, ◌<◌, ◌≡◌, ◌≢◌, ◌↔◌, ◌⊎◌, inl, inr, refl, sym, ap, arith, Bool, true, false, not, String,
  Option, none, some, List, [], ◌∷◌, Text, Result, ok, err, All, all, ℤ, some-injective, err-ne-ok,
  err-injective, ◌∙◌, >>=-eq-ok, ok-injective, Result-cases, Option-cases, reject, subst,
}
use r2kit.Error.{
  Error, SdkError, map_object_error, not_modified, precondition_failed, remote, status_of,
  has_status,
}
use r2kit.Sdk.{finished}
use r2kit.Object.Options.{is_header_byte, validate_metadata_header}
use r2kit.Object.Range.{ByteRange}
use r2kit.Object.Range.Parses.{selected, validate_range_iff}
use r2kit.Object.Get.{
  GetObjectBuilder, GetObjectRequest, ObjectHeaders, checked_header, checked_range, header_value,
  get_request, object_metadata,
}
use r2kit.Object.Get.Sends.{DownloadedObject, send_get}

not_rejected : (b : Bool) (e : Error) → reject (not b) e ≡ ok tt → b ≡ true
not_rejected true e h = refl
not_rejected false e h = cc

-- A header value that cannot end its header: not empty, and of tabs and visible ASCII only.
abbrev pub IsHeader : Text → Type 0
IsHeader value = (value ≢ []) × All (λ c. (c ≡ b'\t') ⊎ ((0x20 ≤ c) × (c ≤ 0x7e))) value

header_bytes_iff :
    (value : Text)
    → (all is_header_byte value ≡ true) ↔ All (λ c. (c ≡ b'\t') ⊎ ((0x20 ≤ c) × (c ≤ 0x7e))) value
unfolding is_header_byte
header_bytes_iff [] = ground arith
header_bytes_iff (c ∷ cs) = ground (arith, header_bytes_iff cs)

pub validate_metadata_header_iff :
    (field : String) (value : Text)
    → (validate_metadata_header field value ≡ ok tt) ↔ IsHeader value
unfolding validate_metadata_header
validate_metadata_header_iff field [] = (λ h. cc, λ h. absurd (h.0 refl))
validate_metadata_header_iff field (c ∷ cs) =
    let same = header_bytes_iff (c ∷ cs) in
    (λ h. (λ e. cc, same.0 (not_rejected _ _ h)), λ (_, h). rw (same.1 h))

-- The request of a download that `send` lets through.
pub record IsRequest (b : GetObjectBuilder) (request : GetObjectRequest) : Type 0 where
  pub bucket : request.bucket ≡ b.bucket.name.text
  pub key : b.key ≡ ok (record { text = request.key })
  pub range : request.range ≡ header_value b.range
  pub some_byte : (r : ByteRange) → b.range ≡ some r → (size : ℕ) × (0 < (selected r size).1)
  pub if_match : request.if_match ≡ b.if_match
  pub if_none_match : request.if_none_match ≡ b.if_none_match
  pub if_modified_since : request.if_modified_since ≡ b.if_modified_since
  pub if_unmodified_since : request.if_unmodified_since ≡ b.if_unmodified_since
  pub match_header : (v : Text) → b.if_match ≡ some v → IsHeader v
  pub none_match_header : (v : Text) → b.if_none_match ≡ some v → IsHeader v

checked_header_iff :
    (field : String) (o : Option Text)
    → (checked_header field o ≡ ok tt) ↔ ((v : Text) → o ≡ some v → IsHeader v)
checked_header_iff field none = (λ h v e. cc, λ h. refl)
checked_header_iff field (some value) = (
  λ h v e. subst IsHeader (some-injective e) ((validate_metadata_header_iff field value).0 h),
  λ h. (validate_metadata_header_iff field value).1 (h value refl),
)

checked_range_iff :
    (o : Option ByteRange)
    → (checked_range o ≡ ok tt)
      ↔ ((r : ByteRange) → o ≡ some r → (size : ℕ) × (0 < (selected r size).1))
checked_range_iff none = (λ h v e. cc, λ h. refl)
checked_range_iff (some range) = (
  λ h r e.
      subst (λ r. (size : ℕ) × (0 < (selected r size).1)) (some-injective e)
        ((validate_range_iff range).0 h),
  λ h. (validate_range_iff range).1 (h range refl),
)

asked :
    (b : GetObjectBuilder) (request : GetObjectRequest)
    → get_request b ≡ ok request
    → IsRequest b request
unfolding get_request
asked b request h =
    let (key, has_key, h1) = >>=-eq-ok b.key _ h in
    let (_, range, h2) = >>=-eq-ok (checked_range b.range) _ h1 in
    let (_, matched, h3) = >>=-eq-ok (checked_header "if_match" b.if_match) _ h2 in
    let (_, unmatched, h4) = >>=-eq-ok (checked_header "if_none_match" b.if_none_match) _ h3 in
    subst (IsRequest b) (ok-injective h4) (record {
      bucket = refl;
      key = has_key;
      range = refl;
      some_byte = (checked_range_iff b.range).0 range;
      if_match = refl;
      if_none_match = refl;
      if_modified_since = refl;
      if_unmodified_since = refl;
      match_header = (checked_header_iff "if_match" b.if_match).0 matched;
      none_match_header = (checked_header_iff "if_none_match" b.if_none_match).0 unmatched;
    })

asks :
    (b : GetObjectBuilder) (request : GetObjectRequest)
    → IsRequest b request
    → get_request b ≡ ok request
unfolding get_request
asks b request q =
    let range = (checked_range_iff b.range).1 q.some_byte in
    let matched = (checked_header_iff "if_match" b.if_match).1 q.match_header in
    let unmatched = (checked_header_iff "if_none_match" b.if_none_match).1 q.none_match_header in
    rw (get_request, q.key, range, matched, unmatched) (ap (λ r. ok r) (same q))
  where
    same :
        IsRequest b request
        → ◌≡◌ {A = GetObjectRequest}
            (record {
              bucket = b.bucket.name.text;
              key = request.key;
              range = header_value b.range;
              if_match = b.if_match;
              if_none_match = b.if_none_match;
              if_modified_since = b.if_modified_since;
              if_unmodified_since = b.if_unmodified_since;
            })
            request
    same q = rw (
      ← q.bucket,
      ← q.range,
      ← q.if_match,
      ← q.if_none_match,
      ← q.if_modified_since,
      ← q.if_unmodified_since,
    )

-- A download is let through, with a given request, exactly where the key is valid, the range selects a
-- byte of some object, the conditions are header values without control characters but tabs, and the
-- request has the bucket, the key, the printed range and the conditions of the builder.
pub get_request_iff :
    (b : GetObjectBuilder) (request : GetObjectRequest)
    → (get_request b ≡ ok request) ↔ IsRequest b request
get_request_iff b request = (asked b request, asks b request)

-- The error of a refused request: by the status 404, 304 or 412, or as the SDK's failure.
abbrev pub RefusedAs : String → SdkError → Error → Type 0
RefusedAs operation e error =
    ((status_of e ≡ some 404) × (error ≡ Error.not_found))
    ⊎ ((status_of e ≡ some 304) × (error ≡ not_modified))
    ⊎ ((status_of e ≡ some 412) × (error ≡ precondition_failed))
    ⊎ ((status_of e ≢ some 404)
        × (status_of e ≢ some 304)
        × (status_of e ≢ some 412)
        × (error ≡ remote operation e))

status_cases :
    (e : SdkError) (n : ℕ)
    → ((has_status e n ≡ true) × (status_of e ≡ some n))
      ⊎ ((has_status e n ≡ false) × (status_of e ≢ some n))
status_cases e n = elim (Option-cases e.raw_response) [
  | inl silent ↦ rw silent (inr (refl, λ h. cc))
  | inr (r, replied) ↦ rw replied (ground arith)
]

map_object_error-RefusedAs :
    (operation : String) (e : SdkError) → RefusedAs operation e (map_object_error operation e)
unfolding map_object_error
map_object_error-RefusedAs operation e = elim (status_cases e 404) [
  | inl (is404, s404) ↦ inl (s404, rw (map_object_error, is404) refl)
  | inr (no404, n404) ↦ elim (status_cases e 304) [
    | inl (is304, s304) ↦ inr (inl (s304, rw (map_object_error, no404, is304) refl))
    | inr (no304, n304) ↦ elim (status_cases e 412) [
      | inl (is412, s412) ↦ inr (inr (inl (s412, rw (map_object_error, no404, no304, is412) refl)))
      | inr (no412, n412) ↦
          inr (inr (inr (n404, n304, n412, rw (map_object_error, no404, no304, no412) refl)))
    ]
  ]
]

-- A download sends at most one request. It sends none, and fails as the checks do, where they fail;
-- otherwise it sends the request of the checks. Where R2 refuses it, the error says that the object is not
-- there for the status 404, that it is not modified for 304, that a condition failed for 412, and keeps
-- the SDK's failure for any other; where the download succeeds it returns the body of the answer.
pub send_get-once :
    {Body : Type 0} (http_date : Text → Option ℤ) (system_time : ℤ → Option ℕ)
    (answer : GetObjectRequest → Result (ObjectHeaders × Body) SdkError) (b : GetObjectBuilder)
    (log : List GetObjectRequest)
    → ((e : Error) × (get_request b ≡ err e)
        × (send_get http_date system_time (λ request log. (answer request, request ∷ log)) b log
            ≡ finished (err e) log))
      ⊎ ((request : GetObjectRequest) × (get_request b ≡ ok request)
          × (result : Result (DownloadedObject Body) Error) × (send_get http_date system_time
                (λ request log. (answer request, request ∷ log))
                b
                log
              ≡ finished result (request ∷ log))
          × ((e : SdkError)
              → answer request ≡ err e
              → (error : Error) × (result ≡ err error) × RefusedAs "GetObject" e error)
          × ((d : DownloadedObject Body)
              → result ≡ ok d
              → (headers : ObjectHeaders) × (answer request ≡ ok (headers, d.body))))
unfolding send_get
send_get-once http_date system_time answer b log = elim (Result-cases (get_request b)) [
  | inr (e, bad) ↦ inl (e, bad, rw (send_get, bad))
  | inl (request, good) ↦ elim (Result-cases (answer request)) [
    | inr (e, refused) ↦ inr (
      request,
      good,
      err (map_object_error "GetObject" e),
      rw (send_get, good, refused),
      λ e' h.
          let same = err-injective (sym refused ∙ h) in
          (
            map_object_error "GetObject" e,
            refl,
            subst (λ e'. RefusedAs "GetObject" e' (map_object_error "GetObject" e)) same
                (map_object_error-RefusedAs "GetObject" e),
          ),
      λ d h. absurd (err-ne-ok h),
    )
    | inl (output, replied) ↦
        elim (Result-cases (object_metadata http_date system_time "GetObject" output.0)) [
          | inr (e, bad) ↦ inr (
            request,
            good,
            err e,
            rw (send_get, good, replied, bad),
            λ e' h. absurd (err-ne-ok (sym h ∙ replied)),
            λ d h. absurd (err-ne-ok h),
          )
          | inl (metadata, read) ↦ inr (
            request,
            good,
            ok (record { metadata = metadata; body = output.1 }),
            rw (send_get, good, replied, read),
            λ e' h. absurd (err-ne-ok (sym h ∙ replied)),
            λ d h. (output.0, rw (replied, ← ok-injective h)),
          )
        ]
  ]
]
