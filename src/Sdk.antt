-- ===== src/Sdk.antt =====
-- The AWS SDK as the code sees it: a parameter. A request goes to the remote state, of any type, and
-- gives a reply and the state after it. Replies hold the fields that the code reads. A computation
-- ends with a result and a state, or is `unfinished` when the fuel of a loop in it runs out.
use r2kit.Prelude.{
  ℕ, ◌≡◌, refl, Bool, Option, List, Text, Result, ok, err, ℤ, Duration, ◌⊎◌, inl, inr,
}
use r2kit.BTreeMap.{BTreeMap}
use r2kit.Error.{Error, SdkError}

pub record CreateMultipartUploadRequest : Type 0 where
  pub bucket : Text
  pub key : Text
  pub content_type : Option Text
  pub cache_control : Option Text
  pub content_disposition : Option Text
  pub content_encoding : Option Text
  pub content_language : Option Text
  pub expires : Option ℕ
  pub metadata : Option (BTreeMap Text Text)

pub record UploadPartRequest : Type 0 where
  pub bucket : Text
  pub key : Text
  pub upload_id : Text
  pub part_number : ℕ
  pub content_length : Option ℕ
  pub content_md5 : Option Text
  pub body : List ℕ

pub record ListPartsRequest : Type 0 where
  pub bucket : Text
  pub key : Text
  pub upload_id : Text
  pub max_parts : ℕ
  pub part_number_marker : Option Text

pub record RemotePart : Type 0 where
  pub part_number : Option ℤ
  pub size : Option ℤ
  pub e_tag : Option Text

pub record ListPartsOutput : Type 0 where
  pub parts : List RemotePart
  pub is_truncated : Option Bool
  pub next_part_number_marker : Option Text

pub record CompleteMultipartUploadRequest : Type 0 where
  pub bucket : Text
  pub key : Text
  pub upload_id : Text
  pub parts : List (ℕ × Text)

pub record AbortMultipartUploadRequest : Type 0 where
  pub bucket : Text
  pub key : Text
  pub upload_id : Text

-- A signed request: method, address and headers.
pub record SignedRequest : Type 0 where
  pub method : Text
  pub uri : Text
  pub headers : List (Text × Text)

pub record Sdk (S : Type 0) : Type 0 where
  pub create_multipart_upload : CreateMultipartUploadRequest → S → Result (Option Text) SdkError × S
  pub upload_part : UploadPartRequest → S → Result (Option Text) SdkError × S
  pub list_parts : ListPartsRequest → S → Result ListPartsOutput SdkError × S
  pub complete_multipart_upload :
      CompleteMultipartUploadRequest → S → Result (Option Text) SdkError × S
  pub abort_multipart_upload : AbortMultipartUploadRequest → S → Result (Unit {0}) SdkError × S
  -- Signing a part takes the lifetime and may fail; it does not reach the remote state.
  pub presign_upload_part : UploadPartRequest → Duration → Option SignedRequest

pub data Outcome (S A : Type 0) : Type 0 where
  finished : Result A Error → S → Outcome S A
  unfinished : Outcome S A

abbrev pub Remote : Type 0 → Type 0 → Type 0
Remote S A = S → Outcome S A

-- What runs after a part that ended.
abbrev pub and_then {ℓ} :
    {S A : Type 0} {B : Type ℓ} → Outcome S A → B → (Error → S → B) → (A → S → B) → B
and_then (finished (ok a) s) stuck failed f = f a s
and_then (finished (err e) s) stuck failed f = failed e s
and_then unfinished stuck failed f = stuck

infixl 5 ◌>>=◌ ◌>>◌
abbrev pub ◌>>=◌ : {S A B : Type 0} → Remote S A → (A → Remote S B) → Remote S B
◌>>=◌ m f s = and_then (m s) unfinished (λ e t. finished (err e) t) f

abbrev pub ◌>>◌ : {S B : Type 0} → Remote S (Unit {0}) → Remote S B → Remote S B
m >> k = m >>= λ _. k

-- A step that stays off the network.
abbrev pub lift : {S A : Type 0} → Result A Error → Remote S A
lift r s = finished r s

abbrev reply : {S A : Type 0} → (SdkError → Error) → Result A SdkError × S → Outcome S A
reply f (ok a, s) = finished (ok a) s
reply f (err e, s) = finished (err (f e)) s

-- `.send().await.map_err(f)`
abbrev pub send : {S A : Type 0} → (S → Result A SdkError × S) → (SdkError → Error) → Remote S A
send call f s = reply f (call s)

-- The two ways in which a request is answered.
pub reply-cases :
    {S A E : Type 0} (r : Result A E × S)
    → ((a : A) × (s : S) × (r ≡ (ok a, s))) ⊎ ((e : E) × (s : S) × (r ≡ (err e, s)))
reply-cases (ok a, s) = inl (a, s, refl)
reply-cases (err e, s) = inr (e, s, refl)

-- Inversion of a bind that succeeds.
pub bind-finished :
    {S A B : Type 0} (m : Remote S A) (f : A → Remote S B) (s u : S) {b : B}
    → (m >>= f) s ≡ finished (ok b) u
    → (a : A) × (t : S) × (m s ≡ finished (ok a) t) × (f a t ≡ finished (ok b) u)
bind-finished {S} {A} {B} m f s u {b} h = go (m s) refl
  where
    go :
        (o : Outcome S A)
        → m s ≡ o
        → (a : A) × (t : S) × (m s ≡ finished (ok a) t) × (f a t ≡ finished (ok b) u)
    go (finished (ok a) t) e = (a, t, e, rw (e, ◌>>=◌) at h)
    go (finished (err x) t) e = cc
    go unfinished e = cc

pub failed-ne-done :
    {S A : Type 0} {e : Error} {a : A} {s t : S}
    → ◌≡◌ {A = Outcome S A} (finished (err e) s) (finished (ok a) t)
    → ⊥
failed-ne-done h = cc

pub finished-state :
    {S A : Type 0} {r q : Result A Error} {s t : S}
    → ◌≡◌ {A = Outcome S A} (finished r s) (finished q t)
    → s ≡ t
finished-state h = cc

pub finished-value :
    {S A : Type 0} {a b : A} {s t : S}
    → ◌≡◌ {A = Outcome S A} (finished (ok a) s) (finished (ok b) t)
    → a ≡ b
finished-value h = cc
