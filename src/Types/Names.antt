-- ===== src/Types/Names.antt =====
-- What the validated names of src/types.rs promise.
use r2kit.Prelude.{
  ℕ, ◌≤◌, ◌≡◌, ◌≢◌, ◌↔◌, true, false, Text, arith, ok, length, All, all, [], ◌∷◌, ◌⊎◌,
}
use r2kit.Types.{
  ObjectKey, BucketName, new_object_key, new_bucket_name, is_bucket_byte, starts_with_byte,
  ends_with_byte,
}

-- A lowercase ASCII letter, a digit or a hyphen.
abbrev pub BucketByte : ℕ → Type 0
BucketByte b = ((b'a' ≤ b) × (b ≤ b'z')) ⊎ ((b'0' ≤ b) × (b ≤ b'9')) ⊎ (b ≡ b'-')

abbrev pub Last : (ℕ → Type 0) → Text → Type 0
Last P [] = Unit
Last P (x ∷ []) = P x
Last P (x ∷ y ∷ ys) = Last P (y ∷ ys)

abbrev pub First : (ℕ → Type 0) → Text → Type 0
First P [] = Unit
First P (x ∷ xs) = P x

-- The rule that the documentation of `BucketName` gives.
pub record IsBucketName (name : Text) : Type 0 where
  pub long_enough : 3 ≤ length name
  pub short_enough : length name ≤ 63
  pub bytes : All BucketByte name
  pub first : First (λ b. b ≢ b'-') name
  pub last : Last (λ b. b ≢ b'-') name

is_bucket_byte_iff : (b : ℕ) → (is_bucket_byte b ≡ true) ↔ BucketByte b
unfolding is_bucket_byte
is_bucket_byte_iff b = ground arith

all_iff : (name : Text) → (all is_bucket_byte name ≡ true) ↔ All BucketByte name
all_iff [] = ground arith
all_iff (b ∷ bs) = ground (arith, is_bucket_byte_iff b, all_iff bs)

First-iff : (name : Text) → (starts_with_byte b'-' name ≡ false) ↔ First (λ b. b ≢ b'-') name
First-iff [] = ground arith
First-iff (b ∷ bs) = ground arith

Last-iff : (name : Text) → (ends_with_byte b'-' name ≡ false) ↔ Last (λ b. b ≢ b'-') name
Last-iff [] = ground arith
Last-iff (b ∷ []) = ground arith
Last-iff (b ∷ c ∷ bs) = Last-iff (c ∷ bs)

IsBucketName-accepted :
    (name : Text) → (new_bucket_name name ≡ ok (record { text = name })) ↔ IsBucketName name
unfolding new_bucket_name
IsBucketName-accepted name = ground (arith, all_iff name, First-iff name, Last-iff name)

bucket_text :
    (name : Text) {b : BucketName} → new_bucket_name name ≡ ok b → b ≡ record { text = name }
unfolding new_bucket_name
bucket_text name h = ground arith

-- `BucketName::new` accepts exactly the documented names, and keeps the text.
pub new_bucket_name_iff :
    (name : Text) (b : BucketName)
    → (new_bucket_name name ≡ ok b) ↔ (IsBucketName name × (b ≡ record { text = name }))
new_bucket_name_iff name b = (
  λ h. let e = bucket_text name h in ((IsBucketName-accepted name).0 (rw e at h), e),
  λ (v, e). rw e ((IsBucketName-accepted name).1 v),
)

-- `ObjectKey::new` accepts exactly the texts of 1 to 1,024 bytes, and keeps the text.
pub new_object_key_iff :
    (key : Text)
    → (new_object_key key ≡ ok (record { text = key })) ↔ ((1 ≤ length key) × (length key ≤ 1024))
unfolding new_object_key
new_object_key_iff [] = ground arith
new_object_key_iff (b ∷ bs) = ground arith

-- The inversions that a caller of the constructors needs.
pub new_bucket_name-ok :
    (name : Text) {b : BucketName}
    → new_bucket_name name ≡ ok b
    → (b ≡ record { text = name }) × IsBucketName name
new_bucket_name-ok name {b} h = let (v, e) = (new_bucket_name_iff name b).0 h in (e, v)

pub new_object_key-ok :
    (key : Text) {k : ObjectKey}
    → new_object_key key ≡ ok k
    → (k ≡ record { text = key }) × (1 ≤ length key) × (length key ≤ 1024)
unfolding new_object_key
new_object_key-ok [] h = ground arith
new_object_key-ok (c ∷ cs) h = ground arith
