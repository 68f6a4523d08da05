-- ===== src/Object/Removal.antt =====
-- src/object.rs: the deletion of one object, the abort of an upload by its id, and presigned downloads and
-- deletions. The SDK's requests and their signing are parameters.
use r2kit.Prelude.{
  ℕ, zero, suc, Bool, true, false, ◌&&◌, ◌||◌, Text, [], ◌∷◌, length, drop, leb, ◌==◌,
  if◌then◌else◌, Result, reject,
}
use r2kit.Error.{SdkError, invalid_input, remote, from_sdk}
use r2kit.Types.{new_object_key}
use r2kit.Sdk.{Remote, AbortMultipartUploadRequest, ◌>>=◌, ◌>>◌, lift, send}
use r2kit.Multipart.Session.{Bucket}

-- A request for one object: the bucket and the key.
pub record ObjectRequest : Type 0 where
  pub bucket : Text
  pub key : Text

-- The code points of two and three bytes that Unicode counts as white space.
abbrev is_space2 : ℕ → ℕ → Bool
is_space2 a b = a == 0xc2 && (b == 0x85 || b == 0xa0)

abbrev is_space3 : ℕ → ℕ → ℕ → Bool
is_space3 a b c =
    (a == 0xe1 && b == 0x9a && c == 0x80)
    || (a == 0xe2
        && b == 0x80
        && ((leb 0x80 c && leb c 0x8a) || c == 0xa8 || c == 0xa9 || c == 0xaf))
    || (a == 0xe2 && b == 0x81 && c == 0x9f)
    || (a == 0xe3 && b == 0x80 && c == 0x80)

-- The bytes of the white space at the start of a text.
abbrev space_width : Text → ℕ
space_width [] = 0
space_width (a ∷ []) = if (leb 9 a && leb a 13) || a == 32 then 1 else 0
space_width (a ∷ b ∷ []) =
    if (leb 9 a && leb a 13) || a == 32 then 1 else (if is_space2 a b then 2 else 0)
space_width (a ∷ b ∷ c ∷ rest) =
    if (leb 9 a && leb a 13) || a == 32
    then 1
    else (if is_space2 a b then 2 else (if is_space3 a b c then 3 else 0))

abbrev blank_from : ℕ → Text → Bool
blank_from fuel [] = true
blank_from zero (a ∷ rest) = false
blank_from (suc fuel) (a ∷ rest) =
    let later = blank_from fuel (drop (space_width (a ∷ rest)) (a ∷ rest)) in
    if space_width (a ∷ rest) == 0 then false else later

-- `value.trim().is_empty()`
unfoldable pub is_blank : Text → Bool
is_blank value = blank_from (length value) value

module _ {S : Type 0} where
  -- `Bucket::delete`
  unfoldable pub delete :
      (ObjectRequest → S → Result (Unit {0}) SdkError × S) → Bucket → Text → Remote S (Unit {0})
  unfolding new_object_key
  delete delete_object bucket key = do
    key ← lift (new_object_key key)
    send (delete_object (record { bucket = bucket.name.text; key = key.text }))
        (remote "DeleteObject")

  -- `Bucket::abort_multipart_upload`
  unfoldable pub abort_multipart_upload :
      (AbortMultipartUploadRequest → S → Result (Unit {0}) SdkError × S)
      → Bucket
      → Text
      → Text
      → Remote S (Unit {0})
  unfolding new_object_key is_blank
  abort_multipart_upload abort bucket key upload_id = do
    key ← lift (new_object_key key)
    lift (reject (is_blank upload_id) (invalid_input "upload_id" "must not be empty"))
    send (abort (record { bucket = bucket.name.text; key = key.text; upload_id = upload_id }))
        (from_sdk "AbortMultipartUpload")
