-- ===== src/Object/Put/Tests.antt =====
-- The theorems on uploads with one request of src/object.rs for a small object.
use r2kit.Prelude.{
  ℕ, ◌≡◌, ◌↔◌, refl, some, List, [], ◌∷◌, Text, codes, Result, ok, length, Option, text_eq,
}
use r2kit.Error.{SdkError}
use r2kit.Sdk.{finished}
use r2kit.Object.Options.{ChecksumAlgorithm, crc32, ObjectUploadOptions, default_options}
use r2kit.Object.Put.{PutObjectRequest, request_of, put_request}
use r2kit.Object.Put.Sends.{put_bytes_with_options}
use r2kit.Object.Put.Single.{IsPutRequest, Uploadable, put_request_iff, put_bytes-digest, logged}
use r2kit.Examples.{bucket, codecs, note}

accepted :
    put_request codecs bucket (codes "note") 3 default_options
    ≡ ok (request_of bucket (codes "note") 3 default_options)
unfolding put_request
accepted = refl

put_request_iff_example :
    (put_request codecs bucket (codes "note") 3 default_options
      ≡ ok (request_of bucket (codes "note") 3 default_options))
    ↔ (Uploadable codecs (codes "note") 3 default_options
        × IsPutRequest bucket
            (codes "note")
            3
            default_options
            (request_of bucket (codes "note") 3 default_options))
put_request_iff_example =
    put_request_iff codecs bucket (codes "note") 3 default_options
      (request_of bucket (codes "note") 3 default_options)

-- A toy digest: four bytes of the length.
abbrev compute : List ℕ → ChecksumAlgorithm → Text
compute bytes algo = length bytes ∷ 0 ∷ 0 ∷ 0 ∷ []

abbrev answer : PutObjectRequest → Result (Option Text) SdkError
answer request = ok (some (codes "etag"))

abbrev checked : ObjectUploadOptions
checked = record default_options { checksum = some crc32 }

abbrev sent_request : PutObjectRequest
sent_request =
    request_of bucket (codes "note") 3
      (record checked { checksum_value = some (crc32, 3 ∷ 0 ∷ 0 ∷ 0 ∷ []) })

abbrev log : List (PutObjectRequest × List ℕ)
log = (sent_request, note) ∷ []

put_note :
    put_bytes_with_options codecs
      (logged codecs compute answer)
      (some compute)
      bucket
      (codes "note")
      note
      checked
      []
    ≡ finished (ok (record { etag = some (codes "etag") })) log
unfolding put_bytes_with_options text_eq
put_note = refl

put_bytes-digest_example :
    (request : PutObjectRequest) × (log ≡ (request, note) ∷ [])
    × (request.checksum ≡ some (crc32, compute note crc32))
    × (request.content_length ≡ length note)
put_bytes-digest_example =
    put_bytes-digest codecs compute answer bucket (codes "note") note checked crc32 [] log refl refl
      put_note
