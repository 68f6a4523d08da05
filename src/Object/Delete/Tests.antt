-- ===== src/Object/Delete/Tests.antt =====
-- The theorems on `delete_objects` of src/object.rs for three keys.
use r2kit.Prelude.{
  ℕ, ◌+◌, ◌≡◌, none, err, refl, some, [], ◌∷◌, List, Text, codes, traverse, Result, ok, map,
}
use r2kit.Error.{SdkError, invalid_input, service}
use r2kit.Types.{new_object_key}
use r2kit.Object.Delete.{
  BatchDeleteError, no_result, DeleteOutput, DeleteObjectsResult, delete_objects, record_output,
}

abbrev keys : List Text
keys = codes "a" ∷ codes "b" ∷ codes "c" ∷ []

-- An R2 that deletes every key, and counts the requests.
abbrev delete_all : List Text → ℕ → Result DeleteOutput SdkError × ℕ
delete_all batch s = (ok (record { deleted = map (λ k. some k) batch; errors = [] }), s + 1)

abbrev all_deleted : DeleteObjectsResult
all_deleted = record { deleted_keys = keys; failures = []; request_count = 1 }

deleted : delete_objects delete_all keys 0 ≡ (ok all_deleted, 1)
unfolding delete_objects traverse new_object_key record_output
deleted = refl

-- An empty key is refused before anything is sent.
abbrev refused : BatchDeleteError
refused = record {
  error = invalid_input "key" "must contain between 1 and 1,024 UTF-8 bytes";
  partial = no_result;
}

empty_key : delete_objects delete_all (codes "a" ∷ [] ∷ []) 0 ≡ (err refused, 0)
unfolding delete_objects traverse new_object_key
empty_key = refl

-- An R2 that deletes every key but one, of which it does not give the name.
abbrev delete_most : List Text → ℕ → Result DeleteOutput SdkError × ℕ
delete_most [] s = (ok (record { deleted = []; errors = [] }), s + 1)
delete_most (key ∷ batch) s = (
  ok (record {
    deleted = map (λ k. some k) batch;
    errors = record { key = none; code = none; message = none } ∷ [];
  }),
  s + 1,
)

abbrev two_deleted : BatchDeleteError
two_deleted = record {
  error = service "DeleteObjects";
  partial = record { deleted_keys = codes "b" ∷ codes "c" ∷ []; failures = []; request_count = 1 };
}
