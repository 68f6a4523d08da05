-- ===== src/Object/Delete.antt =====
-- src/object.rs: `Bucket::delete_objects`, which deletes many objects in batches. The SDK's request for
-- one batch is a parameter.
pub mod Batches
pub mod Partial
mod Tests
use r2kit.Prelude.{
  ℕ, zero, suc, ◌+◌, Option, none, some, List, [], ◌∷◌, ◌++◌, Text, Result, ok, err, map, length,
  take, drop, traverse,
}
use r2kit.Error.{Error, SdkError, service, remote}
use r2kit.Types.{new_object_key}

abbrev pub max_delete_keys : ℕ
max_delete_keys = 1_000

pub record DeleteObjectFailure : Type 0 where
  pub key : Text
  pub code : Option Text
  pub message : Option Text

pub record DeleteObjectsResult : Type 0 where
  pub deleted_keys : List Text
  pub failures : List DeleteObjectFailure
  pub request_count : ℕ

abbrev pub no_result : DeleteObjectsResult
no_result = record { deleted_keys = []; failures = []; request_count = 0 }

pub record BatchDeleteError : Type 0 where
  pub error : Error
  pub partial : DeleteObjectsResult

-- What the code reads of a reply: the key of each deletion, and the errors.
pub record RemoteFailure : Type 0 where
  pub key : Option Text
  pub code : Option Text
  pub message : Option Text

pub record DeleteOutput : Type 0 where
  pub deleted : List (Option Text)
  pub errors : List RemoteFailure

-- `slice::chunks(n)` for a positive `n`; the fuel is the length of the list.
unfoldable pub chunks_from : {A : Type 0} → ℕ → ℕ → List A → List (List A)
chunks_from zero n xs = []
chunks_from (suc fuel) n [] = []
chunks_from (suc fuel) n (x ∷ xs) = take n (x ∷ xs) ∷ chunks_from fuel n (drop n (x ∷ xs))

unfoldable pub delete_batches : List Text → List (List Text)
unfolding chunks_from
delete_batches keys = chunks_from (length keys) max_delete_keys keys

-- `filter_map(|deleted| deleted.key())`
abbrev pub known_keys : List (Option Text) → List Text
known_keys [] = []
known_keys (none ∷ rest) = known_keys rest
known_keys (some key ∷ rest) = key ∷ known_keys rest

-- The loop over the errors of a reply.
unfoldable pub record_failures :
    List RemoteFailure → DeleteObjectsResult → Result DeleteObjectsResult BatchDeleteError
record_failures [] result = ok result
record_failures (failure ∷ rest) result = elim failure.key [
  | none ↦ err (record { error = service "DeleteObjects"; partial = result })
  | some key ↦ record_failures rest (record result {
    failures =
        result.failures
        ++ record { key = key; code = failure.code; message = failure.message } ∷ [];
  })
]

-- What one reply adds to the result.
unfoldable pub record_output :
    DeleteOutput → DeleteObjectsResult → Result DeleteObjectsResult BatchDeleteError
unfolding record_failures
record_output output result = record_failures output.errors (record result {
  request_count = result.request_count + 1;
  deleted_keys = result.deleted_keys ++ known_keys output.deleted;
})

module _ {S : Type 0} (delete : List Text → S → Result DeleteOutput SdkError × S) where
  -- The loop over the batches.
  unfoldable pub send_batches :
      List (List Text) → DeleteObjectsResult → S → Result DeleteObjectsResult BatchDeleteError × S
  send_batches [] result s = (ok result, s)
  send_batches (batch ∷ batches) result s =
      let (reply, t) = delete batch s in
      elim reply [
        | err e ↦ (err (record { error = remote "DeleteObjects" e; partial = result }), t)
        | ok output ↦ elim (record_output output result) [
          | err e ↦ (err e, t)
          | ok result' ↦ send_batches batches result' t
        ]
      ]

  -- `Bucket::delete_objects`
  unfoldable pub delete_objects : List Text → S → Result DeleteObjectsResult BatchDeleteError × S
  unfolding send_batches delete_batches
  delete_objects keys s = elim (traverse new_object_key keys) [
    | err e ↦ (err (record { error = e; partial = no_result }), s)
    | ok object_keys ↦ send_batches (delete_batches (map (λ k. k.text) object_keys)) no_result s
  ]
