-- ===== src/Object/Delete/Partial.antt =====
-- What a failed `delete_objects` of src/object.rs keeps of the earlier batches.
use r2kit.Prelude.{◌+◌, ◌≡◌, ◌⊎◌, List, [], ◌∷◌, ◌++◌, ℕ, Text, Result, ok, err, length}
use r2kit.Error.{SdkError, service, remote}
use r2kit.Object.Delete.{BatchDeleteError, DeleteOutput, known_keys}

-- The keys that R2's replies report as deleted.
abbrev pub deleted_by : List DeleteOutput → List Text
deleted_by [] = []
deleted_by (output ∷ outputs) = known_keys output.deleted ++ deleted_by outputs

module _ {S : Type 0} (delete : List Text → S → Result DeleteOutput SdkError × S) where
  -- R2 answered each of these batches, one after the other.
  pub data Replies : List (List Text) → S → List DeleteOutput → S → Type 0 where
    no_batch : (s : S) → Replies [] s [] s
    batch_answered :
        {batch : List Text} {batches : List (List Text)} {output : DeleteOutput}
        {outputs : List DeleteOutput} {s t u : S}
        → delete batch s ≡ (ok output, t)
        → Replies batches t outputs u
        → Replies (batch ∷ batches) s (output ∷ outputs) u

  -- The batches `answered` were answered with `outputs`, which the partial result counts and holds. Then
  -- R2 refused the next batch, or the last answer has a failure without a key.
  pub record Kept (batches : List (List Text)) (requests : ℕ) (keys : List Text) (s u : S)
      (e : BatchDeleteError) : Type 0 where
    pub answered : List (List Text)
    pub rest : List (List Text)
    pub outputs : List DeleteOutput
    pub after : S
    pub split : answered ++ rest ≡ batches
    pub replies : Replies answered s outputs after
    pub counted : e.partial.request_count ≡ requests + length outputs
    pub deleted : e.partial.deleted_keys ≡ keys ++ deleted_by outputs
    pub reason :
        ((batch : List Text) × (later : List (List Text)) × (x : SdkError) × (rest ≡ batch ∷ later)
          × (delete batch after ≡ (err x, u))
          × (e.error ≡ remote "DeleteObjects" x))
        ⊎ ((after ≡ u) × (e.error ≡ service "DeleteObjects"))
