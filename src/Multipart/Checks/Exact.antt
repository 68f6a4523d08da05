-- ===== src/Multipart/Checks/Exact.antt =====
-- Which manifests `complete` and `complete_verified` of src/multipart.rs let through.
use r2kit.Prelude.{
  ℕ, zero, suc, ◌+◌, ◌<◌, ◌≡◌, ◌↔◌, refl, sym, arith, true, List, [], ◌∷◌, length, range_from, ok,
  text_eq_iff,
}
use r2kit.Multipart.Plan.{MultipartPlan}
use r2kit.Multipart.Plan.Tiling.{planned}
use r2kit.Multipart.Manifest.{UploadedPart, CompletionManifest, try_from_parts}
use r2kit.Multipart.Manifest.Canonical.{Above, IsAscending, try_from_parts_ascending}
use r2kit.Multipart.RemoteParts.{MultipartReconciliation, into_completion_manifest}
use r2kit.Multipart.RemoteParts.Outcome.{numbers}
use r2kit.Multipart.Checks.{numbered_from, check_manifest, parts_eq, check_reconciled}

numbered_lem :
    (index n : ℕ) (ps : List UploadedPart)
    → (length ps ≡ n) × (numbered_from index ps ≡ true)
    → numbers ps ≡ range_from (index + 1) n
unfolding numbered_from
numbered_lem index zero [] h = refl
numbered_lem index zero (p ∷ ps) h = absurd (omega (arith, h.0))
numbered_lem index (suc n) [] h = absurd (omega (arith, h.0))
numbered_lem index (suc n) (p ∷ ps) h = ground (arith, numbered_lem (index + 1) n ps)

numbered_inv :
    (index n : ℕ) (ps : List UploadedPart)
    → numbers ps ≡ range_from (index + 1) n
    → (length ps ≡ n) × (numbered_from index ps ≡ true)
unfolding numbered_from
numbered_inv index zero [] h = (refl, refl)
numbered_inv index zero (p ∷ ps) h = cc
numbered_inv index (suc n) [] h = cc
numbered_inv index (suc n) (p ∷ ps) h = ground (arith, numbered_inv (index + 1) n ps)

-- `complete` goes on to the network exactly if the parts of the manifest have the planned numbers,
-- in order and each once.
pub check_manifest_iff :
    (plan : MultipartPlan) (c : CompletionManifest)
    → (check_manifest plan c ≡ ok tt) ↔ (numbers c.parts ≡ planned plan)
unfolding check_manifest
check_manifest_iff plan c = (
  λ h. numbered_lem 0 plan.part_count c.parts (ground arith),
  λ h. let facts = numbered_inv 0 plan.part_count c.parts h in ground (arith, facts),
)

parts_eq_lem : (ps qs : List UploadedPart) → parts_eq ps qs ≡ true → ps ≡ qs
unfolding parts_eq
parts_eq_lem [] [] h = refl
parts_eq_lem [] (q ∷ qs) h = cc
parts_eq_lem (p ∷ ps) [] h = cc
parts_eq_lem (p ∷ ps) (q ∷ qs) h = ground (arith, parts_eq_lem ps qs, text_eq_iff p.etag q.etag)

pub parts_eq_refl : (ps : List UploadedPart) → parts_eq ps ps ≡ true
unfolding parts_eq
parts_eq_refl [] = refl
parts_eq_refl (p ∷ ps) = ground (arith, parts_eq_refl ps, text_eq_iff p.etag p.etag)

-- `complete_verified` goes on exactly if the report misses no part and holds the very parts of the
-- manifest, with their entity tags.
pub check_reconciled_iff :
    (c : CompletionManifest) (r : MultipartReconciliation)
    → (check_reconciled c r ≡ ok tt) ↔ ((r.missing_parts ≡ []) × (r.uploaded_parts ≡ c.parts))
unfolding check_reconciled
check_reconciled_iff c r = (
  λ h. ground (arith, parts_eq_lem r.uploaded_parts c.parts),
  λ h. rw (h.0, h.1, parts_eq_refl c.parts),
)

Above-of_range :
    (b lo : ℕ) (ps : List UploadedPart)
    → b < lo
    → numbers ps ≡ range_from lo (length ps)
    → Above b ps
Above-of_range b lo [] lt h = tt
Above-of_range b lo (p ∷ ps) lt h = ground (arith, Above-of_range b (lo + 1) ps)

-- Parts that are numbered without a gap come in rising order.
IsAscending-of_range :
    (lo : ℕ) (ps : List UploadedPart) → numbers ps ≡ range_from lo (length ps) → IsAscending ps
IsAscending-of_range lo [] h = tt
IsAscending-of_range lo (p ∷ ps) h =
    ground (arith, IsAscending-of_range (lo + 1) ps, Above-of_range lo (lo + 1) ps)

-- A report without missing parts gives a manifest that `complete` lets through, with the very parts
-- of the report.
pub into_completion_manifest_complete :
    (plan : MultipartPlan) (r : MultipartReconciliation)
    → 0 < plan.part_count
    → r.missing_parts ≡ []
    → numbers r.uploaded_parts ≡ planned plan
    → (into_completion_manifest r ≡ ok (record { parts = r.uploaded_parts }))
      × (check_manifest plan (record { parts = r.uploaded_parts }) ≡ ok tt)
unfolding into_completion_manifest
into_completion_manifest_complete plan r pos none_missing same = (
  rw none_missing (made r.uploaded_parts same),
  (check_manifest_iff plan (record { parts = r.uploaded_parts })).1 same,
)
  where
    made :
        (ps : List UploadedPart)
        → numbers ps ≡ planned plan
        → try_from_parts ps ≡ ok (record { parts = ps })
    made [] h = absurd (omega (arith, (numbered_inv 0 plan.part_count [] h).0))
    made (p ∷ ps) h =
        let count : plan.part_count ≡ length (p ∷ ps) =
          sym (numbered_inv 0 plan.part_count (p ∷ ps) h).0 in
        try_from_parts_ascending p ps (IsAscending-of_range 1 (p ∷ ps) (rw count at h))
