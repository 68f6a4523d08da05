-- ===== src/Multipart/Reconcile/Reads.antt =====
-- What `reconcile` of src/multipart.rs reports, and the manifest made of a complete report.
use mathlib.Core.List.{Perm}
use r2kit.Prelude.{
  ℕ, zero, suc, ◌≤◌, ◌≡◌, refl, arith, true, Option, none, some, List, [], ◌∷◌, ◌++◌, ok, err,
  length, Result-cases, Bool-cases, Option-cases, inl, inr, is_empty, range_from,
}
use r2kit.Sdk.{Sdk, Outcome, finished, unfinished, reply-cases, and_then}
use r2kit.Multipart.Plan.{max_parts}
use r2kit.Multipart.Plan.Bounds.{IsPlan}
use r2kit.Multipart.Plan.Tiling.{planned}
use r2kit.Multipart.Checks.{check_manifest}
use r2kit.Multipart.Checks.Exact.{into_completion_manifest_complete}
use r2kit.Multipart.Session.{PresignedMultipart}
use r2kit.Multipart.RemoteParts.{
  Slots, MultipartReconciliation, record_parts, empty_slots, reconciliation,
  into_completion_manifest, is_complete,
}
use r2kit.Multipart.RemoteParts.Slots.{InPlace, record_parts_lem}
use r2kit.Multipart.RemoteParts.Outcome.{numbers, part_numbers, split-perm, complete-numbers}
use r2kit.Multipart.Reconcile.{is_truncated, list_request, list_pages, reconcile}
use r2kit.Multipart.Reconcile.Ends.{length-empty_slots, InPlace-empty_slots}

-- The slots that a finished computation returns, if it returns some.
abbrev Returns : {S A : Type 0} → (A → Type 0) → Outcome S A → Type 0
Returns P (finished (ok a) s) = P a
Returns P (finished (err e) s) = Unit
Returns P unfinished = Unit

abbrev GoodSlots : ℕ → Slots → Type 0
GoodSlots n t = (length t ≡ n) × InPlace 0 t

list_pages_lem :
    {S : Type 0} (sdk : Sdk S) (fuel : ℕ) (session : PresignedMultipart) (marker : Option (List ℕ))
    (uploaded : Slots) (s : S)
    → GoodSlots session.plan.part_count uploaded
    → Returns (GoodSlots session.plan.part_count) (list_pages sdk fuel session marker uploaded s)
unfolding list_pages
list_pages_lem sdk zero session marker uploaded s g = tt
list_pages_lem sdk (suc fuel) session marker uploaded s g =
    elim (reply-cases (sdk.list_parts (list_request sdk session marker) s)) [
      | inr (e, s', r) ↦ rw r tt
      | inl (output, s', r) ↦
          rw r (elim (Result-cases (record_parts session.plan output.parts uploaded)) [
            | inr (e, refused) ↦ rw refused tt
            | inl (uploaded', kept) ↦
                let (n', v', more) =
                  record_parts_lem session.plan output.parts uploaded g.0 g.1 kept in
                rw kept (elim (Bool-cases (is_truncated output)) [
                  | inl last ↦ rw last (elim (Option-cases output.next_part_number_marker) [
                    | inl no_marker ↦ rw no_marker tt
                    | inr (next, marked) ↦
                        rw marked
                          (list_pages_lem sdk fuel session (some next) uploaded' s' (n', v'))
                  ])
                  | inr last ↦ rw last (n', v')
                ])
          ])
    ]

reconcile_lem :
    {S : Type 0} (sdk : Sdk S) (fuel : ℕ) (session : PresignedMultipart) (s s' : S)
    {r : MultipartReconciliation}
    → reconcile sdk fuel session s ≡ finished (ok r) s'
    → (t : Slots) × GoodSlots session.plan.part_count t × (r ≡ reconciliation t)
unfolding reconcile
reconcile_lem {S} sdk fuel session s s' {r} h =
    let n = session.plan.part_count in
    keep (list_pages sdk fuel session none (empty_slots n) s)
      (list_pages_lem sdk fuel session none (empty_slots n) s
        (length-empty_slots n, InPlace-empty_slots 0 n))
      h
  where
    keep :
        (o : Outcome S Slots)
        → Returns (GoodSlots session.plan.part_count) o
        → and_then o unfinished
            (λ e t. finished (err e) t)
            (λ a t. finished (ok (reconciliation a)) t)
          ≡ finished (ok r) s'
        → (t : Slots) × GoodSlots session.plan.part_count t × (r ≡ reconciliation t)
    keep (finished (ok a) t) g h = (a, g, cc)
    keep (finished (err e) t) g h = cc
    keep unfinished g h = cc

-- In a report the numbers of the stored and of the missing parts are together the planned numbers,
-- each once.
pub reconcile-perm :
    {S : Type 0} (sdk : Sdk S) (fuel : ℕ) (session : PresignedMultipart) (s s' : S)
    {r : MultipartReconciliation}
    → session.plan.part_count ≤ max_parts
    → reconcile sdk fuel session s ≡ finished (ok r) s'
    → Perm
        (numbers r.uploaded_parts ++ part_numbers r.missing_parts)
        (range_from 1 session.plan.part_count)
reconcile-perm sdk fuel session s s' le h =
    let (t, (n, v), e) = reconcile_lem sdk fuel session s s' h in
    rw (e, ← n) (split-perm 0 t v (omega arith))

-- A report that misses no part gives a completion manifest, with the parts of the report, which
-- `complete` lets through.
pub reconcile_complete :
    {S : Type 0} (sdk : Sdk S) (fuel : ℕ) (session : PresignedMultipart) (s s' : S)
    {r : MultipartReconciliation}
    → IsPlan session.plan
    → reconcile sdk fuel session s ≡ finished (ok r) s'
    → is_complete r ≡ true
    → (into_completion_manifest r ≡ ok (record { parts = r.uploaded_parts }))
      × (check_manifest session.plan (record { parts = r.uploaded_parts }) ≡ ok tt)
reconcile_complete sdk fuel session s s' {r} plan h complete =
    let (t, (n, v), e) = reconcile_lem sdk fuel session s s' h in
    let none_missing = empty_of r.missing_parts complete in
    let in_order : numbers r.uploaded_parts ≡ planned session.plan =
      rw (e, ← n) (complete-numbers 0 t v (rw e at none_missing)) in
    into_completion_manifest_complete session.plan r plan.some_part none_missing in_order
  where
    empty_of : {A : Type 0} (xs : List A) → is_empty xs ≡ true → xs ≡ []
    empty_of [] h = refl
    empty_of (x ∷ xs) h = cc
