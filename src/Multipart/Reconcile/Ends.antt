-- ===== src/Multipart/Reconcile/Ends.antt =====
-- The page loop of src/multipart.rs comes to an end.
use r2kit.Prelude.{
  ℕ, zero, suc, ◌+◌, ◌<◌, ◌≡◌, refl, arith, true, Option, none, some, Text, ok, err, length,
  Result-cases, Bool-cases, Option-cases, inl, inr,
}
use r2kit.Sdk.{
  Sdk, ListPartsOutput, ListPartsRequest, Outcome, finished, unfinished, reply-cases, and_then,
}
use r2kit.Multipart.Session.{PresignedMultipart}
use r2kit.Multipart.RemoteParts.{Slots, record_parts, empty_slots, reconciliation}
use r2kit.Multipart.RemoteParts.Slots.{InPlace, filled, filled-le, record_parts_lem}
use r2kit.Multipart.Reconcile.{is_truncated, list_request, list_pages, reconcile}

abbrev pub Ends : {S A : Type 0} → Outcome S A → Type 0
Ends (finished r s) = Unit
Ends unfinished = ⊥

-- A page that is not the last one lists a part.
abbrev pub ListsParts : {S : Type 0} → Sdk S → Type 0
ListsParts {S} sdk =
    (request : ListPartsRequest) (s s' : S) (output : ListPartsOutput)
    → sdk.list_parts request s ≡ (ok output, s')
    → is_truncated output ≡ true
    → 0 < length output.parts

module _ {S : Type 0} (sdk : Sdk S) (lists : ListsParts sdk) where
  -- Each request that is not the last fills a slot, so the free slots bound the requests.
  list_pages-Ends :
      (fuel : ℕ) (session : PresignedMultipart) (marker : Option Text) (uploaded : Slots) (s : S)
      → length uploaded ≡ session.plan.part_count
      → InPlace 0 uploaded
      → session.plan.part_count < filled uploaded + fuel
      → Ends (list_pages sdk fuel session marker uploaded s)
  unfolding list_pages
  list_pages-Ends zero session marker uploaded s n v h = absurd (omega (arith, filled-le uploaded))
  list_pages-Ends (suc fuel) session marker uploaded s n v h =
      elim (reply-cases (sdk.list_parts (list_request sdk session marker) s)) [
        | inr (e, s', r) ↦ rw r tt
        | inl (output, s', r) ↦
            rw r (elim (Result-cases (record_parts session.plan output.parts uploaded)) [
              | inr (e, refused) ↦ rw refused tt
              | inl (uploaded', kept) ↦
                  let (n', v', more) =
                    record_parts_lem session.plan output.parts uploaded n v kept in
                  rw kept (elim (Bool-cases (is_truncated output)) [
                    | inl last ↦
                        let some_part =
                          lists (list_request sdk session marker) s s' output r last in
                        rw last (elim (Option-cases output.next_part_number_marker) [
                          | inl no_marker ↦ rw no_marker tt
                          | inr (next, marked) ↦ rw marked (
                              list_pages-Ends fuel session (some next) uploaded' s' n' v'
                                (omega arith))
                        ])
                    | inr last ↦ rw last tt
                  ])
            ])
      ]

pub length-empty_slots : (n : ℕ) → length (empty_slots n) ≡ n
length-empty_slots zero = refl
length-empty_slots (suc n) = omega (arith, length-empty_slots n)

pub InPlace-empty_slots : (index n : ℕ) → InPlace index (empty_slots n)
InPlace-empty_slots index zero = tt
InPlace-empty_slots index (suc n) = InPlace-empty_slots (index + 1) n

-- If R2 lists at least one part on each truncated page, `reconcile` ends, with a result or an error,
-- after at most one request more than there are planned parts.
pub reconcile-Ends :
    {S : Type 0} (sdk : Sdk S) (fuel : ℕ) (session : PresignedMultipart) (s : S)
    → ListsParts sdk
    → session.plan.part_count < fuel
    → Ends (reconcile sdk fuel session s)
unfolding reconcile
reconcile-Ends {S} sdk fuel session s lists h =
    let slots = empty_slots session.plan.part_count in
    keep (list_pages sdk fuel session none slots s) (
      list_pages-Ends sdk lists fuel session none slots s
        (length-empty_slots session.plan.part_count) (InPlace-empty_slots 0 session.plan.part_count)
        (omega arith))
  where
    keep :
        (o : Outcome S Slots)
        → Ends o
        → Ends (
            and_then o unfinished
              (λ e t. finished (err e) t)
              (λ a t. finished (ok (reconciliation a)) t))
    keep (finished (ok a) t) h = tt
    keep (finished (err e) t) h = tt
    keep unfinished h = elim h [ ]
