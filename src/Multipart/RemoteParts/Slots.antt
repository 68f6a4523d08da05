-- ===== src/Multipart/RemoteParts/Slots.antt =====
-- The slots of src/multipart.rs: each holds the part of its own number, and listing a part fills one.
use r2kit.Prelude.{
  ℕ, zero, suc, ◌+◌, ◌-◌, ◌≤◌, ◌<◌, ◌≡◌, refl, arith, none, some, List, [], ◌∷◌, ok, length,
  >>=-eq-ok, Option-cases, inl, inr, ok-injective, err-ne-ok,
}
use r2kit.Sdk.{RemotePart}
use r2kit.Multipart.Plan.{MultipartPlan, part_length}
use r2kit.Multipart.Manifest.{UploadedPart}
use r2kit.Multipart.RemoteParts.{Slots, slot_at, set_slot, check_remote, fill_slot, record_parts}

-- How many slots are filled.
abbrev pub filled : Slots → ℕ
filled [] = 0
filled (none ∷ rest) = filled rest
filled (some p ∷ rest) = suc (filled rest)

-- The slot `index` holds the part `index + 1`, with an entity tag.
abbrev pub InPlace : ℕ → Slots → Type 0
InPlace index [] = Unit
InPlace index (none ∷ rest) = InPlace (index + 1) rest
InPlace index (some p ∷ rest) = (p.part_number.number ≡ index + 1) × InPlace (index + 1) rest

pub filled-le : (s : Slots) → filled s ≤ length s
filled-le [] = omega arith
filled-le (none ∷ s) = omega (arith, filled-le s)
filled-le (some p ∷ s) = omega (arith, filled-le s)

filled-set :
    (s : Slots) (i : ℕ) (p : UploadedPart)
    → i < length s
    → slot_at s i ≡ none
    → filled (set_slot s i p) ≡ suc (filled s)
filled-set [] i p h e = absurd (omega arith)
filled-set (none ∷ s) zero p h e = refl
filled-set (some q ∷ s) zero p h e = ground arith
filled-set (none ∷ s) (suc i) p h e = filled-set s i p (omega arith) e
filled-set (some q ∷ s) (suc i) p h e = omega (arith, filled-set s i p (omega arith) e)

length-set : (s : Slots) (i : ℕ) (p : UploadedPart) → length (set_slot s i p) ≡ length s
length-set [] i p = refl
length-set (x ∷ s) zero p = refl
length-set (x ∷ s) (suc i) p = omega (arith, length-set s i p)

InPlace-set :
    (index : ℕ) (s : Slots) (i : ℕ) (p : UploadedPart)
    → InPlace index s
    → p.part_number.number ≡ index + i + 1
    → InPlace index (set_slot s i p)
InPlace-set index [] i p h e = tt
InPlace-set index (none ∷ s) zero p h e = (omega arith, h)
InPlace-set index (some q ∷ s) zero p h e = (omega arith, h.1)
InPlace-set index (none ∷ s) (suc i) p h e = InPlace-set (index + 1) s i p h (omega arith)
InPlace-set index (some q ∷ s) (suc i) p h e =
    (h.0, InPlace-set (index + 1) s i p h.1 (omega arith))

-- A listed part that passes the checks has a planned number.
pub check_remote-planned :
    (plan : MultipartPlan) (r : RemotePart) {p : UploadedPart}
    → check_remote plan r ≡ ok p
    → (0 < p.part_number.number) × (p.part_number.number ≤ plan.part_count)
unfolding check_remote part_length
check_remote-planned plan r h = ground arith

fill_slot_lem :
    (s : Slots) (p : UploadedPart) {t : Slots}
    → InPlace 0 s
    → 0 < p.part_number.number
    → p.part_number.number ≤ length s
    → fill_slot s p ≡ ok t
    → (length t ≡ length s) × InPlace 0 t × (filled t ≡ suc (filled s))
unfolding fill_slot
fill_slot_lem s p v low high h =
    let i = p.part_number.number - 1 in
    elim (Option-cases (slot_at s i)) [
      | inl free ↦
          let e : set_slot s i p ≡ _ = ok-injective (rw free at h) in
          rw (← e) (
            length-set s i p,
            InPlace-set 0 s i p v (omega arith),
            filled-set s i p (omega arith) free,
          )
      | inr (q, taken) ↦ absurd (err-ne-ok (rw taken at h))
    ]

-- What a page that is accepted does to the slots.
pub record_parts_lem :
    (plan : MultipartPlan) (rs : List RemotePart) (s : Slots) {t : Slots}
    → length s ≡ plan.part_count
    → InPlace 0 s
    → record_parts plan rs s ≡ ok t
    → (length t ≡ plan.part_count) × InPlace 0 t × (filled t ≡ filled s + length rs)
unfolding record_parts
record_parts_lem plan [] s n v h = ground arith
record_parts_lem plan (r ∷ rs) s n v h =
    let (p, checked, h₁) = >>=-eq-ok (check_remote plan r) _ h in
    let (s', stored, rest) = >>=-eq-ok (fill_slot s p) _ h₁ in
    let (low, high) = check_remote-planned plan r checked in
    let (n', v', more) = fill_slot_lem s p v low (omega arith) stored in
    let (a, b, c) = record_parts_lem plan rs s' (omega arith) v' rest in (a, b, omega arith)
