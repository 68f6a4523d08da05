-- ===== src/Multipart/RemoteParts/Outcome.antt =====
-- What `reconcile` of src/multipart.rs reads off its slots: the stored and the missing parts.
use mathlib.Core.List.{Perm, perm_middle}
use mathlib.Core.List.Perm
use r2kit.Prelude.{
  ℕ, suc, ◌+◌, ◌%◌, ◌≤◌, ◌≡◌, refl, ap, arith, none, some, List, [], ◌∷◌, ◌++◌, length, map,
  range_from, u16_mod,
}
use r2kit.Multipart.Plan.{PartNumber, max_parts}
use r2kit.Multipart.Manifest.{UploadedPart}
use r2kit.Multipart.RemoteParts.{Slots, uploaded_parts_from, missing_parts_from}
use r2kit.Multipart.RemoteParts.Slots.{InPlace, filled}

abbrev pub numbers : List UploadedPart → List ℕ
numbers = map (λ p. p.part_number.number)

abbrev pub part_numbers : List PartNumber → List ℕ
part_numbers = map (λ n. n.number)

-- Stored and missing parts together are the planned parts, each once.
pub split-perm :
    (index : ℕ) (s : Slots)
    → InPlace index s
    → index + length s ≤ max_parts
    → Perm
        (numbers (uploaded_parts_from s) ++ part_numbers (missing_parts_from index s))
        (range_from (index + 1) (length s))
unfolding uploaded_parts_from missing_parts_from
split-perm index [] v le = Perm.refl _
split-perm index (none ∷ s) v le =
    let number : (index % u16_mod + 1) % u16_mod ≡ index + 1 = omega arith in
    rw number (
      Perm.trans (perm_middle (numbers (uploaded_parts_from s)) _)
        (Perm.cons (index + 1) (split-perm (index + 1) s v (omega arith))))
split-perm index (some p ∷ s) v le =
    rw v.0 (Perm.cons (index + 1) (split-perm (index + 1) s v.1 (omega arith)))

-- Where no part is missing, the stored parts have the planned numbers in order.
pub complete-numbers :
    (index : ℕ) (s : Slots)
    → InPlace index s
    → missing_parts_from index s ≡ []
    → numbers (uploaded_parts_from s) ≡ range_from (index + 1) (length s)
unfolding uploaded_parts_from missing_parts_from
complete-numbers index [] v e = refl
complete-numbers index (none ∷ s) v e = absurd (cc)
complete-numbers index (some p ∷ s) v e = rw (v.0, complete-numbers (index + 1) s v.1 e)

pub length-uploaded : (s : Slots) → length (uploaded_parts_from s) ≡ filled s
unfolding uploaded_parts_from
length-uploaded [] = refl
length-uploaded (none ∷ s) = length-uploaded s
length-uploaded (some p ∷ s) = ap suc (length-uploaded s)
