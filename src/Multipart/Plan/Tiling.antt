-- ===== src/Multipart/Plan/Tiling.antt =====
-- The planned parts of src/multipart.rs tile the object.
use r2kit.Prelude.{
  ℕ, zero, suc, ◌+◌, ◌-◌, ◌*◌, ◌≤◌, ◌<◌, ◌≡◌, refl, ap, sym, arith, min, List, [], ◌∷◌, ◌++◌, ◌∙◌,
  Result, ok, flatten, append_assoc, append-nil, length, take, drop, sum_by, range_from, map,
  traverse, ◌⊎◌, inl, inr, drop-drop, take-append-drop, drop_all,
}
use r2kit.Error.{Error}
use r2kit.Multipart.Plan.{MultipartPlan, part_length}
use r2kit.Multipart.Plan.Bounds.{IsPlan, part_length_lem}

-- The first byte of a part, and its length.
abbrev pub offset_of : MultipartPlan → ℕ → ℕ
offset_of p n = (n - 1) * p.part_size

abbrev pub length_of : MultipartPlan → ℕ → ℕ
length_of p n = min (p.file_size - offset_of p n) p.part_size

-- The planned part numbers, `1..=part_count`.
abbrev pub planned : MultipartPlan → List ℕ
planned p = range_from 1 p.part_count

abbrev pub part_lengths : MultipartPlan → Result (List ℕ) Error
part_lengths p = traverse (λ n. part_length p (record { number = n })) (planned p)

lengths_from :
    (p : MultipartPlan) (lo k : ℕ)
    → IsPlan p
    → 0 < lo
    → lo + k ≤ p.part_count + 1
    → traverse (λ n. part_length p (record { number = n })) (range_from lo k)
      ≡ ok (map (length_of p) (range_from lo k))
unfolding traverse
lengths_from p lo zero v pos le = refl
lengths_from p lo (suc k) v pos le = rw (
  part_length_lem p (record { number = lo }) v pos (omega arith),
  lengths_from p (lo + 1) k v (omega arith) (omega arith),
)

offset-suc : (p : MultipartPlan) (m : ℕ) → offset_of p (m + 1) ≡ m * p.part_size
offset-suc p m = let e : m + 1 - 1 ≡ m = omega arith in rw e

-- The parts `m + 1` to `m + k`, and what lies before them.
sum_from :
    (p : MultipartPlan) (m k : ℕ)
    → sum_by (length_of p) (range_from (m + 1) k) + min p.file_size (m * p.part_size)
      ≡ min p.file_size ((m + k) * p.part_size)
sum_from p m zero = omega arith
sum_from p m (suc k) = omega (arith, offset-suc p m, sum_from p (m + 1) k)

-- The lengths that `part_length` gives to the planned parts of a well-formed plan exist and add up
-- to the size of the object.
pub part_lengths-sum :
    (p : MultipartPlan)
    → IsPlan p
    → (ls : List ℕ) × (part_lengths p ≡ ok ls) × (sum_by (λ l. l) ls ≡ p.file_size)
part_lengths-sum p v = (
  map (length_of p) (planned p),
  lengths_from p 1 p.part_count v (omega arith) (omega arith),
  sum-map (length_of p) (planned p) ∙ total,
)
  where
    sum-map : (f : ℕ → ℕ) (ns : List ℕ) → sum_by (λ l. l) (map f ns) ≡ sum_by f ns
    sum-map f [] = refl
    sum-map f (n ∷ ns) = ap (◌+◌ (f n)) (sum-map f ns)

    total : sum_by (length_of p) (planned p) ≡ p.file_size
    total = omega (arith, sum_from p 0 p.part_count, v.covers)

-- The bytes of one part.
abbrev pub slice_of : {A : Type 0} → MultipartPlan → List A → ℕ → List A
slice_of p bytes n = take (length_of p n) (drop (offset_of p n) bytes)

drop_past :
    {A : Type 0} (n m : ℕ) (xs : List A) → length xs ≤ n → length xs ≤ m → drop n xs ≡ drop m xs
drop_past n m xs h k = drop_all n xs h ∙ sym (drop_all m xs k)

-- A part ends where the next one begins, or at the end of the file.
drop_slice :
    {A : Type 0} (p : MultipartPlan) (bytes : List A) (m : ℕ)
    → length bytes ≡ p.file_size
    → drop (m * p.part_size + length_of p (m + 1)) bytes ≡ drop ((m + 1) * p.part_size) bytes
drop_slice p bytes m e = elim (le_or_lt p.part_size (p.file_size - m * p.part_size)) [
  | inl full ↦
      let same : m * p.part_size + length_of p (m + 1) ≡ (m + 1) * p.part_size =
        omega (arith, offset-suc p m, full) in
      ap (λ n. drop n bytes) same
  | inr short ↦ drop_past _ _ bytes (omega (arith, offset-suc p m, short)) (omega (arith, short))
]
  where
    le_or_lt : (a b : ℕ) → (a ≤ b) ⊎ (b < a)
    le_or_lt a b = grind arith

slice_then :
    {A : Type 0} (p : MultipartPlan) (bytes : List A) (m : ℕ)
    → slice_of p bytes (m + 1) ++ drop (m * p.part_size + length_of p (m + 1)) bytes
      ≡ drop (m * p.part_size) bytes
slice_then p bytes m =
    rw (← drop-drop (length_of p (m + 1)) (m * p.part_size) bytes, offset-suc p m)
      (take-append-drop _ (drop (m * p.part_size) bytes))

slices_from :
    {A : Type 0} (p : MultipartPlan) (bytes : List A) (m k : ℕ)
    → length bytes ≡ p.file_size
    → flatten (map (slice_of p bytes) (range_from (m + 1) k)) ++ drop ((m + k) * p.part_size) bytes
      ≡ drop (m * p.part_size) bytes
unfolding flatten
slices_from p bytes m zero e = let z : m + 0 ≡ m = omega arith in rw z
slices_from p bytes m (suc k) e =
    let first = slice_of p bytes (m + 1) in
    let rest = flatten (map (slice_of p bytes) (range_from (m + 1 + 1) k)) in
    let shift : m + suc k ≡ m + 1 + k = omega arith in
    append_assoc first rest (drop ((m + suc k) * p.part_size) bytes)
    ∙ rw (shift, slices_from p bytes (m + 1) k e, ← drop_slice p bytes m e) (slice_then p bytes m)

-- Read in the order of their numbers, the planned parts are the bytes of the object.
pub slices-concat :
    {A : Type 0} (p : MultipartPlan) (bytes : List A)
    → IsPlan p
    → length bytes ≡ p.file_size
    → flatten (map (slice_of p bytes) (planned p)) ≡ bytes
slices-concat p bytes v e =
    let past : length bytes ≤ (0 + p.part_count) * p.part_size = omega (arith, v.covers, e) in
    let start : 0 * p.part_size ≡ 0 = omega arith in
    let whole = slices_from p bytes 0 p.part_count e in
    sym (append-nil _)
    ∙ rw (drop_all ((0 + p.part_count) * p.part_size) bytes past) at whole
    ∙ rw start
