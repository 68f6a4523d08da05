-- ===== src/Multipart/Plan/Bounds.antt =====
-- Which plans src/multipart.rs accepts, and what holds of one.
use r2kit.Prelude.{
  ℕ, ◌+◌, ◌-◌, ◌*◌, ◌≤◌, ◌<◌, ◌≡◌, ◌↔◌, arith, min, ok, div_ceil, div_ceil_bounds, div_ceil-le,
  div_ceil-pos, u64_mod, mul_u64, sub_u64,
}
use r2kit.Types.{
  max_multipart_object_size, min_multipart_part_size, max_multipart_part_size, validate_part_size,
}
use r2kit.Multipart.Plan.{max_parts, PartNumber, MultipartPlan, new_plan, part_length}

pub record IsPartNumber (n : PartNumber) : Type 0 where
  pub positive : 0 < n.number
  pub capped : n.number ≤ max_parts

-- What holds of every plan that the code builds.
pub record IsPlan (p : MultipartPlan) : Type 0 where
  pub nonempty : 0 < p.file_size
  pub object_capped : p.file_size ≤ max_multipart_object_size
  pub part_large : min_multipart_part_size ≤ p.part_size
  pub part_small : p.part_size ≤ max_multipart_part_size
  pub some_part : 0 < p.part_count
  pub parts_capped : p.part_count ≤ max_parts
  pub covers : p.file_size ≤ p.part_count * p.part_size
  pub tight : p.part_count * p.part_size < p.file_size + p.part_size

-- The inputs of `MultipartPlan::new` that R2's limits allow.
pub record Plannable (file_size part_size : ℕ) : Type 0 where
  pub nonempty : 0 < file_size
  pub object_capped : file_size ≤ max_multipart_object_size
  pub part_large : min_multipart_part_size ≤ part_size
  pub part_small : part_size ≤ max_multipart_part_size
  pub few_parts : file_size ≤ max_parts * part_size

abbrev pub plan_of : ℕ → ℕ → MultipartPlan
plan_of file_size part_size = record {
  file_size = file_size;
  part_size = part_size;
  part_count = div_ceil file_size part_size;
}

-- The plan that the code makes of an allowed input.
pub new_plan-Plannable : (f p : ℕ) → Plannable f p → new_plan f p ≡ ok (plan_of f p)
unfolding new_plan validate_part_size
new_plan-Plannable f p h = ground (arith, div_ceil-le f p max_parts, div_ceil_bounds f p)

pub new_plan-ok :
    (f p : ℕ) {q : MultipartPlan}
    → new_plan f p ≡ ok q
    → (0 < f)
      × (f ≤ max_multipart_object_size)
      × (min_multipart_part_size ≤ p)
      × (p ≤ max_multipart_part_size)
      × (div_ceil f p ≤ max_parts)
      × (q ≡ plan_of f p)
unfolding new_plan validate_part_size
new_plan-ok f p h = ground arith

-- `MultipartPlan::new` accepts a file size and a part size exactly if R2's limits allow them: the
-- file size is positive and at most the object limit, the part size is in its range, and 10,000
-- parts of that size hold the file. The plan then has these sizes, and as many parts as they give.
pub new_plan_iff :
    (f p : ℕ) (q : MultipartPlan) → (new_plan f p ≡ ok q) ↔ (Plannable f p × (q ≡ plan_of f p))
new_plan_iff f p q =
    (λ h. (accepted h, (new_plan-ok f p h).5), λ (h, e). rw e (new_plan-Plannable f p h))
  where
    accepted : new_plan f p ≡ ok q → Plannable f p
    accepted h =
        let facts = new_plan-ok f p h in
        let bounds = div_ceil_bounds f p (omega (arith, facts)) in
        let few : f ≤ max_parts * p = grind arith in
        record {
          nonempty = facts.0;
          object_capped = facts.1;
          part_large = facts.2;
          part_small = facts.3;
          few_parts = few;
        }

pub new_plan-Plannable_inv :
    (f p : ℕ) {q : MultipartPlan} → new_plan f p ≡ ok q → Plannable f p × (q ≡ plan_of f p)
new_plan-Plannable_inv f p {q} h = (new_plan_iff f p q).0 h

-- Every plan that `MultipartPlan::new` returns keeps the sizes it was given and is well formed.
pub new_plan-IsPlan :
    (f p : ℕ) {q : MultipartPlan}
    → new_plan f p ≡ ok q
    → IsPlan q × (q.file_size ≡ f) × (q.part_size ≡ p)
new_plan-IsPlan f p h =
    let facts = new_plan-ok f p h in
    let bounds = div_ceil_bounds f p (omega (arith, facts)) in
    ground (arith, facts, bounds, div_ceil-pos f p)

-- A planned part begins inside the file.
pub offset-lt :
    (p : MultipartPlan) (k : ℕ) → IsPlan p → k < p.part_count → k * p.part_size < p.file_size
offset-lt p k v lt =
    let next : k * p.part_size + p.part_size ≤ p.part_count * p.part_size = grind arith in
    omega arith

sub_u64_exact : (f s : ℕ) → s ≤ f → f < u64_mod → sub_u64 f s ≡ f - s
sub_u64_exact f s le lt = omega arith

mul_u64_exact : (a b f : ℕ) → a * b < f → f < u64_mod → mul_u64 a b ≡ a * b
mul_u64_exact a b f lt small = omega arith

-- The offset of a part does not wrap, so a part's length is that of plain arithmetic.
pub part_length_lem :
    (p : MultipartPlan) (n : PartNumber)
    → IsPlan p
    → 0 < n.number
    → n.number ≤ p.part_count
    → part_length p n ≡ ok (min (p.file_size - (n.number - 1) * p.part_size) p.part_size)
unfolding part_length
part_length_lem p n v pos le =
    let start : (n.number - 1) * p.part_size < p.file_size =
      offset-lt p (n.number - 1) v (omega arith) in
    let small : p.file_size < u64_mod = omega arith in
    rw
      (
        mul_u64_exact (n.number - 1) p.part_size p.file_size start small,
        sub_u64_exact p.file_size ((n.number - 1) * p.part_size) (omega arith) small,
      )
      (ground arith)
