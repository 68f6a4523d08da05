-- ===== src/BTreeMap/Keys.antt =====
-- The order of texts: bytes first to last, a prefix before what it begins.
use Prim.Native.Nat.{Ordering, compare}
use r2kit.Prelude.{◌≡◌, refl, [], ◌∷◌, arith, Text}
use r2kit.BTreeMap.Defs.{Ord}

unfoldable pub text_cmp : Text → Text → Ordering
text_cmp [] [] = Ordering.eq
text_cmp [] (y ∷ ys) = Ordering.lt
text_cmp (x ∷ xs) [] = Ordering.gt
text_cmp (x ∷ xs) (y ∷ ys) =
    let rest = text_cmp xs ys in
    elim (compare x y) [
      | Ordering.lt ↦ Ordering.lt
      | Ordering.eq ↦ rest
      | Ordering.gt ↦ Ordering.gt
    ]

pub text_cmp_refl : (a : Text) → text_cmp a a ≡ Ordering.eq
unfolding text_cmp
text_cmp_refl [] = refl
text_cmp_refl (x ∷ xs) = ground (arith, text_cmp_refl xs)

pub text_eq_of_cmp : (a b : Text) → text_cmp a b ≡ Ordering.eq → a ≡ b
unfolding text_cmp
text_eq_of_cmp [] [] h = refl
text_eq_of_cmp [] (y ∷ ys) h = cc
text_eq_of_cmp (x ∷ xs) [] h = cc
text_eq_of_cmp (x ∷ xs) (y ∷ ys) h = ground (arith, text_eq_of_cmp xs ys)

pub text_gt_of_lt : (a b : Text) → text_cmp a b ≡ Ordering.lt → text_cmp b a ≡ Ordering.gt
unfolding text_cmp
text_gt_of_lt [] [] h = cc
text_gt_of_lt [] (y ∷ ys) h = refl
text_gt_of_lt (x ∷ xs) [] h = cc
text_gt_of_lt (x ∷ xs) (y ∷ ys) h = ground (arith, text_gt_of_lt xs ys)

pub text_lt_of_gt : (a b : Text) → text_cmp a b ≡ Ordering.gt → text_cmp b a ≡ Ordering.lt
unfolding text_cmp
text_lt_of_gt [] [] h = cc
text_lt_of_gt [] (y ∷ ys) h = cc
text_lt_of_gt (x ∷ xs) [] h = refl
text_lt_of_gt (x ∷ xs) (y ∷ ys) h = ground (arith, text_lt_of_gt xs ys)

pub text_lt_trans :
    (a b c : Text)
    → text_cmp a b ≡ Ordering.lt
    → text_cmp b c ≡ Ordering.lt
    → text_cmp a c ≡ Ordering.lt
unfolding text_cmp
text_lt_trans [] [] c h k = cc
text_lt_trans [] (y ∷ ys) [] h k = cc
text_lt_trans [] (y ∷ ys) (z ∷ zs) h k = refl
text_lt_trans (x ∷ xs) [] c h k = cc
text_lt_trans (x ∷ xs) (y ∷ ys) [] h k = cc
text_lt_trans (x ∷ xs) (y ∷ ys) (z ∷ zs) h k = ground (arith, text_lt_trans xs ys zs)

instance abbrev pub text_ord : Ord Text
text_ord = record {
  cmp = text_cmp;
  cmp_refl = text_cmp_refl;
  eq_of_cmp = text_eq_of_cmp;
  gt_of_lt = text_gt_of_lt;
  lt_of_gt = text_lt_of_gt;
  lt_trans = text_lt_trans;
}
