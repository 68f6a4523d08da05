-- ===== src/BTreeMap/Defs.antt =====
-- The order of the keys, and the operations of a map by rising key.
use Prim.Native.Nat.{Ordering, compare}
use r2kit.Prelude.{ℕ, ◌≡◌, List, [], ◌∷◌, Option, none, some, arith}

-- `Ord` of the key type.
pub record Ord {ℓ} (K : Type ℓ) : Type ℓ where
  pub cmp : K → K → Ordering
  pub cmp_refl : (a : K) → cmp a a ≡ Ordering.eq
  pub eq_of_cmp : (a b : K) → cmp a b ≡ Ordering.eq → a ≡ b
  pub gt_of_lt : (a b : K) → cmp a b ≡ Ordering.lt → cmp b a ≡ Ordering.gt
  pub lt_of_gt : (a b : K) → cmp a b ≡ Ordering.gt → cmp b a ≡ Ordering.lt
  pub lt_trans : (a b c : K) → cmp a b ≡ Ordering.lt → cmp b c ≡ Ordering.lt → cmp a c ≡ Ordering.lt

pub nat_cmp_refl : (a : ℕ) → compare a a ≡ Ordering.eq
nat_cmp_refl a = ground arith

pub nat_eq_of_cmp : (a b : ℕ) → compare a b ≡ Ordering.eq → a ≡ b
nat_eq_of_cmp a b h = ground arith

pub nat_gt_of_lt : (a b : ℕ) → compare a b ≡ Ordering.lt → compare b a ≡ Ordering.gt
nat_gt_of_lt a b h = ground arith

pub nat_lt_of_gt : (a b : ℕ) → compare a b ≡ Ordering.gt → compare b a ≡ Ordering.lt
nat_lt_of_gt a b h = ground arith

pub nat_lt_trans :
    (a b c : ℕ) → compare a b ≡ Ordering.lt → compare b c ≡ Ordering.lt → compare a c ≡ Ordering.lt
nat_lt_trans a b c h k = ground arith

instance abbrev pub nat_ord : Ord ℕ
nat_ord = record {
  cmp = compare;
  cmp_refl = nat_cmp_refl;
  eq_of_cmp = nat_eq_of_cmp;
  gt_of_lt = nat_gt_of_lt;
  lt_of_gt = nat_lt_of_gt;
  lt_trans = nat_lt_trans;
}

pub data BTreeMap {ℓ κ} (K : Type ℓ) (V : Type κ) : Type (ℓ ⊔ κ) where
  nil : BTreeMap K V
  entry : K → V → BTreeMap K V → BTreeMap K V

module _ {ℓ κ} {K : Type ℓ} {V : Type κ} where
  abbrev pub into_values : BTreeMap K V → List V
  into_values nil = []
  into_values (entry k v m) = v ∷ into_values m

  abbrev pub keys : BTreeMap K V → List K
  keys nil = []
  keys (entry k v m) = k ∷ keys m

module _ {ℓ κ} {K : Type ℓ} {V : Type κ} ⦃o : Ord K⦄ where
  unfoldable pub lookup : K → BTreeMap K V → Option V
  lookup k nil = none
  lookup k (entry j w m) = elim (o.cmp k j) [
    | Ordering.lt ↦ none
    | Ordering.eq ↦ some w
    | Ordering.gt ↦ lookup k m
  ]

  unfoldable pub put : K → V → BTreeMap K V → BTreeMap K V
  put k v nil = entry k v nil
  put k v (entry j w m) = elim (o.cmp k j) [
    | Ordering.lt ↦ entry k v (entry j w m)
    | Ordering.eq ↦ entry k v m
    | Ordering.gt ↦ entry j w (put k v m)
  ]
