-- ===== src/BTreeMap/Laws.antt =====
-- The laws of the map: it stays sorted, reads back what was put, and does not depend on the order
-- in which distinct keys were put.
use Prim.Native.Nat.{Ordering}
use mathlib.Core.List.{Perm}
use mathlib.Core.List.Perm
use r2kit.Prelude.{◌≡◌, ◌≢◌, refl, ◌∷◌, none, some, arith}
use r2kit.BTreeMap.Defs.{Ord, BTreeMap, nil, entry, into_values, lookup, put}

module _ {ℓ κ} {K : Type ℓ} {V : Type κ} ⦃o : Ord K⦄ where
  abbrev pub AllAbove : K → BTreeMap K V → Type 0
  AllAbove b nil = Unit
  AllAbove b (entry k v m) = (o.cmp b k ≡ Ordering.lt) × AllAbove b m

  -- Each key is below all that follow it.
  abbrev pub IsSorted : BTreeMap K V → Type 0
  IsSorted nil = Unit
  IsSorted (entry k v m) = AllAbove k m × IsSorted m

  put-AllAbove :
      (b k : K) (v : V) (m : BTreeMap K V)
      → o.cmp b k ≡ Ordering.lt
      → AllAbove b m
      → AllAbove b (put k v m)
  unfolding put
  put-AllAbove b k v nil h a = (h, tt)
  put-AllAbove b k v (entry j w m) h a = ground (arith, put-AllAbove b k v m h)

  AllAbove-trans :
      (a b : K) (m : BTreeMap K V) → o.cmp a b ≡ Ordering.lt → AllAbove b m → AllAbove a m
  AllAbove-trans a b nil h above = tt
  AllAbove-trans a b (entry k v m) h above =
      (o.lt_trans a b k h above.0, AllAbove-trans a b m h above.1)

  pub put-IsSorted : (k : K) (v : V) (m : BTreeMap K V) → IsSorted m → IsSorted (put k v m)
  unfolding put
  put-IsSorted k v nil s = (tt, tt)
  put-IsSorted k v (entry j w m) s = ground (
    arith,
    put-IsSorted k v m s.1,
    put-AllAbove j k v m,
    AllAbove-trans k j m,
    o.lt_of_gt k j,
    o.eq_of_cmp k j,
  )

  lookup-AllAbove : (k : K) (m : BTreeMap K V) → AllAbove k m → lookup k m ≡ none
  unfolding lookup
  lookup-AllAbove k nil a = refl
  lookup-AllAbove k (entry j w m) a = ground arith

  -- The entry just put is found, and every other key reads as before.
  pub lookup-put :
      (k j : K) (v : V) (m : BTreeMap K V)
      → IsSorted m
      → lookup j (put k v m) ≡ elim (o.cmp j k) [ Ordering.eq ↦ some v | _ ↦ lookup j m ]
  unfolding lookup put
  lookup-put k j v nil s = ground arith
  lookup-put k j v (entry i w m) s = ground (
    arith,
    lookup-put k j v m s.1,
    o.eq_of_cmp k i,
    o.eq_of_cmp j i,
    o.eq_of_cmp j k,
    o.cmp_refl k,
    o.lt_trans j k i,
    o.gt_of_lt i j,
    o.gt_of_lt i k,
    o.gt_of_lt j k,
    o.gt_of_lt k j,
    o.lt_of_gt k i,
    o.lt_of_gt j i,
    o.lt_trans j i k,
  )

  pub put_comm :
      (k j : K) (v w : V) (m : BTreeMap K V) → k ≢ j → put k v (put j w m) ≡ put j w (put k v m)
  unfolding put
  put_comm k j v w nil n = ground (arith, o.eq_of_cmp k j, o.gt_of_lt k j, o.lt_of_gt k j)
  put_comm k j v w (entry i x m) n = ground (
    arith,
    put_comm k j v w m n,
    o.eq_of_cmp k i,
    o.eq_of_cmp j i,
    o.eq_of_cmp j k,
    o.eq_of_cmp k j,
    o.gt_of_lt k j,
    o.gt_of_lt j k,
    o.lt_of_gt k j,
    o.lt_of_gt k i,
    o.lt_of_gt j i,
    o.lt_of_gt j k,
    o.gt_of_lt k i,
    o.gt_of_lt j i,
    o.lt_trans k i j,
    o.lt_trans j i k,
    o.lt_trans k j i,
    o.lt_trans j k i,
  )

  -- A new key adds its value to the values.
  pub perm-put :
      (k : K) (v : V) (m : BTreeMap K V)
      → lookup k m ≡ none
      → Perm (into_values (put k v m)) (v ∷ into_values m)
  unfolding lookup put
  perm-put k v nil h = Perm.refl _
  perm-put k v (entry j w m) h = below (o.cmp k j) refl h (perm-put k v m)
    where
      below :
          (c : Ordering)
          → o.cmp k j ≡ c
          → lookup k (entry j w m) ≡ none
          → (lookup k m ≡ none → Perm (into_values (put k v m)) (v ∷ into_values m))
          → Perm (into_values (put k v (entry j w m))) (v ∷ w ∷ into_values m)
      below Ordering.lt e h ih = rw (e, put) (Perm.refl _)
      below Ordering.eq e h ih = absurd (some_not_none (rw (e, lookup) at h))
        where
          some_not_none : some w ≡ none → ⊥
          some_not_none q = cc
      below Ordering.gt e h ih =
          rw (e, put) (Perm.trans (Perm.cons w (ih (rw (e, lookup) at h))) (Perm.swap v w _))
