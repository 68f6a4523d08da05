-- ===== src/Managed/Work/Collected.antt =====
-- src/managed.rs: the manifest of an upload is collected from the uploaded parts.
use mathlib.Core.Logic.Or
use mathlib.Core.List.{
  Mem, Mem-prop, mem-cons_self, mem-cons_of_mem, not-mem-nil, eq-or-mem_of_mem-cons,
}
use mathlib.Core.List.Perm
use Prim.Native.Nat.{Ordering, compare}
use r2kit.Prelude.{ℕ, ◌≡◌, subst, sym, List, [], ◌∷◌, All, ok}
use r2kit.BTreeMap.{BTreeMap, nil, entry, into_values, put, nat_ord}
use r2kit.Multipart.Manifest.{UploadedPart, CompletionManifest, try_from_parts}
use r2kit.Multipart.Manifest.Canonical.{try_from_parts-canonical}
use r2kit.Managed.Work.{insert_all}

All-put :
    (P : UploadedPart → Type 0) (k : ℕ) (v : UploadedPart) (m : BTreeMap ℕ UploadedPart)
    → P v
    → All P (into_values m)
    → All P (into_values (put k v m))
unfolding put
All-put P k v nil pv h = (pv, tt)
All-put P k v (entry j w m) pv h = go (compare k j) (All-put P k v m pv h.1)
  where
    go :
        (o : Ordering)
        → All P (into_values (put k v m))
        → All P (
            into_values (elim o as (λ x. BTreeMap ℕ UploadedPart) [
              | Ordering.lt ↦ entry k v (entry j w m)
              | Ordering.eq ↦ entry k v m
              | Ordering.gt ↦ entry j w (put k v m)
            ]))
    go Ordering.lt rest = (pv, h)
    go Ordering.eq rest = (pv, h.1)
    go Ordering.gt rest = (h.0, rest)

All-insert_all :
    (P : UploadedPart → Type 0) (parts : List UploadedPart) (m : BTreeMap ℕ UploadedPart)
    → All P parts
    → All P (into_values m)
    → All P (into_values (insert_all parts m))
unfolding insert_all
All-insert_all P [] m h k = k
All-insert_all P (part ∷ parts) m (hp, h) k =
    All-insert_all P parts (put part.part_number.number part m) h
      (All-put P part.part_number.number part m hp k)

all_of_mem :
    (P : UploadedPart → Type 0) (xs : List UploadedPart)
    → ((q : UploadedPart) → Mem q xs → P q)
    → All P xs
all_of_mem P [] f = tt
all_of_mem P (x ∷ xs) f = (f x mem-cons_self, all_of_mem P xs (λ q m. f q (mem-cons_of_mem x m)))

mem_of_all :
    (parts xs : List UploadedPart)
    → All (λ q. Mem q parts) xs
    → (q : UploadedPart) → Mem q xs
    → Mem q parts
mem_of_all parts [] h q m = absurd (not-mem-nil m)
mem_of_all parts (x ∷ xs) h q m =
    Or.elim Mem-prop (eq-or-mem_of_mem-cons m) (λ e. subst (λ y. Mem y parts) (sym e) h.0)
      (λ k. mem_of_all parts xs h.1 q k)

-- Each part of the manifest is one of those that were inserted.
pub collected-Mem :
    (parts : List UploadedPart) {c : CompletionManifest}
    → try_from_parts (into_values (insert_all parts nil)) ≡ ok c
    → (q : UploadedPart) → Mem q c.parts
    → Mem q parts
collected-Mem parts collected q m =
    let (_, perm) = try_from_parts-canonical (into_values (insert_all parts nil)) collected in
    mem_of_all parts _
      (All-insert_all (λ q. Mem q parts) parts nil (all_of_mem _ parts (λ q m. m)) tt) q
      ((Perm.mem_iff perm).0 m)
