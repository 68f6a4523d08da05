-- ===== src/Multipart/Manifest/Canonical.antt =====
-- The manifest of src/multipart.rs is sorted, holds the given parts, and does not depend on their
-- order.
use mathlib.Core.List.{Perm, Permᴰ, perm_middle, perm-append_left_iff}
use mathlib.Core.List.Perm
use mathlib.Core.Logic.{∥∥₁_elim}
use text.Mathlib.TextEquality.{IsScalar-prop}
use r2kit.Prelude.{
  >>=-eq-ok, ℕ, ◌<◌, ◌≡◌, ◌∙◌, refl, sym, arith, List, [], ◌∷◌, ◌++◌, append-nil, append_assoc,
  none, Result, ok, err, inl, inr, Option-cases,
}
use r2kit.Error.{Error}
use r2kit.BTreeMap.{
  BTreeMap, entry, lookup, put, into_values, IsSorted, AllAbove, put-IsSorted, lookup-put, put_comm,
  perm-put, nat_ord,
}
use r2kit.Multipart.Manifest.{UploadedPart, CompletionManifest, canonicalize, try_from_parts}

-- Rising part numbers.
abbrev pub Above : ℕ → List UploadedPart → Type 0
Above b [] = Unit
Above b (p ∷ ps) = (b < p.part_number.number) × Above b ps

abbrev pub IsAscending : List UploadedPart → Type 0
IsAscending [] = Unit
IsAscending (p ∷ ps) = Above p.part_number.number ps × IsAscending ps

-- Each entry stands under the number of its part.
abbrev IsKeyed : BTreeMap ℕ UploadedPart → Type 0
IsKeyed BTreeMap.nil = Unit
IsKeyed (entry k p m) = (k ≡ p.part_number.number) × IsKeyed m

put-IsKeyed :
    (p : UploadedPart) (m : BTreeMap ℕ UploadedPart)
    → IsKeyed m
    → IsKeyed (put p.part_number.number p m)
unfolding put
put-IsKeyed p BTreeMap.nil h = (refl, tt)
put-IsKeyed p (entry k q m) h = ground (arith, put-IsKeyed p m)

values-Above :
    (b : ℕ) (m : BTreeMap ℕ UploadedPart) → IsKeyed m → AllAbove b m → Above b (into_values m)
values-Above b BTreeMap.nil h s = tt
values-Above b (entry k p m) h s = ground (arith, values-Above b m h.1 s.1)

values-IsAscending :
    (m : BTreeMap ℕ UploadedPart) → IsKeyed m → IsSorted m → IsAscending (into_values m)
values-IsAscending BTreeMap.nil h s = tt
values-IsAscending (entry k p m) h s =
    ground (arith, values-IsAscending m h.1 s.1, values-Above k m h.1 s.0)

canonicalize_keeps :
    (ps : List UploadedPart) (m : BTreeMap ℕ UploadedPart) {r : BTreeMap ℕ UploadedPart}
    → IsKeyed m
    → IsSorted m
    → canonicalize ps m ≡ ok r
    → IsKeyed r × IsSorted r × Perm (into_values r) (ps ++ into_values m)
unfolding canonicalize
canonicalize_keeps [] m {r} k s h = let e : m ≡ r = cc in rw (← e) (k, s, Perm.refl _)
canonicalize_keeps (p ∷ ps) m {r} k s h = elim (Option-cases (lookup p.part_number.number m)) [
  | inl new ↦
      let m' = put p.part_number.number p m in
      let rest : canonicalize ps m' ≡ ok r = rw new at h in
      let (keyed, sorted, perm) =
        canonicalize_keeps ps m' (put-IsKeyed p m k) (put-IsSorted p.part_number.number p m s)
          rest in
      (
        keyed,
        sorted,
        Perm.trans perm (
            Perm.trans ((perm-append_left_iff ps).1 (perm-put p.part_number.number p m new))
              (perm_middle ps (into_values m))),
      )
  | inr (q, old) ↦ absurd (refused (rw old at h))
]
  where
    refused : {e : Error} → ◌≡◌ {A = Result (BTreeMap ℕ UploadedPart) Error} (err e) (ok r) → ⊥
    refused q = cc

-- An accepted list of parts gives a manifest with rising part numbers that holds exactly these
-- parts.
pub try_from_parts-canonical :
    (ps : List UploadedPart) {c : CompletionManifest}
    → try_from_parts ps ≡ ok c
    → IsAscending c.parts × Perm c.parts ps
unfolding try_from_parts
try_from_parts-canonical ps {c} h =
    let (m, made, wrapped) = >>=-eq-ok (canonicalize ps BTreeMap.nil) _ h in
    let (keyed, sorted, perm) = canonicalize_keeps ps BTreeMap.nil tt tt made in
    let e : into_values m ≡ c.parts = ground arith in
    rw (← e) (values-IsAscending m keyed sorted, rw append-nil at perm)

swap_insertions :
    (p q : UploadedPart) (ps : List UploadedPart) (m : BTreeMap ℕ UploadedPart)
    → IsSorted m
    → canonicalize (p ∷ q ∷ ps) m ≡ canonicalize (q ∷ p ∷ ps) m
unfolding canonicalize
swap_insertions p q ps m s =
    let j = p.part_number.number in
    let k = q.part_number.number in
    ground (arith, lookup-put j k p m s, lookup-put k j q m s, put_comm j k p q m)

canonicalize-perm :
    {ps qs : List UploadedPart} (m : BTreeMap ℕ UploadedPart)
    → IsSorted m
    → Permᴰ ps qs
    → canonicalize ps m ≡ canonicalize qs m
unfolding canonicalize
canonicalize-perm m s Permᴰ.nil = refl
canonicalize-perm m s (Permᴰ.cons {a = p} {b = q} e d) =
    let number = q.part_number.number in
    rw (e, canonicalize, canonicalize-perm (put number q m) (put-IsSorted number q m s) d)
canonicalize-perm m s (Permᴰ.swap {a = p} {b = q} {l = l} e f) =
    rw (← e, ← f) (swap_insertions p q l m s)
canonicalize-perm m s (Permᴰ.trans d e) = canonicalize-perm m s d ∙ canonicalize-perm m s e

-- The outcome, be it the manifest or the error, does not depend on the order of the parts.
pub try_from_parts-perm :
    {ps qs : List UploadedPart} → Perm ps qs → try_from_parts ps ≡ try_from_parts qs
unfolding try_from_parts
try_from_parts-perm perm =
    ∥∥₁_elim perm (hlevel IsScalar-prop) (λ d. rw (canonicalize-perm BTreeMap.nil tt d))

-- Every number in the map is below `b`.
abbrev AllBelow : ℕ → BTreeMap ℕ UploadedPart → Type 0
AllBelow b BTreeMap.nil = Unit
AllBelow b (entry k p m) = (k < b) × AllBelow b m

put_last :
    (p : UploadedPart) (m : BTreeMap ℕ UploadedPart)
    → AllBelow p.part_number.number m
    → (lookup p.part_number.number m ≡ none)
      × (into_values (put p.part_number.number p m) ≡ into_values m ++ p ∷ [])
unfolding lookup put
put_last p BTreeMap.nil b = (refl, refl)
put_last p (entry k q m) b = ground (arith, put_last p m)

AllBelow-put :
    (b : ℕ) (p : UploadedPart) (m : BTreeMap ℕ UploadedPart)
    → p.part_number.number < b
    → AllBelow p.part_number.number m
    → AllBelow b (put p.part_number.number p m)
unfolding put
AllBelow-put b p BTreeMap.nil h m = (h, tt)
AllBelow-put b p (entry k q m) h below = ground (arith, AllBelow-put b p m h)

-- The parts that are left lie above the map.
abbrev StartsAbove : BTreeMap ℕ UploadedPart → List UploadedPart → Type 0
StartsAbove m [] = Unit
StartsAbove m (p ∷ ps) = AllBelow p.part_number.number m

canonicalize_ascending :
    (ps : List UploadedPart) (m : BTreeMap ℕ UploadedPart)
    → IsAscending ps
    → StartsAbove m ps
    → (r : BTreeMap ℕ UploadedPart) × (canonicalize ps m ≡ ok r)
      × (into_values r ≡ into_values m ++ ps)
unfolding canonicalize
canonicalize_ascending [] m a b = (m, refl, sym (append-nil _))
canonicalize_ascending (p ∷ ps) m a b =
    let number = p.part_number.number in
    let (new, values) = put_last p m b in
    let (r, made, e) = canonicalize_ascending ps (put number p m) a.1 (next_above ps a.0) in
    (r, rw (new, made), e ∙ rw (values, append_assoc))
  where
    next_above :
        (qs : List UploadedPart)
        → Above p.part_number.number qs
        → StartsAbove (put p.part_number.number p m) qs
    next_above [] h = tt
    next_above (q ∷ qs) h = AllBelow-put q.part_number.number p m h.0 b

-- Parts that come with rising numbers are the manifest as they stand.
pub try_from_parts_ascending :
    (p : UploadedPart) (ps : List UploadedPart)
    → IsAscending (p ∷ ps)
    → try_from_parts (p ∷ ps) ≡ ok (record { parts = p ∷ ps })
unfolding try_from_parts
try_from_parts_ascending p ps a =
    let (r, made, e) = canonicalize_ascending (p ∷ ps) BTreeMap.nil a tt in rw (made, e)
