-- ===== src/Multipart/Manifest/Accepts.antt =====
-- Which parts and receipts make a manifest in src/multipart.rs, and which error the others give.
use r2kit.Prelude.{
  ℕ, ◌≡◌, ◌≢◌, refl, arith, List, [], ◌∷◌, none, ok, err, Option-cases, inl, inr, ◌⊎◌, true,
  is_some,
}
use r2kit.Error.{Error, invalid_input}
use r2kit.BTreeMap.{
  BTreeMap, nil, entry, lookup, put, into_values, IsSorted, put-IsSorted, lookup-put, nat_ord,
}
use r2kit.Multipart.Manifest.{UploadedPart, CompletionManifest, canonicalize, try_from_parts}

-- No part has the number `n`.
abbrev pub Lacks : ℕ → List UploadedPart → Type 0
Lacks n [] = Unit
Lacks n (p ∷ ps) = (p.part_number.number ≢ n) × Lacks n ps

-- The part numbers are distinct.
abbrev pub Distinct : List UploadedPart → Type 0
Distinct [] = Unit
Distinct (p ∷ ps) = Lacks p.part_number.number ps × Distinct ps

abbrev pub duplicate : Error
duplicate = invalid_input "parts" "contains a duplicate part number"

-- The numbers of `m` are not among those of the parts.
abbrev IsFresh : BTreeMap ℕ UploadedPart → List UploadedPart → Type 0
IsFresh m [] = Unit
IsFresh m (p ∷ ps) = (lookup p.part_number.number m ≡ none) × IsFresh m ps

put-IsFresh :
    (p : UploadedPart) (m : BTreeMap ℕ UploadedPart) (ps : List UploadedPart)
    → IsSorted m
    → IsFresh m ps
    → Lacks p.part_number.number ps
    → IsFresh (put p.part_number.number p m) ps
put-IsFresh p m [] s f l = tt
put-IsFresh p m (q ∷ ps) s f l = ground (
  arith,
  put-IsFresh p m ps s f.1 l.1,
  lookup-put p.part_number.number q.part_number.number p m s,
)

canonicalize_accepts :
    (ps : List UploadedPart) (m : BTreeMap ℕ UploadedPart)
    → IsSorted m
    → IsFresh m ps
    → Distinct ps
    → (r : BTreeMap ℕ UploadedPart) × (canonicalize ps m ≡ ok r)
unfolding canonicalize
canonicalize_accepts [] m s f d = (m, refl)
canonicalize_accepts (p ∷ ps) m s f d =
    let n = p.part_number.number in
    let (r, e) =
      canonicalize_accepts ps (put n p m) (put-IsSorted n p m s) (put-IsFresh p m ps s f.1 d.0)
        d.1 in
    (r, rw (f.0, e))

-- A number that stays in the map is refused when it comes again.
canonicalize_refuses :
    (n : ℕ) (ps : List UploadedPart) (m : BTreeMap ℕ UploadedPart)
    → IsSorted m
    → is_some (lookup n m) ≡ true
    → ¬ Lacks n ps
    → canonicalize ps m ≡ err duplicate
unfolding canonicalize
canonicalize_refuses n [] m s known bad = absurd (bad tt)
canonicalize_refuses n (p ∷ ps) m s known bad =
    elim (Option-cases (lookup p.part_number.number m)) [
      | inr (q, old) ↦ rw old
      | inl new ↦
          let j = p.part_number.number in
          let other : j ≢ n = λ e. clash j n e new known in
          rw new (
            canonicalize_refuses n ps (put j p m) (put-IsSorted j p m s)
              (ground (arith, lookup-put j n p m s)) (λ l. bad (other, l)))
    ]
  where
    clash : (j n : ℕ) → j ≡ n → lookup j m ≡ none → is_some (lookup n m) ≡ true → ⊥
    clash j n e new known = ground arith

Lacks-cases : (n : ℕ) (ps : List UploadedPart) → Lacks n ps ⊎ (¬ Lacks n ps)
Lacks-cases n [] = inl tt
Lacks-cases n (p ∷ ps) = ground (arith, Lacks-cases n ps)

canonicalize-duplicate :
    (ps : List UploadedPart) (m : BTreeMap ℕ UploadedPart)
    → IsSorted m
    → ¬ Distinct ps
    → canonicalize ps m ≡ err duplicate
unfolding canonicalize
canonicalize-duplicate [] m s bad = absurd (bad tt)
canonicalize-duplicate (p ∷ ps) m s bad = elim (Option-cases (lookup p.part_number.number m)) [
  | inr (q, old) ↦ rw old
  | inl new ↦
      let j = p.part_number.number in
      let s' = put-IsSorted j p m s in
      rw new (elim (Lacks-cases j ps) [
        | inl l ↦ canonicalize-duplicate ps (put j p m) s' (λ d. bad (l, d))
        | inr l ↦ canonicalize_refuses j ps (put j p m) s' (ground (arith, lookup-put j j p m s)) l
      ])
]

put_nonempty :
    (n : ℕ) (p : UploadedPart) (m : BTreeMap ℕ UploadedPart) → into_values (put n p m) ≢ []
unfolding put
put_nonempty n p nil = ground arith
put_nonempty n p (entry k q m) = ground arith

canonicalize_nonempty :
    (ps : List UploadedPart) (m : BTreeMap ℕ UploadedPart) {r : BTreeMap ℕ UploadedPart}
    → canonicalize ps m ≡ ok r
    → into_values m ≢ []
    → into_values r ≢ []
unfolding canonicalize
canonicalize_nonempty [] m h n = ground arith
canonicalize_nonempty (p ∷ ps) m h n = elim (Option-cases (lookup p.part_number.number m)) [
  | inl new ↦
      canonicalize_nonempty ps (put p.part_number.number p m) (rw new at h)
        (put_nonempty p.part_number.number p m)
  | inr (q, old) ↦ ground arith
]

canonicalize_cons :
    (p : UploadedPart) (ps : List UploadedPart) {r : BTreeMap ℕ UploadedPart}
    → canonicalize (p ∷ ps) nil ≡ ok r
    → into_values r ≢ []
unfolding canonicalize lookup
canonicalize_cons p ps h =
    canonicalize_nonempty ps (put p.part_number.number p nil) h
      (put_nonempty p.part_number.number p nil)

Distinct-cases : (ps : List UploadedPart) → Distinct ps ⊎ (¬ Distinct ps)
Distinct-cases [] = inl tt
Distinct-cases (p ∷ ps) = ground (arith, Distinct-cases ps, Lacks-cases p.part_number.number ps)

IsFresh-nil : (ps : List UploadedPart) → IsFresh nil ps
unfolding lookup
IsFresh-nil [] = tt
IsFresh-nil (p ∷ ps) = (refl, IsFresh-nil ps)

-- `try_from_parts` accepts exactly the non-empty lists with distinct part numbers. Of the others,
-- the empty list is refused as empty and a repeated number is refused as a duplicate.
pub try_from_parts_cases :
    (ps : List UploadedPart)
    → ((ps ≢ []) × Distinct ps × ((c : CompletionManifest) × (try_from_parts ps ≡ ok c)))
      ⊎ ((¬ Distinct ps) × (try_from_parts ps ≡ err duplicate))
      ⊎ ((ps ≡ [])
          × (try_from_parts ps
              ≡ err (invalid_input "parts" "must contain at least one uploaded part")))
unfolding try_from_parts
try_from_parts_cases [] = inr (inr (refl, refl))
try_from_parts_cases (p ∷ ps) = elim (Distinct-cases (p ∷ ps)) [
  | inl d ↦
      let (r, made) = canonicalize_accepts (p ∷ ps) nil tt (IsFresh-nil (p ∷ ps)) d in
      let full = canonicalize_cons p ps made in
      inl (ground arith, d, (record { parts = into_values r }, rw made (ground (arith, full))))
  | inr bad ↦ inr (inl (bad, rw (canonicalize-duplicate (p ∷ ps) nil tt bad)))
]
