-- ===== src/Object/Delete/Batches.antt =====
-- The batches of `delete_objects` of src/object.rs, and how many requests it sends.
use r2kit.Prelude.{
  ℕ, zero, suc, ◌+◌, ◌-◌, ◌*◌, ◌≤◌, ◌<◌, ◌≡◌, ◌∙◌, ◌⊎◌, err-ne-ok, ok-injective, refl, sym, ap,
  arith, List, [], ◌∷◌, Text, Result, ok, map, length, length-map, drop, length-take, length-drop,
  take-append-drop, flatten, traverse, All, Result-cases, Option-cases, inl, inr,
}
use r2kit.Error.{SdkError}
use r2kit.Types.{ObjectKey, new_object_key}
use r2kit.Sdk.{reply-cases}
use r2kit.Object.Delete.{
  max_delete_keys, DeleteObjectsResult, DeleteOutput, RemoteFailure, no_result, chunks_from,
  delete_batches, record_failures, record_output, send_batches, delete_objects,
}

chunks_from-flatten :
    {A : Type 0} (fuel n : ℕ) (xs : List A)
    → 0 < n
    → length xs ≤ fuel
    → flatten (chunks_from fuel n xs) ≡ xs
unfolding chunks_from flatten
chunks_from-flatten zero n [] pos le = refl
chunks_from-flatten zero n (x ∷ xs) pos le = absurd (omega arith)
chunks_from-flatten (suc fuel) n [] pos le = refl
chunks_from-flatten (suc fuel) n (x ∷ xs) pos le =
    rw (chunks_from-flatten fuel n (drop n (x ∷ xs)) pos (omega (arith, length-drop n (x ∷ xs))))
      (take-append-drop n (x ∷ xs))

chunks_from-sizes :
    {A : Type 0} (fuel n : ℕ) (xs : List A)
    → 0 < n
    → All (λ c. (0 < length c) × (length c ≤ n)) (chunks_from fuel n xs)
unfolding chunks_from
chunks_from-sizes zero n xs pos = tt
chunks_from-sizes (suc fuel) n [] pos = tt
chunks_from-sizes (suc fuel) n (x ∷ xs) pos =
    let size = length-take n (x ∷ xs) in
    ((omega (arith, size), omega (arith, size)), chunks_from-sizes fuel n (drop n (x ∷ xs)) pos)

-- The batches hold between 1 and 1,000 keys, and one after the other they are the keys, in order.
pub delete_batches-flatten :
    (keys : List Text)
    → (flatten (delete_batches keys) ≡ keys)
      × All (λ batch. (0 < length batch) × (length batch ≤ max_delete_keys)) (delete_batches keys)
unfolding delete_batches
delete_batches-flatten keys = (
  chunks_from-flatten (length keys) max_delete_keys keys (omega arith) (omega arith),
  chunks_from-sizes (length keys) max_delete_keys keys (omega arith),
)

nothing_left : (r n : ℕ) → r * n < n → r * n ≡ 0
nothing_left zero n lt = omega arith
nothing_left (suc r) n lt =
    let more : suc r * n ≡ n + r * n = grind arith in absurd (omega (arith, more, lt))

last_chunk :
    (r n len : ℕ)
    → 0 < n
    → suc r * n ≡ n + r * n
    → r * n < suc len - n + n
    → suc r * n < suc len + n
last_chunk r n len pos more lt = elim (le_or_lt n (suc len)) [
  | inl full ↦ omega (arith, more, lt, full)
  | inr short ↦
      let none_left = nothing_left r n (omega (arith, lt, short)) in omega (arith, more, none_left)
]
  where
    le_or_lt : (a b : ℕ) → (a ≤ b) ⊎ (b < a)
    le_or_lt a b = grind arith

-- How many chunks there are: enough, and none too many.
chunks_from-count :
    {A : Type 0} (fuel n : ℕ) (xs : List A)
    → 0 < n
    → length xs ≤ fuel
    → (length xs ≤ length (chunks_from fuel n xs) * n)
      × (length (chunks_from fuel n xs) * n < length xs + n)
unfolding chunks_from
chunks_from-count zero n [] pos le = (omega arith, omega arith)
chunks_from-count zero n (x ∷ xs) pos le = absurd (omega arith)
chunks_from-count (suc fuel) n [] pos le = (omega arith, omega arith)
chunks_from-count (suc fuel) n (x ∷ xs) pos le =
    let rest = length (chunks_from fuel n (drop n (x ∷ xs))) in
    let left = length-drop n (x ∷ xs) in
    let (enough, tight) = chunks_from-count fuel n (drop n (x ∷ xs)) pos (omega (arith, left)) in
    let more : suc rest * n ≡ n + rest * n = grind arith in
    (omega (arith, more, enough, left), last_chunk rest n (length xs) pos more (rw left at tight))

pub record_failures-count :
    (fs : List RemoteFailure) (r : DeleteObjectsResult) {r' : DeleteObjectsResult}
    → record_failures fs r ≡ ok r'
    → r'.request_count ≡ r.request_count
unfolding record_failures
record_failures-count [] r h = cc
record_failures-count (f ∷ fs) r h = elim (Option-cases f.key) [
  | inl e ↦ absurd (err-ne-ok (rw (record_failures, e) at h))
  | inr (key, e) ↦ record_failures-count fs _ (rw (record_failures, e) at h)
]

send_batches-count :
    {S : Type 0} (delete : List Text → S → Result DeleteOutput SdkError × S)
    (batches : List (List Text)) (r : DeleteObjectsResult) (s u : S) {r' : DeleteObjectsResult}
    → send_batches delete batches r s ≡ (ok r', u)
    → r'.request_count ≡ r.request_count + length batches
unfolding send_batches record_output
send_batches-count delete [] r s u h =
    let same : r ≡ _ = ok-injective (ap (λ x. x.0) h) in
    omega (arith, ap (λ x. x.request_count) same)
send_batches-count delete (batch ∷ batches) r s u h = elim (reply-cases (delete batch s)) [
  | inr (e, t, replied) ↦ absurd (err-ne-ok (ap (λ x. x.0) (rw (send_batches, replied) at h)))
  | inl (output, t, replied) ↦ elim (Result-cases (record_output output r)) [
    | inr (e, refused) ↦
        absurd (err-ne-ok (ap (λ x. x.0) (rw (send_batches, replied, refused) at h)))
    | inl (next, recorded) ↦
        let rest =
          send_batches-count delete batches next t u
            (rw (send_batches, replied, recorded, replied) at h) in
        let counted = record_failures-count output.errors _ recorded in omega (arith, rest, counted)
  ]
]

traverse-length :
    {A B E : Type 0} (f : A → Result B E) (xs : List A) {ys : List B}
    → traverse f xs ≡ ok ys
    → length ys ≡ length xs
unfolding traverse
traverse-length f [] h = sym (ap length (ok-injective h))
traverse-length f (x ∷ xs) h = elim (Result-cases (f x)) [
  | inr (e, fx) ↦ absurd (err-ne-ok (rw (traverse, fx) at h))
  | inl (y, fx) ↦ elim (Result-cases (traverse f xs)) [
    | inr (e, rest) ↦ absurd (err-ne-ok (rw (traverse, fx, rest) at h))
    | inl (ys', rest) ↦
        let same = ok-injective (rw (traverse, fx, rest) at h) in
        sym (ap length same) ∙ ap suc (traverse-length f xs rest)
  ]
]

-- A call of `delete_objects` that succeeds has sent one request for each started thousand of keys.
pub delete_objects-count :
    {S : Type 0} (delete : List Text → S → Result DeleteOutput SdkError × S) (keys : List Text)
    (s u : S) {r : DeleteObjectsResult}
    → delete_objects delete keys s ≡ (ok r, u)
    → (length keys ≤ r.request_count * max_delete_keys)
      × (r.request_count * max_delete_keys < length keys + max_delete_keys)
unfolding delete_objects delete_batches
delete_objects-count delete keys s u {r} h = elim (Result-cases (traverse new_object_key keys)) [
  | inr (e, refused) ↦ absurd (err-ne-ok (ap (λ x. x.0) (rw (delete_objects, refused) at h)))
  | inl (ks, valid) ↦
      let texts = map (λ (k : ObjectKey). k.text) ks in
      let sent =
        send_batches-count delete (delete_batches texts) no_result s u
          (rw (delete_objects, valid) at h) in
      let same : length texts ≡ length keys =
        length-map ks (λ (k : ObjectKey). k.text) ∙ traverse-length new_object_key keys valid in
      let bounds =
        chunks_from-count (length texts) max_delete_keys texts (omega arith) (omega arith) in
      (omega (arith, sent, same, bounds), omega (arith, sent, same, bounds))
]
