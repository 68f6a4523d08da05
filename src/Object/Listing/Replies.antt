-- ===== src/Object/Listing/Replies.antt =====
-- src/object.rs: a page of a listing holds what the reply held.
use r2kit.Prelude.{
  ℕ, ◌∙◌, map-id, ◌≡◌, ◌≢◌, ◌⊎◌, inl, inr, refl, sym, true, false, Bool-cases, Option, none, some,
  [], ◌∷◌, Text, ok, map, traverse, traverse-map, ok_or-eq-ok, subst, String, ℤ, pos, negsuc, ok_or,
  >>=-eq-ok, ok-injective,
}
use r2kit.Error.{service}
use r2kit.Object.Listing.{
  ListObjectsOutput, ObjectPage, ObjectSummary, RemoteObject, object_page, object_summary,
  next_token, nonempty_token, is_truncated, non_negative_size, optional_system_time,
}

-- What a summary says is what the reply said of the object.
record IsSummary (object : RemoteObject) (summary : ObjectSummary) : Type 0 where
  key : object.key ≡ some summary.key
  size : object.size ≡ some (pos summary.size)
  etag : object.e_tag ≡ summary.etag

non_negative_size-eq-ok :
    (value : Option ℤ) (operation : String) {n : ℕ}
    → non_negative_size value operation ≡ ok n
    → value ≡ some (pos n)
unfolding non_negative_size
non_negative_size-eq-ok none operation h = cc
non_negative_size-eq-ok (some (pos m)) operation h = cc
non_negative_size-eq-ok (some (negsuc m)) operation h = cc

-- A page that `send` returns.
pub record IsPageOf (output : ListObjectsOutput) (page : ObjectPage) : Type 0 where
  pub keys : map (λ o. some o.key) page.objects ≡ map (λ r. r.key) output.contents
  pub sizes : map (λ o. some (pos o.size)) page.objects ≡ map (λ r. r.size) output.contents
  pub etags : map (λ o. o.etag) page.objects ≡ map (λ r. r.e_tag) output.contents
  pub prefixes : map (λ p. some p) page.common_prefixes ≡ output.common_prefixes
  pub token :
      ((is_truncated output ≡ true)
        × (page.next_continuation_token ≡ output.next_continuation_token)
        × (page.next_continuation_token ≢ none)
        × (page.next_continuation_token ≢ some []))
      ⊎ ((is_truncated output ≡ false) × (page.next_continuation_token ≡ none))

nonempty_token-eq-ok :
    (o : Option Text) {token : Option Text}
    → nonempty_token o ≡ ok token
    → (token ≡ o) × (token ≢ none) × (token ≢ some [])
nonempty_token-eq-ok none h = cc
nonempty_token-eq-ok (some []) h = cc
nonempty_token-eq-ok (some (b ∷ bs)) h = (cc, λ e. cc, λ e. cc)

next_token-cases :
    (output : ListObjectsOutput) (token : Option Text)
    → next_token output ≡ ok token
    → ((is_truncated output ≡ true)
        × (token ≡ output.next_continuation_token)
        × (token ≢ none)
        × (token ≢ some []))
      ⊎ ((is_truncated output ≡ false) × (token ≡ none))
unfolding next_token
next_token-cases output token h = elim (Bool-cases (is_truncated output)) [
  | inr whole ↦ inr (whole, cc)
  | inl truncated ↦
      let (same, some_token, nonempty) =
        nonempty_token-eq-ok output.next_continuation_token (rw (next_token, truncated) at h) in
      inl (truncated, same, some_token, nonempty)
]

module _ (system_time : ℤ → Option ℕ) where
  object_summary-IsSummary :
      (object : RemoteObject) (summary : ObjectSummary)
      → object_summary system_time object ≡ ok summary
      → IsSummary object summary
  unfolding object_summary
  object_summary-IsSummary object summary h =
      let (key, has_key, h1) = >>=-eq-ok (ok_or object.key (service "ListObjectsV2")) _ h in
      let (size, has_size, h2) = >>=-eq-ok (non_negative_size object.size "ListObjectsV2") _ h1 in
      let (time, has_time, h3) =
        >>=-eq-ok (optional_system_time system_time object.last_modified "ListObjectsV2") _ h2 in
      let same = ok-injective h3 in
      let kept : IsSummary object
          (record { key = key; size = size; etag = object.e_tag; last_modified = time }) =
        record {
          key = ok_or-eq-ok object.key _ has_key;
          size = non_negative_size-eq-ok object.size _ has_size;
          etag = refl;
        } in
      subst (IsSummary object) same kept

  -- A page of `ListObjectsBuilder::send` holds the keys, sizes, entity tags and prefixes of the reply, in
  -- their order; it has a token exactly where the reply is truncated, and then the reply's, not empty.
  pub object_page-IsPageOf :
      (output : ListObjectsOutput) (page : ObjectPage)
      → object_page system_time output ≡ ok page
      → IsPageOf output page
  unfolding object_page
  object_page-IsPageOf output page h =
      let (objects, parsed, h1) =
        >>=-eq-ok (traverse (object_summary system_time) output.contents) _ h in
      let (prefixes, known, h2) =
        >>=-eq-ok
          (traverse (λ (p : Option Text). ok_or p (service "ListObjectsV2")) output.common_prefixes)
          _ h1 in
      let (token, has_token, h3) = >>=-eq-ok (next_token output) _ h2 in
      let kept : IsPageOf output (record {
        objects = objects;
        common_prefixes = prefixes;
        next_continuation_token = token;
      }) =
        record {
          keys = traverse-map _ _ _ (λ r o e. sym (object_summary-IsSummary r o e).key) _ _ parsed;
          sizes =
              traverse-map _ _ _ (λ r o e. sym (object_summary-IsSummary r o e).size) _ _ parsed;
          etags =
              traverse-map _ _ _ (λ r o e. sym (object_summary-IsSummary r o e).etag) _ _ parsed;
          prefixes =
              traverse-map _ _ (λ p. p) (λ p q e. sym (ok_or-eq-ok p _ e)) _ _ known ∙ map-id _;
          token = next_token-cases output token has_token;
        } in
      subst (IsPageOf output) (ok-injective h3) kept
