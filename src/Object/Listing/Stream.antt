-- ===== src/Object/Listing/Stream.antt =====
-- src/object.rs: the stream of `into_pages` follows R2's chain of pages to its end.
use r2kit.Prelude.{
  ℕ, zero, suc, ◌<◌, ◌≡◌, ◌≢◌, ◌↔◌, ◌⊎◌, inl, inr, refl, ap, sym, ◌∙◌, arith, false, Bool-cases,
  Option-cases, Option, none, some, List, [], ◌∷◌, Text, text_eq_iff, Result, Result-cases, ok, err,
  ℤ, length, is_some, ◌&&◌, flatten, map, map-append,
}
use r2kit.Error.{Error, SdkError, service, remote}
use r2kit.Sdk.{finished, reply-cases}
use r2kit.Object.Listing.{
  ListObjectsBuilder, ListObjectsRequest, ListObjectsOutput, ObjectPage, object_page, list_request,
  validate_list, set_continuation_token,
}
use r2kit.Object.Listing.Pages.{
  exhausted, stopped, running, same_token, with_token, send_list, next_page, into_pages,
  into_stream, items_of,
}
use r2kit.Object.Listing.Replies.{object_page-IsPageOf}

same_token_iff : (t : Text) (o : Option Text) → (same_token (some t) o ≡ false) ↔ (some t ≢ o)
same_token_iff t none = (λ h e. cc, λ h. refl)
same_token_iff t (some u) = ground (arith, text_eq_iff t u)

-- A checked builder stays so with the token of a page.
validate_list-token :
    (b : ListObjectsBuilder) (token : Text)
    → token ≢ []
    → validate_list b ≡ ok tt
    → validate_list (set_continuation_token b token) ≡ ok tt
unfolding validate_list
validate_list-token b [] nonempty h = absurd (nonempty refl)
validate_list-token b (x ∷ xs) nonempty h = ground arith

running-ne-exhausted : running ≢ exhausted
running-ne-exhausted e = cc

stopped-ne-exhausted : {e : Error} → stopped e ≢ exhausted
stopped-ne-exhausted h = cc

none-ne-some : {t : Text} → ◌≢◌ {A = Option Text} none (some t)
none-ne-some h = cc

items_of-exhausted :
    (pages : List ObjectPage)
    → items_of pages exhausted ≡ map (λ o. ok o) (flatten (map (λ page. page.objects) pages))
unfolding flatten
items_of-exhausted [] = refl
items_of-exhausted (page ∷ pages) = rw (items_of-exhausted pages, map-append)

module _ {S : Type 0} (system_time : ℤ → Option ℕ)
    (list_objects_v2 : ListObjectsRequest → S → Result ListObjectsOutput SdkError × S) where
  -- R2's answers, one after the other: each page but the last has a token, which the next request
  -- carries and which is not the token that it was asked with.
  pub data Chain : ListObjectsBuilder → S → List ObjectPage → S → Type 0 where
    last_page :
        {b : ListObjectsBuilder} {s t : S} {output : ListObjectsOutput} {page : ObjectPage}
        → list_objects_v2 (list_request b) s ≡ (ok output, t)
        → object_page system_time output ≡ ok page
        → page.next_continuation_token ≡ none
        → Chain b s (page ∷ []) t
    truncated_page :
        {b : ListObjectsBuilder} {s t u : S} {output : ListObjectsOutput} {page : ObjectPage}
        {token : Text} {pages : List ObjectPage}
        → list_objects_v2 (list_request b) s ≡ (ok output, t)
        → object_page system_time output ≡ ok page
        → page.next_continuation_token ≡ some token
        → some token ≢ b.continuation_token
        → Chain (set_continuation_token b token) t pages u
        → Chain b s (page ∷ pages) u

  next_page_cases :
      (b : ListObjectsBuilder) (s : S)
      → validate_list b ≡ ok tt
      → ((e : Error) × (t : S) × (next_page system_time list_objects_v2 (some b) s
            ≡ finished (err e) t))
        ⊎ ((output : ListObjectsOutput) × (page : ObjectPage) × (t : S) × (list_objects_v2
                (list_request b)
                s
              ≡ (ok output, t))
            × (object_page system_time output ≡ ok page)
            × ((is_some page.next_continuation_token
                  && same_token page.next_continuation_token b.continuation_token)
                ≡ false)
            × (next_page system_time list_objects_v2 (some b) s
                ≡ finished (ok (some (page, with_token b page.next_continuation_token))) t))
  unfolding next_page send_list
  next_page_cases b s valid = elim (reply-cases (list_objects_v2 (list_request b) s)) [
    | inr (e, t, replied) ↦ inl (remote "ListObjectsV2" e, t, rw (next_page, valid, replied))
    | inl (output, t, replied) ↦ elim (Result-cases (object_page system_time output)) [
      | inr (e, bad) ↦ inl (e, t, rw (next_page, valid, replied, bad))
      | inl (page, good) ↦
          elim (Bool-cases (
            is_some page.next_continuation_token
            && same_token page.next_continuation_token b.continuation_token)) [
              | inl stuck ↦
                  inl (service "ListObjectsV2", t, rw (next_page, valid, replied, good, stuck))
              | inr moves ↦ inr (
                output,
                page,
                t,
                replied,
                good,
                moves,
                rw (next_page, valid, replied, good, moves),
              )
            ]
    ]
  ]

  -- The polls after a page.
  after_page :
      (fuel : ℕ) (state next : Option ListObjectsBuilder) (s t u : S) (page : ObjectPage)
      (pages : List ObjectPage)
      → next_page system_time list_objects_v2 state s ≡ finished (ok (some (page, next))) t
      → into_pages system_time list_objects_v2 (suc fuel) state s ≡ (pages, exhausted, u)
      → (rest : List ObjectPage) × (page ∷ rest ≡ pages)
        × (into_pages system_time list_objects_v2 fuel next t ≡ (rest, exhausted, u))
  unfolding into_pages
  after_page fuel state next s t u page pages e h =
      let rest = into_pages system_time list_objects_v2 fuel next t in
      let whole = rw (into_pages, e) at h in
      (rest.0, ap (λ r. r.0) whole, ap (λ r. (rest.0, r.1, r.2)) whole)

  -- A stream that has given its last page ends at the next poll.
  at_end :
      (fuel : ℕ) (t u : S) (rest : List ObjectPage)
      → into_pages system_time list_objects_v2 fuel none t ≡ (rest, exhausted, u)
      → (rest ≡ []) × (t ≡ u) × (0 < fuel)
  unfolding into_pages
  at_end zero t u rest h = absurd (running-ne-exhausted (ap (λ r. r.1) h))
  at_end (suc fuel) t u rest h = (sym (ap (λ r. r.0) h), ap (λ r. r.2) h, omega arith)

  nonempty_next :
      (output : ListObjectsOutput) (page : ObjectPage) (token : Text)
      → object_page system_time output ≡ ok page
      → page.next_continuation_token ≡ some token
      → token ≢ []
  nonempty_next output page token good e z =
      elim (object_page-IsPageOf system_time output page good).token [
        | inl (_, _, _, nonempty) ↦ nonempty (e ∙ ap (λ x. some x) z)
        | inr (_, gone) ↦ none-ne-some (sym gone ∙ e)
      ]

  followed :
      (fuel : ℕ) (b : ListObjectsBuilder) (s u : S) (pages : List ObjectPage)
      → validate_list b ≡ ok tt
      → into_pages system_time list_objects_v2 fuel (some b) s ≡ (pages, exhausted, u)
      → Chain b s pages u × (length pages < fuel)
  unfolding into_pages
  followed zero b s u pages valid h = absurd (running-ne-exhausted (ap (λ r. r.1) h))
  followed (suc fuel) b s u pages valid h = elim (next_page_cases b s valid) [
    | inl (e, t, x) ↦ absurd (stopped-ne-exhausted (ap (λ r. r.1) (rw (into_pages, x) at h)))
    | inr (output, page, t, replied, good, moves, x) ↦
        let (rest, first, h') = after_page fuel (some b) _ s t u page pages x h in
        elim (Option-cases page.next_continuation_token) [
          | inl gone ↦
              let (empty, same, enough) = at_end fuel t u rest (rw gone at h') in
              let split : pages ≡ page ∷ [] = sym first ∙ ap (λ r. page ∷ r) empty in
              rw (split, ← same) (last_page replied good gone, omega arith)
          | inr (token, given) ↦
              let fresh = (same_token_iff token b.continuation_token).0 (rw given at moves) in
              let valid' =
                validate_list-token b token (nonempty_next output page token good given) valid in
              let (chain, enough) =
                followed fuel (set_continuation_token b token) t u rest valid' (rw given at h') in
              rw (← first) (truncated_page replied good given fresh chain, omega arith)
        ]
  ]

  given :
      (fuel : ℕ) (b : ListObjectsBuilder) (s u : S) (pages : List ObjectPage)
      → validate_list b ≡ ok tt
      → Chain b s pages u
      → length pages < fuel
      → into_pages system_time list_objects_v2 fuel (some b) s ≡ (pages, exhausted, u)
  unfolding into_pages
  given zero b s u pages valid chain enough = absurd (omega arith)
  given (suc zero) b s u _ valid (last_page replied good gone) enough = absurd (omega arith)
  given (suc (suc fuel)) b s u _ valid (last_page replied good gone) enough =
      rw (into_pages, next_page, valid, replied, good, gone)
  given (suc fuel) b s u _ valid
        (truncated_page {output = output} {page = page} {token = token} replied good next fresh
          chain)
        enough =
      let moves = (same_token_iff token b.continuation_token).1 fresh in
      let valid' = validate_list-token b token (nonempty_next output page token good next) valid in
      let rest = given fuel (set_continuation_token b token) _ u _ valid' chain (omega arith) in
      rw (into_pages, next_page, valid, replied, good, next, moves, rest)

  -- With more polls than there are pages, the stream of a checked builder ends without an error exactly
  -- where R2's pages form a chain, and gives exactly the pages of the chain.
  pub into_pages_iff :
      (fuel : ℕ) (b : ListObjectsBuilder) (s u : S) (pages : List ObjectPage)
      → validate_list b ≡ ok tt
      → (into_pages system_time list_objects_v2 fuel (some b) s ≡ (pages, exhausted, u))
        ↔ (Chain b s pages u × (length pages < fuel))
  into_pages_iff fuel b s u pages valid = (
    followed fuel b s u pages valid,
    λ (chain, enough). given fuel b s u pages valid chain enough,
  )

  -- Over a chain of pages, with more polls than pages, the stream of a checked builder gives every object
  -- of every page once, in order, without an error, and then ends.
  pub into_stream-objects :
      (fuel : ℕ) (b : ListObjectsBuilder) (s u : S) (pages : List ObjectPage)
      → validate_list b ≡ ok tt
      → Chain b s pages u
      → length pages < fuel
      → into_stream system_time list_objects_v2 fuel b s
        ≡ (map (λ o. ok o) (flatten (map (λ page. page.objects) pages)), exhausted, u)
  unfolding into_stream
  into_stream-objects fuel b s u pages valid chain enough =
      rw (into_stream, given fuel b s u pages valid chain enough, items_of-exhausted pages)
