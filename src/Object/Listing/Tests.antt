-- ===== src/Object/Listing/Tests.antt =====
-- The theorems on listings of src/object.rs for a bucket with two pages.
use r2kit.Prelude.{
  ℕ, ◌+◌, ◌<◌, ◌≡◌, ◌↔◌, refl, arith, true, false, Option, none, some, [], ◌∷◌, Text, codes, Result,
  ok, err, ℤ, pos, negsuc, length, map, flatten, traverse, text_eq,
}
use r2kit.Error.{SdkError, invalid_input, service}
use r2kit.Sdk.{finished}
use r2kit.Object.Listing.{
  ListObjectsRequest, ListObjectsOutput, ObjectPage, ObjectSummary, RemoteObject, list, object_page,
  validate_list,
}
use r2kit.Object.Listing.Pages.{exhausted, stopped, into_pages, into_stream, send_list}
use r2kit.Object.Listing.Replies.{IsPageOf, object_page-IsPageOf}
use r2kit.Object.Listing.Stream.{
  Chain, last_page, truncated_page, into_pages_iff, into_stream-objects,
}
use r2kit.Examples.{bucket}

abbrev from_epoch : ℤ → Option ℕ
from_epoch (pos n) = some n
from_epoch (negsuc n) = none

abbrev stored : Text → ℕ → RemoteObject
stored key size = record {
  key = some key;
  size = some (pos size);
  e_tag = none;
  last_modified = some (pos 9);
}

abbrev found : Text → ℕ → ObjectSummary
found key size = record { key = key; size = size; etag = none; last_modified = some 9 }

abbrev first_output : ListObjectsOutput
first_output = record {
  contents = stored (codes "a") 1 ∷ stored (codes "b") 2 ∷ [];
  common_prefixes = [];
  is_truncated = some true;
  next_continuation_token = some (codes "t1");
}

abbrev last_output : ListObjectsOutput
last_output = record {
  contents = stored (codes "c") 3 ∷ [];
  common_prefixes = some (codes "d/") ∷ [];
  is_truncated = some false;
  next_continuation_token = none;
}

abbrev first_page : ObjectPage
first_page = record {
  objects = found (codes "a") 1 ∷ found (codes "b") 2 ∷ [];
  common_prefixes = [];
  next_continuation_token = some (codes "t1");
}

abbrev second_page : ObjectPage
second_page = record {
  objects = found (codes "c") 3 ∷ [];
  common_prefixes = codes "d/" ∷ [];
  next_continuation_token = none;
}

-- R2 with two pages; its state counts the requests.
abbrev two_pages : ListObjectsRequest → ℕ → Result ListObjectsOutput SdkError × ℕ
two_pages request s = elim request.continuation_token [
  | none ↦ (ok first_output, s + 1)
  | some token ↦ (ok last_output, s + 1)
]

-- R2 that always gives the same token.
abbrev looping : ListObjectsRequest → ℕ → Result ListObjectsOutput SdkError × ℕ
looping request s = (ok first_output, s + 1)

two_pages-Chain : Chain from_epoch two_pages (list bucket) 0 (first_page ∷ second_page ∷ []) 2
unfolding list object_page traverse
two_pages-Chain =
    truncated_page {output = first_output} {page = first_page} refl refl refl (λ e. cc)
      (last_page {output = last_output} {page = second_page} refl refl refl)

list_valid : validate_list (list bucket) ≡ ok tt
unfolding validate_list list
list_valid = refl

stops_on_repeat :
    into_pages from_epoch looping 3 (some (list bucket)) 0
    ≡ (first_page ∷ [], stopped (service "ListObjectsV2"), 2)
unfolding into_pages list traverse text_eq
stops_on_repeat = refl

refuses_limit :
    send_list from_epoch two_pages (record (list bucket) { delimiter = some [] }) 0
    ≡ finished (err (invalid_input "delimiter" "must not be empty")) 0
unfolding send_list list
refuses_limit = refl

into_pages_iff_example :
    (into_pages from_epoch two_pages 3 (some (list bucket)) 0
      ≡ (first_page ∷ second_page ∷ [], exhausted, 2))
    ↔ (Chain from_epoch two_pages (list bucket) 0 (first_page ∷ second_page ∷ []) 2
        × (length (first_page ∷ second_page ∷ []) < 3))
into_pages_iff_example =
    into_pages_iff from_epoch two_pages 3 (list bucket) 0 2 (first_page ∷ second_page ∷ [])
      list_valid

into_stream-objects_example : into_stream from_epoch two_pages 3 (list bucket) 0 ≡ (
  map (λ o. ok o) (flatten (map (λ page. page.objects) (first_page ∷ second_page ∷ []))),
  exhausted,
  2,
)
into_stream-objects_example =
    into_stream-objects from_epoch two_pages 3 (list bucket) 0 2 (first_page ∷ second_page ∷ [])
      list_valid two_pages-Chain (omega arith)

first_read : object_page from_epoch first_output ≡ ok first_page
unfolding object_page traverse
first_read = refl

object_page-IsPageOf_example : IsPageOf first_output first_page
object_page-IsPageOf_example = object_page-IsPageOf from_epoch first_output first_page first_read
