-- ===== src/Object/Listing/Pages.antt =====
-- src/object.rs: `ListObjectsBuilder::send`, and the streams `into_pages` and `into_stream` as they are
-- polled until they end. The SDK's request is a parameter; fuel bounds the number of polls.
use r2kit.Prelude.{
  ℕ, zero, suc, Bool, true, false, ◌&&◌, Option, none, some, List, [], ◌∷◌, ◌++◌, Text, text_eq,
  Result, ok, err, is_some, reject, map, ℤ,
}
use r2kit.Error.{Error, SdkError, service, remote}
use r2kit.Sdk.{Remote, finished, unfinished, ◌>>=◌, ◌>>◌, lift, send}
use r2kit.Object.Listing.{
  ListObjectsBuilder, ObjectPage, ObjectSummary, ListObjectsRequest, ListObjectsOutput,
  validate_list, object_page, list_request, set_continuation_token,
}

-- How a stream stands after some polls.
pub data Ending : Type 0 where
  exhausted : Ending
  stopped : Error → Ending
  running : Ending

-- `Option<String>` equality.
abbrev pub same_token : Option Text → Option Text → Bool
same_token none none = true
same_token none (some t) = false
same_token (some t) none = false
same_token (some t) (some u) = text_eq t u

abbrev pub with_token : ListObjectsBuilder → Option Text → Option ListObjectsBuilder
with_token b none = none
with_token b (some token) = some (set_continuation_token b token)

abbrev pub items_of : List ObjectPage → Ending → List (Result ObjectSummary Error)
items_of [] exhausted = []
items_of [] running = []
items_of [] (stopped e) = err e ∷ []
items_of (page ∷ pages) ending = map (λ o. ok o) page.objects ++ items_of pages ending

module _ {S : Type 0} (system_time : ℤ → Option ℕ)
    (list_objects_v2 : ListObjectsRequest → S → Result ListObjectsOutput SdkError × S) where
  -- `ListObjectsBuilder::send`
  unfoldable pub send_list : ListObjectsBuilder → Remote S ObjectPage
  unfolding object_page validate_list
  send_list b = do
    lift (validate_list b)
    output ← send (list_objects_v2 (list_request b)) (remote "ListObjectsV2")
    lift (object_page system_time output)

  -- One poll of the stream of `into_pages`: a page and the next state, or the end.
  unfoldable pub next_page :
      Option ListObjectsBuilder → Remote S (Option (ObjectPage × Option ListObjectsBuilder))
  unfolding send_list
  next_page none = lift (ok none)
  next_page (some b) = do
    page ← send_list b
    lift (
        reject
          (is_some page.next_continuation_token
            && same_token page.next_continuation_token b.continuation_token)
          (service "ListObjectsV2"))
    lift (ok (some (page, with_token b page.next_continuation_token)))

  -- The pages that `fuel` polls give, what ended them, and R2's state then.
  unfoldable pub into_pages : ℕ → Option ListObjectsBuilder → S → List ObjectPage × Ending × S
  unfolding next_page
  into_pages zero state s = ([], running, s)
  into_pages (suc fuel) state s = elim (next_page state s) [
    | finished (ok none) t ↦ ([], exhausted, t)
    | finished (ok (some (page, next))) t ↦
        let (pages, ending, u) = into_pages fuel next t in (page ∷ pages, ending, u)
    | finished (err e) t ↦ ([], stopped e, t)
    | unfinished ↦ ([], running, s)
  ]

  -- `ListObjectsBuilder::into_stream`
  unfoldable pub into_stream :
      ℕ → ListObjectsBuilder → S → List (Result ObjectSummary Error) × Ending × S
  unfolding into_pages
  into_stream fuel b s =
      let (pages, ending, t) = into_pages fuel (some b) s in (items_of pages ending, ending, t)
