-- ===== src/Multipart/Reconcile.antt =====
-- src/multipart.rs: `PresignedMultipart::reconcile`, which pages through the parts that R2 holds.
-- The page loop takes fuel: one unit for each request.
pub mod Ends
pub mod Reads
use r2kit.Prelude.{
  ℕ, zero, suc, Bool, true, false, not, Option, none, some, Text, ok, err, is_none, reject,
}
use r2kit.Error.{Error, service, remote}
use r2kit.Sdk.{Sdk, ListPartsRequest, ListPartsOutput, Remote, unfinished, ◌>>=◌, ◌>>◌, lift, send}
use r2kit.Multipart.Plan.{MultipartPlan}
use r2kit.Multipart.Session.{PresignedMultipart}
use r2kit.Multipart.RemoteParts.{
  Slots, MultipartReconciliation, record_parts, empty_slots, reconciliation,
}

-- `output.is_truncated() == Some(true)`
abbrev pub is_truncated : ListPartsOutput → Bool
is_truncated output = elim output.is_truncated [ none ↦ false | some b ↦ b ]

module _ {S : Type 0} (sdk : Sdk S) where
  abbrev pub list_request : PresignedMultipart → Option Text → ListPartsRequest
  list_request session marker = record {
    bucket = session.bucket.name.text;
    key = session.key;
    upload_id = session.upload_id;
    max_parts = 1_000;
    part_number_marker = marker;
  }

  -- The page loop. The next request waits until a page is known to be truncated.
  unfoldable pub list_pages : ℕ → PresignedMultipart → Option Text → Slots → Remote S Slots
  list_pages zero session marker uploaded = λ s. unfinished
  list_pages (suc fuel) session marker uploaded = do
    output ← send (sdk.list_parts (list_request session marker)) (remote "ListParts")
    uploaded' ← lift (record_parts session.plan output.parts uploaded)
    elim (is_truncated output) [
      | false ↦ lift (ok uploaded')
      | true ↦
          lift (reject (is_none output.next_part_number_marker) (service "ListParts"))
          >> list_pages fuel session output.next_part_number_marker uploaded'
    ]

  -- `PresignedMultipart::reconcile`
  unfoldable pub reconcile : ℕ → PresignedMultipart → Remote S MultipartReconciliation
  reconcile fuel session = do
    uploaded ← list_pages fuel session none (empty_slots session.plan.part_count)
    lift (ok (reconciliation uploaded))
