-- ===== src/Multipart/Upload/Completes.antt =====
-- `complete` of src/multipart.rs, and what a success of `complete_verified` means.
use r2kit.Prelude.{
  ℕ, ◌≡◌, ◌≢◌, ◌⊎◌, ◌∙◌, sym, ap, arith, Option, Text, List, [], map, Result, ok, err, err-ne-ok,
  Result-cases, inl, inr,
}
use r2kit.Error.{Error, SdkError, invalid_input, remote}
use r2kit.Sdk.{
  Sdk, CompleteMultipartUploadRequest, finished, bind-finished, failed-ne-done, finished-value,
  finished-state, reply-cases,
}
use r2kit.Multipart.Plan.{MultipartPlan}
use r2kit.Multipart.Plan.Tiling.{planned}
use r2kit.Multipart.Manifest.{UploadedPart, CompletionManifest}
use r2kit.Multipart.Session.{PresignedMultipart}
use r2kit.Multipart.RemoteParts.{MultipartReconciliation}
use r2kit.Multipart.RemoteParts.Outcome.{numbers}
use r2kit.Multipart.Reconcile.{reconcile}
use r2kit.Multipart.Checks.{check_manifest, check_reconciled}
use r2kit.Multipart.Checks.Exact.{check_manifest_iff, check_reconciled_iff}
use r2kit.Multipart.Upload.{CompletedObject, complete, complete_verified}

pub complete-checked :
    {S : Type 0} (sdk : Sdk S) (session : PresignedMultipart) (c : CompletionManifest) (s u : S)
    {o : CompletedObject}
    → complete sdk session c s ≡ finished (ok o) u
    → check_manifest session.plan c ≡ ok tt
unfolding complete
complete-checked sdk session c s u h = elim (Result-cases (check_manifest session.plan c)) [
  | inl (_, passed) ↦ passed
  | inr (e, refused) ↦ absurd (failed-ne-done (rw refused at h))
]

-- What R2 must be asked for the parts of a manifest: their numbers and entity tags, in order.
abbrev pub completion_of : PresignedMultipart → List UploadedPart → CompleteMultipartUploadRequest
completion_of session parts = record {
  bucket = session.bucket.name.text;
  key = session.key;
  upload_id = session.upload_id;
  parts = map (λ part. (part.part_number.number, part.etag)) parts;
}

check_manifest-err :
    (plan : MultipartPlan) (c : CompletionManifest) {e : Error}
    → check_manifest plan c ≡ err e
    → e ≡ invalid_input "parts" "must include every planned part exactly once"
unfolding check_manifest
check_manifest-err plan c h = ground arith

-- `complete` sends a request exactly if the parts of the manifest have the planned numbers, in order and
-- each once; otherwise it fails with an input error, and the state of R2 stays as it was. The request has
-- the numbers and entity tags of these parts. Its answer gives the entity tag of the object, or the error.
pub complete_cases :
    {S : Type 0} (sdk : Sdk S) (session : PresignedMultipart) (c : CompletionManifest) (s : S)
    → ((numbers c.parts ≢ planned session.plan)
        × (complete sdk session c s
            ≡ finished
                (err (invalid_input "parts" "must include every planned part exactly once"))
                s))
      ⊎ ((numbers c.parts ≡ planned session.plan)
          × (((etag : Option Text) × (t : S) × (sdk.complete_multipart_upload
                    (completion_of session c.parts)
                    s
                  ≡ (ok etag, t))
                × (complete sdk session c s ≡ finished (ok (record { etag = etag })) t))
              ⊎ ((x : SdkError) × (t : S) × (sdk.complete_multipart_upload
                      (completion_of session c.parts)
                      s
                    ≡ (err x, t))
                  × (complete sdk session c s
                      ≡ finished (err (remote "CompleteMultipartUpload" x)) t))))
unfolding complete
complete_cases sdk session c s = elim (Result-cases (check_manifest session.plan c)) [
  | inr (e, refused) ↦ inl (
    λ same. absurd (err-ne-ok (sym refused ∙ (check_manifest_iff session.plan c).1 same)),
    rw (refused, check_manifest-err session.plan c refused),
  )
  | inl (_, passed) ↦ inr (
    (check_manifest_iff session.plan c).0 passed,
    elim (reply-cases (sdk.complete_multipart_upload (completion_of session c.parts) s)) [
      | inl (etag, t, sent) ↦ inl (etag, t, sent, rw (passed, sent))
      | inr (x, t, failed) ↦ inr (x, t, failed, rw (passed, failed))
    ],
  )
]

-- What a success of `complete` means.
pub complete-sent :
    {S : Type 0} (sdk : Sdk S) (session : PresignedMultipart) (c : CompletionManifest) (s u : S)
    {o : CompletedObject}
    → complete sdk session c s ≡ finished (ok o) u
    → (numbers c.parts ≡ planned session.plan)
      × (sdk.complete_multipart_upload (completion_of session c.parts) s ≡ (ok o.etag, u))
complete-sent {S} sdk session c s u h = elim (complete_cases sdk session c s) [
  | inl (_, refused) ↦ absurd (failed-ne-done (sym refused ∙ h))
  | inr (same, inr (x, t, _, refused)) ↦ absurd (failed-ne-done (sym refused ∙ h))
  | inr (same, inl (etag, t, sent, done)) ↦
      let ends = sym done ∙ h in
      (same, sent ∙ reply-eq (ap (λ o. o.etag) (finished-value ends)) (finished-state ends))
]
  where
    reply-eq :
        {a b : Option Text} {s t : S}
        → a ≡ b
        → s ≡ t
        → ◌≡◌ {A = Result (Option Text) SdkError × S} (ok a, s) (ok b, t)
    reply-eq e f = cc

-- If `complete_verified` succeeds, then R2's report misses no part and its parts, with their entity
-- tags, are those of the manifest; these have the planned numbers in order; and the result is that of
-- `complete` after the report.
pub complete_verified_lem :
    {S : Type 0} (sdk : Sdk S) (fuel : ℕ) (session : PresignedMultipart) (c : CompletionManifest)
    (s u : S) {o : CompletedObject}
    → complete_verified sdk fuel session c s ≡ finished (ok o) u
    → (r : MultipartReconciliation) × (t : S) × (reconcile sdk fuel session s ≡ finished (ok r) t)
      × (r.missing_parts ≡ [])
      × (r.uploaded_parts ≡ c.parts)
      × (numbers c.parts ≡ planned session.plan)
      × (complete sdk session c t ≡ finished (ok o) u)
unfolding complete_verified
complete_verified_lem sdk fuel session c s u h =
    let (r, t, reported, h₁) = bind-finished (reconcile sdk fuel session) _ s u h in
    elim (Result-cases (check_reconciled c r)) [
      | inl (_, passed) ↦
          let (all_there, same) = (check_reconciled_iff c r).0 passed in
          let done = rw passed at h₁ in
          (
            r,
            t,
            reported,
            all_there,
            same,
            (check_manifest_iff session.plan c).0 (complete-checked sdk session c t u done),
            done,
          )
      | inr (e, refused) ↦ absurd (failed-ne-done (rw refused at h₁))
    ]
