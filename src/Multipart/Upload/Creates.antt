-- ===== src/Multipart/Upload/Creates.antt =====
-- What `create` of src/multipart.rs returns, and that the session can be saved and resumed.
use r2kit.Prelude.{
  ℕ, ◌≡◌, ◌≢◌, ◌≤◌, ap, sym, ◌∙◌, Option, none, some, [], length, Result, ok, err, ok_or, ◌>>◌,
  >>=-eq-ok, text_eq_refl, Result-cases, inl, inr,
}
use r2kit.Error.{Error, service, remote}
use r2kit.Types.{max_key_bytes}
use r2kit.Types.Names.{IsBucketName}
use r2kit.Sdk.{Sdk, send, Outcome, finished, bind-finished, failed-ne-done}
use r2kit.Object.Options.{Codecs, validate}
use r2kit.Multipart.Plan.{MultipartPlan, new_plan}
use r2kit.Multipart.Plan.Bounds.{Plannable, new_plan-Plannable_inv}
use r2kit.Multipart.Session.{
  PresignedMultipart, snapshot, resume_presigned_multipart, from_persistence_record,
  into_persistence_record,
}
use r2kit.Multipart.Session.Persistence.{from_persistence_record-into_persistence_record}
use r2kit.Multipart.Checks.{PresignedMultipartBuilder, create_request, plan_upload}
use r2kit.Multipart.Upload.{create}

ok_or-ok : {A : Type 0} (o : Option A) (e : Error) {a : A} → ok_or o e ≡ ok a → o ≡ some a
ok_or-ok none e h = cc
ok_or-ok (some b) e h = cc

after_guards :
    {A : Type 0} (r₁ r₂ r₃ : Result (Unit {0}) Error) {a b : A}
    → (r₁ >> (r₂ >> (r₃ >> ok a))) ≡ ok b
    → a ≡ b
after_guards (ok x) (ok y) (ok z) h = cc
after_guards (ok x) (ok y) (err z) h = cc
after_guards (ok x) (err y) r₃ h = cc
after_guards (err x) r₂ r₃ h = cc

-- The sizes that the builder was given are those of the plan.
pub plan_upload-ok :
    (codecs : Codecs) (b : PresignedMultipartBuilder) {plan : MultipartPlan}
    → plan_upload codecs b ≡ ok plan
    → (f p : ℕ) × (b.file_size ≡ some f) × (b.part_size ≡ some p) × (new_plan f p ≡ ok plan)
unfolding plan_upload
plan_upload-ok codecs b h =
    let (_, e₀, h₀) = >>=-eq-ok (validate codecs b.options) _ h in
    let (f, e₁, h₁) = >>=-eq-ok (ok_or b.file_size _) _ h₀ in
    let (p, e₂, h₂) = >>=-eq-ok (ok_or b.part_size _) _ h₁ in
    let (q, e₃, h₃) = >>=-eq-ok (new_plan f p) _ h₂ in
    let kept = after_guards (validate codecs b.options) _ _ h₃ in
    (f, p, ok_or-ok _ _ e₁, ok_or-ok _ _ e₂, e₃ ∙ ap ok kept)

pub created :
    {S : Type 0} (sdk : Sdk S) (codecs : Codecs) (b : PresignedMultipartBuilder) (s u : S)
    {session : PresignedMultipart}
    → create sdk codecs b s ≡ finished (ok session) u
    → (plan_upload codecs b ≡ ok session.plan) × (session.bucket ≡ b.bucket) × (session.key ≡ b.key)
unfolding create
created sdk codecs b s u {session} h = elim (Result-cases (plan_upload codecs b)) [
  | inr (e, refused) ↦ absurd (failed-ne-done (rw refused at h))
  | inl (plan, planned) ↦
      let (output, t, sent, h₁) =
        bind-finished
          (send (sdk.create_multipart_upload (create_request b)) (remote "CreateMultipartUpload")) _
          s u (rw planned at h) in
      elim (Result-cases (ok_or output (service "CreateMultipartUpload"))) [
        | inr (e, refused) ↦ absurd (failed-ne-done (rw refused at h₁))
        | inl (upload_id, found) ↦
            let same = session-eq (rw found at h₁) in
            (
              planned ∙ ap (λ x. ok x.plan) same,
              sym (ap (λ x. x.bucket) same),
              sym (ap (λ x. x.key) same),
            )
      ]
]
  where
    session-eq :
        {S : Type 0} {x y : PresignedMultipart} {t v : S}
        → ◌≡◌ {A = Outcome S PresignedMultipart} (finished (ok x) t) (finished (ok y) v)
        → x ≡ y
    session-eq h = cc

-- If `create` succeeds for a builder whose bucket name and key are valid, and R2's upload id is not
-- empty, then the session is planned within R2's limits for the sizes that the builder was given; the
-- session's snapshot survives a save as a persistence record; and resuming the snapshot gives back the
-- session.
pub create-resumes :
    {S : Type 0} (sdk : Sdk S) (codecs : Codecs) (b : PresignedMultipartBuilder) (s u : S)
    {session : PresignedMultipart}
    → IsBucketName b.bucket.name.text
    → 1 ≤ length b.key
    → length b.key ≤ max_key_bytes
    → create sdk codecs b s ≡ finished (ok session) u
    → session.upload_id ≢ []
    → (b.file_size ≡ some session.plan.file_size)
      × (b.part_size ≡ some session.plan.part_size)
      × Plannable session.plan.file_size session.plan.part_size
      × (from_persistence_record (into_persistence_record (snapshot session))
          ≡ ok (snapshot session))
      × (resume_presigned_multipart b.bucket (snapshot session) ≡ ok session)
unfolding resume_presigned_multipart snapshot
create-resumes sdk codecs b s u {session} good_name long short h has_id =
    let (planned, same_bucket, same_key) = created sdk codecs b s u h in
    let (f, p, ef, ep, made) = plan_upload-ok codecs b planned in
    let (allowed, is_plan) = new_plan-Plannable_inv f p made in
    let same_f : f ≡ session.plan.file_size = sym (ap (λ x. x.file_size) is_plan) in
    let same_p : p ≡ session.plan.part_size = sym (ap (λ x. x.part_size) is_plan) in
    let good : Plannable session.plan.file_size session.plan.part_size =
      rw (same_f, same_p) at allowed in
    let again : new_plan session.plan.file_size session.plan.part_size ≡ ok session.plan =
      rw (same_f, same_p) at made in
    (
      ef ∙ ap some same_f,
      ep ∙ ap some same_p,
      good,
      from_persistence_record-into_persistence_record (snapshot session) (record {
        bucket_name = rw same_bucket good_name;
        key_bytes = rw same_key long;
        key_short = rw same_key short;
        has_upload_id = has_id;
        planned = good;
      }),
      rw (same_bucket, text_eq_refl b.bucket.name.text, again),
    )
