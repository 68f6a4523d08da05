-- ===== src/Managed/Upload/Ends.antt =====
-- How `upload_file` of src/managed.rs leaves the upload on R2 when it fails.
use r2kit.Prelude.{
  ℕ, ◌≡◌, refl, ap, sym, ◌∙◌, Bool-cases, true, false, Option, none, some, ok, err, ◌⊎◌, inl, inr,
}
use r2kit.Error.{Error}
use r2kit.Sdk.{Sdk, Outcome, finished, unfinished}
use r2kit.Multipart.Session.{PresignedMultipart, snapshot}
use r2kit.Multipart.Upload.{abort}
use r2kit.Managed.Builder.{ManagedMultipartBuilder}
use r2kit.Managed.Source.{Files}
use r2kit.Managed.Work.{ManagedUploadResult, ManagedUploadError}
use r2kit.Managed.Upload.{after_abort, after_start_error, failed, settle}

some-injective : {A : Type 0} {a b : A} → some a ≡ some b → a ≡ b
some-injective h = cc

module _ {S : Type 0} (sdk : Sdk S) (files : Files S) (random : ℕ → ℕ → ℕ) where
  -- The upload of a session is aborted on R2, or its snapshot is in the error.
  abbrev pub Recoverable :
      ManagedMultipartBuilder → PresignedMultipart → ManagedUploadError → S → Type 0
  Recoverable b session e u =
      ((b.abort_on_error ≡ true)
        × (e.aborted ≡ true)
        × (e.snapshot ≡ none)
        × ((s : S) × (abort sdk session s ≡ finished (ok tt) u)))
      ⊎ ((e.aborted ≡ false) × (e.snapshot ≡ some (snapshot session)))

  after_start_error-Recoverable :
      (b : ManagedMultipartBuilder) (error : Error) (session : PresignedMultipart) (s u : S)
      {e : ManagedUploadError}
      → after_start_error sdk files random b error session s ≡ some (e, u)
      → Recoverable b session e u
  unfolding after_start_error
  after_start_error-Recoverable b error session s u {e} h = elim (Bool-cases b.abort_on_error) [
    | inl asked ↦ aborting asked (abort sdk session s) refl (rw asked at h)
    | inr kept ↦
        let same = some-injective (rw kept at h) in
        inr (ap (λ x. x.0.aborted) (sym same), ap (λ x. x.0.snapshot) (sym same))
  ]
    where
      aborting :
          b.abort_on_error ≡ true
          → (o : Outcome S (Unit {0})) → abort sdk session s ≡ o
          → after_abort sdk files random error session o ≡ some (e, u)
          → Recoverable b session e u
      aborting asked (finished (ok done) t) eq h =
          let same = some-injective h in
          inl (
            asked,
            ap (λ x. x.0.aborted) (sym same),
            ap (λ x. x.0.snapshot) (sym same),
            (s, eq ∙ ap (λ x. finished (ok tt) x.1) same),
          )
      aborting asked (finished (err x) t) eq h =
          let same = some-injective h in
          inr (ap (λ x. x.0.aborted) (sym same), ap (λ x. x.0.snapshot) (sym same))
      aborting asked unfinished eq h = cc

  unfailed :
      (r : Option (ManagedUploadError × S)) {e : ManagedUploadError} {u : S}
      → failed sdk files random r ≡ some (err e, u)
      → r ≡ some (e, u)
  unfailed none h = cc
  unfailed (some (e, s)) h = cc

  pub settle-Recoverable :
      (b : ManagedMultipartBuilder) (session : PresignedMultipart)
      (o : Outcome S ManagedUploadResult) (u : S) (e : ManagedUploadError)
      → settle sdk files random b session o ≡ some (err e, u)
      → Recoverable b session e u
  settle-Recoverable b session (finished (ok result) t) u e h = absurd (cc)
  settle-Recoverable b session (finished (err error) t) u e h =
      after_start_error-Recoverable b error session t u (unfailed _ h)
  settle-Recoverable b session unfinished u e h = cc
