-- ===== src/Managed/Upload/Succeeds.antt =====
-- What a success of `ManagedMultipartBuilder::run` of src/managed.rs means.
use r2kit.Prelude.{
  ℕ, ◌≡◌, refl, ap, ◌∙◌, true, Option, none, some, Bool-cases, List, Text, ok, ok_or, Result-cases,
  inl, inr,
}
use r2kit.BTreeMap.{BTreeMap, into_values}
use r2kit.Error.{io}
use r2kit.Sdk.{Sdk, Outcome, finished, bind-finished, failed-ne-done}
use r2kit.Multipart.Plan.Tiling.{planned}
use r2kit.Multipart.Manifest.{UploadedPart, CompletionManifest, try_from_parts}
use r2kit.Multipart.Session.{PresignedMultipart}
use r2kit.Multipart.RemoteParts.Outcome.{numbers}
use r2kit.Multipart.Upload.{complete}
use r2kit.Multipart.Upload.Completes.{completion_of, complete-sent}
use r2kit.Managed.Builder.{ManagedMultipartBuilder}
use r2kit.Managed.Source.{Files, Metadata, SourceFileFingerprint, from_metadata, matches}
use r2kit.Managed.Source.Unchanged.{matches-eq}
use r2kit.Managed.Pipeline.{Job}
use r2kit.Managed.Work.{ManagedUploadResult, insert_all}
use r2kit.Managed.Upload.{run, upload_missing, finish_run, stat}

finished-injective :
    {S A : Type 0} {a b : A} {s t : S}
    → ◌≡◌ {A = Outcome S A} (finished (ok a) s) (finished (ok b) t)
    → (a ≡ b) × (s ≡ t)
finished-injective h = (cc, cc)

pub finished-eq :
    {S A : Type 0} {a b : A} {s t : S}
    → a ≡ b
    → s ≡ t
    → ◌≡◌ {A = Outcome S A} (finished (ok a) s) (finished (ok b) t)
finished-eq h k = cc

module _ {S : Type 0} (sdk : Sdk S) (files : Files S) (random : ℕ → ℕ → ℕ) where
  stat-finished :
      (path : Text) (s u : S) {m : Metadata}
      → stat sdk files random path s ≡ finished (ok m) u
      → (files.metadata path s ≡ some m) × (s ≡ u)
  stat-finished path s u {m} h = go (files.metadata path s) refl h
    where
      go :
          (o : Option Metadata)
          → files.metadata path s ≡ o
          → ◌≡◌ {A = Outcome S Metadata} (finished (ok_or o (io "metadata")) s) (finished (ok m) u)
          → (files.metadata path s ≡ some m) × (s ≡ u)
      go none e h = cc
      go (some n) e h = (cc, cc)

  finish_run-completes :
      (path : Text) (fingerprint : SourceFileFingerprint) (session : PresignedMultipart)
      (manifest : BTreeMap ℕ UploadedPart) (uploaded : List UploadedPart) (s u : S)
      {result : ManagedUploadResult}
      → finish_run sdk files random path fingerprint session (manifest, uploaded) s
        ≡ finished (ok result) u
      → (c : CompletionManifest) × (m : Metadata) × (files.metadata path s ≡ some m)
        × (matches fingerprint m ≡ true)
        × (try_from_parts (into_values (insert_all uploaded manifest)) ≡ ok c)
        × (complete sdk session c s ≡ finished (ok result.object) u)
  unfolding finish_run
  finish_run-completes path fingerprint session manifest uploaded s u {result} h =
      let (m, t, e, h₁) = bind-finished (stat sdk files random path) _ s u h in
      let (found, same) = stat-finished path s t e in
      elim (Bool-cases (matches fingerprint m)) [
        | inr changed ↦ absurd (failed-ne-done (rw changed at h₁))
        | inl unchanged ↦
            elim (Result-cases (try_from_parts (into_values (insert_all uploaded manifest)))) [
              | inr (x, refused) ↦ absurd (failed-ne-done (rw (unchanged, refused) at h₁))
              | inl (c, built) ↦
                  let (object, v, completed, h₂) =
                    bind-finished (complete sdk session c) _ t u (rw (unchanged, built) at h₁) in
                  let (same_result, same_state) = finished-injective h₂ in
                  (
                    c,
                    m,
                    found,
                    unchanged,
                    built,
                    ap (complete sdk session c) same
                        ∙ completed
                        ∙ finished-eq (ap (λ r. r.object) same_result) same_state,
                  )
            ]
      ]

  -- If `run` succeeds, then after the uploads the file has the length, the time of the last change, the
  -- device and the number that the fingerprint holds; R2 was then asked to complete the upload, with parts
  -- that have exactly the planned numbers in order, and answered with the entity tag of the result.
  pub run-completes :
      (fuel : ℕ) (schedule : List Job → List Job) (b : ManagedMultipartBuilder) (path : Text)
      (fingerprint : SourceFileFingerprint) (session : PresignedMultipart) (s u : S)
      {result : ManagedUploadResult}
      → run sdk files random fuel schedule b path fingerprint session s ≡ finished (ok result) u
      → (parts : List UploadedPart) × (m : Metadata) × (t : S) × (files.metadata path t ≡ some m)
        × (from_metadata m ≡ fingerprint)
        × (numbers parts ≡ planned session.plan)
        × (sdk.complete_multipart_upload (completion_of session parts) t
            ≡ (ok result.object.etag, u))
  unfolding run
  run-completes fuel schedule b path fingerprint session s u {result} h =
      let ((manifest, uploaded), t, e, h₁) =
        bind-finished (upload_missing sdk files random fuel schedule b path session) _ s u h in
      let (c, m, found, unchanged, built, completed) =
        finish_run-completes path fingerprint session manifest uploaded t u h₁ in
      let (exact, sent) = complete-sent sdk session c t u completed in
      (c.parts, m, t, found, matches-eq fingerprint m unchanged, exact, sent)
