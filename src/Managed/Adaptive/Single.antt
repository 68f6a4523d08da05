-- ===== src/Managed/Adaptive/Single.antt =====
-- src/managed.rs: what follows the one request of an adaptive upload, when it succeeds.
use r2kit.Prelude.{
  ℕ, ◌≡◌, ◌∙◌, inl, inr, sym, ap, subst, Bool, Option, none, some, Text, ok, Option-cases,
  Bool-cases,
}
use r2kit.Types.{ObjectKey}
use r2kit.Sdk.{
  Sdk, Outcome, finished, Remote, ◌>>=◌, bind-finished, failed-ne-done, finished-state,
  finished-value,
}
use r2kit.Object.Put.Sends.{PutObjectResult}
use r2kit.Managed.Builder.{UploadFileBuilder}
use r2kit.Managed.Source.Unchanged.{matches-eq}
use r2kit.Managed.Source.{Files, Metadata, from_metadata, matches}
use r2kit.Managed.Upload.{stat}
use r2kit.Managed.Adaptive.{
  text_or_empty, SinglePut, TransferResult, put_or_cancel, decide, finish_single,
}

module _ {S Body : Type 0} (sdk : Sdk S) (single : SinglePut S Body) (files : Files S)
    (random : ℕ → ℕ → ℕ) (interrupt : S → Option S) where
  -- What the second look at the file finds, and the result that it gives.
  pub record Looked (b : UploadFileBuilder) (m : Metadata) (put_res : PutObjectResult)
      (r : TransferResult) (t u : S) : Type 0 where
    pub last : Metadata
    pub seen : files.metadata b.path u ≡ some last
    pub unchanged : from_metadata last ≡ from_metadata m
    pub size : r.size ≡ m.len
    pub etag : r.etag ≡ text_or_empty put_res.etag
    pub stays : t ≡ u

  pub stat-ok :
      (path : Text) (s : S) {t : S} {m : Metadata}
      → stat sdk files random path s ≡ finished (ok m) t
      → (files.metadata path s ≡ some m) × (s ≡ t)
  stat-ok path s h = elim (Option-cases (files.metadata path s)) [
    | inl gone ↦ absurd (failed-ne-done (rw gone at h))
    | inr (m, seen) ↦ let h' = rw seen at h in (rw (← finished-value h') seen, finished-state h')
  ]

  decided :
      (b : UploadFileBuilder) (key : ObjectKey) (m : Metadata) (put_res : PutObjectResult)
      (size : ℕ) (t u : S) (last : Metadata) {r : TransferResult}
      → size ≡ m.len
      → files.metadata b.path t ≡ some last
      → ◌≡◌ {A = Outcome S TransferResult}
          (decide sdk single files random interrupt b key size (from_metadata m) put_res last t)
          (finished (ok r) u)
      → Looked b m put_res r t u
  unfolding decide
  decided b key m put_res size t u last {r} same seen h =
      elim (Bool-cases (matches (from_metadata m) last)) [
        | inr changed ↦ absurd (failed-ne-done (rw (decide, changed) at h))
        | inl unchanged ↦
            let h' = rw (decide, unchanged) at h in
            record {
              last = last;
              seen = rw (← finished-state h') seen;
              unchanged = matches-eq (from_metadata m) last unchanged;
              size = sym (ap (λ r. r.size) (finished-value h')) ∙ same;
              etag = sym (ap (λ r. r.etag) (finished-value h'));
              stays = finished-state h';
            }
      ]

  finish_single-ok :
      (b : UploadFileBuilder) (key : ObjectKey) (m : Metadata) (put_res : PutObjectResult)
      (size : ℕ) (t u : S) {r : TransferResult}
      → size ≡ m.len
      → finish_single sdk single files random interrupt b key size (from_metadata m) put_res t
        ≡ finished (ok r) u
      → Looked b m put_res r t u
  unfolding finish_single
  finish_single-ok b key m put_res size t u {r} same h =
      let (last, t', looked, h1) = bind-finished (stat sdk files random b.path) _ t u h in
      let (seen, same_state) = stat-ok b.path t looked in
      subst (λ x. Looked b m put_res r x u) (sym same_state)
        (decided b key m put_res size t' u last same
          (subst (λ x. files.metadata b.path x ≡ some last) same_state seen) h1)

  uncancelled :
      (cancellation : Option Bool) (put : Remote S PutObjectResult) (s t : S) {p : PutObjectResult}
      → put_or_cancel sdk single files random interrupt cancellation put s ≡ finished (ok p) t
      → put s ≡ finished (ok p) t
  unfolding put_or_cancel
  uncancelled none put s t h = h
  uncancelled (some signal) put s t h = elim (Option-cases (interrupt s)) [
    | inl goes_on ↦ rw (put_or_cancel, goes_on) at h
    | inr (v, wins) ↦ absurd (failed-ne-done (rw (put_or_cancel, wins) at h))
  ]

  pub put_once :
      (b : UploadFileBuilder) (put : Remote S PutObjectResult) (key : ObjectKey) (m : Metadata)
      (size : ℕ) (s u : S) {r : TransferResult}
      → size ≡ m.len
      → (put_or_cancel sdk single files random interrupt b.cancellation put
            >>= finish_single sdk single files random interrupt b key size (from_metadata m))
          s
        ≡ finished (ok r) u
      → (put_res : PutObjectResult) × (t : S) × (put s ≡ finished (ok put_res) t)
        × Looked b m put_res r t u
  put_once b put key m size s u same h =
      let (put_res, t, was_put, h') =
        bind-finished (put_or_cancel sdk single files random interrupt b.cancellation put) _ s u
          h in
      (
        put_res,
        t,
        uncancelled b.cancellation put s t was_put,
        finish_single-ok b key m put_res size t u same h',
      )
