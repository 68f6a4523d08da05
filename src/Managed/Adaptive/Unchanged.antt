-- ===== src/Managed/Adaptive/Unchanged.antt =====
-- src/managed.rs: an adaptive upload that succeeds with one request put the file as it was.
use r2kit.Prelude.{
  ℕ, ◌≡◌, ◌≢◌, ◌<◌, ◌⊎◌, ◌∙◌, inl, inr, refl, sym, ap, subst, arith, Bool, true, false, not, Option,
  none, some, List, [], Text, Result, ok, err, reject, Option-cases, Bool-cases, ltb, ltb→lt, ◌==◌,
  ok-injective, >>=-eq-ok,
}
use r2kit.Error.{Error, invalid_input, cancelled}
use r2kit.Types.{ObjectKey}
use r2kit.Sdk.{
  Sdk, Outcome, finished, lift, bind-finished, failed-ne-done, finished-state, finished-value,
}
use r2kit.Object.Options.{Codecs}
use r2kit.Object.Put.Sends.{PutObjectResult}
use r2kit.Managed.Builder.{
  UploadFileBuilder, Strategy, put_empty, put_single, multipart, ManagedMultipartBuilder,
  strategy_for, validate_upload_file, managed_multipart,
}
use r2kit.Object.Put.{PutObjectRequest}
use r2kit.Object.Put.Single.{IsPutRequest}
use r2kit.Object.Put.Sent.{Sent, put_stream-Sent, put_bytes-Sent}
use r2kit.Managed.Source.{Files, Metadata, from_metadata}
use r2kit.Managed.Pipeline.{Job}
use r2kit.Managed.Work.{ManagedUploadResult, ManagedUploadError}
use r2kit.Managed.Upload.{stat, is_cancelled, upload_file}
use r2kit.Managed.Adaptive.{
  text_or_empty, SinglePut, TransferResult, single_put, in_parts, of_managed, transfer, send_upload,
}
use r2kit.Managed.Adaptive.Single.{Looked, stat-ok, put_once}

in_parts-ne-single : {n : ℕ} → in_parts n ≢ single_put
in_parts-ne-single h = cc

-- A step off the network that succeeds.
lift-value :
    {S A : Type 0} {r : Result A Error} {s t : S} {a : A}
    → ◌≡◌ {A = Outcome S A} (lift r s) (finished (ok a) t)
    → r ≡ ok a
lift-value h = cc

of_managed-strategy :
    {S : Type 0} (key : ObjectKey)
    (run : Option (Result ManagedUploadResult ManagedUploadError × S)) (u : S) {r : TransferResult}
    → of_managed key run ≡ finished (ok r) u
    → r.strategy ≢ single_put
of_managed-strategy key none u h once = cc
of_managed-strategy key (some (err e, s)) u h once = cc
of_managed-strategy key (some (ok done, s)) u h once =
    in_parts-ne-single (ap (λ r. r.strategy) (finished-value h) ∙ once)

regular_file : (b : Bool) (e : Error) → reject (not b) e ≡ ok tt → b ≡ true
regular_file true e h = refl
regular_file false e h = cc

module _ {S Body : Type 0} (sdk : Sdk S) (single : SinglePut S Body) (files : Files S)
    (random : ℕ → ℕ → ℕ) (interrupt : S → Option S) where
  -- A request with the bytes of the file was answered, and the file was then as before.
  pub record Kept (b : UploadFileBuilder) (m : Metadata) (r : TransferResult) (s u : S)
      : Type 0 where
    pub request : PutObjectRequest
    pub body : Body
    pub answer : Option Text
    pub sent : single.put_object request body s ≡ (ok answer, u)
    pub bucket : request.bucket ≡ b.bucket.name.text
    pub key : b.key ≡ ok (record { text = request.key })
    pub content_length : request.content_length ≡ m.len
    pub contents :
        ((m.len ≡ 0) × (body ≡ single.bytes_body []))
        ⊎ (single.file_body b.path m.len s ≡ some body)
    pub etag : r.etag ≡ text_or_empty answer
    pub size : r.size ≡ m.len
    pub last : Metadata
    pub seen : files.metadata b.path u ≡ some last
    pub unchanged : from_metadata last ≡ from_metadata m

  strategy_for-sizes :
      (b : UploadFileBuilder) (key : ObjectKey) (n : ℕ) {strategy : Strategy}
      → strategy_for b key n ≡ ok strategy
      → ((strategy ≡ put_empty) × (n ≡ 0))
        ⊎ ((strategy ≡ put_single) × (0 < n) × (n < b.threshold.bytes))
        ⊎ ((mp : _) × (strategy ≡ multipart mp))
  unfolding strategy_for managed_multipart
  strategy_for-sizes b key n h = elim (Bool-cases (n == 0)) [
    | inl zero ↦ inl (sym (ok-injective (rw (strategy_for, zero) at h)), ground arith)
    | inr nonzero ↦ elim (Bool-cases (ltb n b.threshold.bytes)) [
      | inl small ↦ inr (
          inl (
            sym (ok-injective (rw (strategy_for, nonzero, small) at h)),
            ground arith,
            ltb→lt n b.threshold.bytes small,
          ))
      | inr large ↦
          let (mp, made, rest) =
            >>=-eq-ok (managed_multipart b.bucket key.text) _
              (rw (strategy_for, nonzero, large) at h) in
          inr (inr (_, sym (ok-injective rest)))
    ]
  ]

  kept :
      (b : UploadFileBuilder) (key : ObjectKey) (m : Metadata) (put_res : PutObjectResult)
      (body : Body) (s t u : S) {r : TransferResult}
      → b.key ≡ ok key
      → ((m.len ≡ 0) × (body ≡ single.bytes_body []))
        ⊎ (single.file_body b.path m.len s ≡ some body)
      → Sent single.put_object b.bucket key.text m.len body put_res s t
      → Looked sdk single files random interrupt b m put_res r t u
      → Kept b m r s u
  kept b key m put_res body s t u has_key contents sent looked = record {
    request = sent.request;
    body = body;
    answer = put_res.etag;
    sent = rw (← looked.stays) sent.answered;
    bucket = sent.carries.bucket;
    key = has_key ∙ ap (λ text. ok (record { text = text })) (sym sent.carries.key);
    content_length = sent.carries.content_length;
    contents = contents;
    etag = looked.etag;
    size = looked.size;
    last = looked.last;
    seen = looked.seen;
    unchanged = looked.unchanged;
  }

  module _ (fuel : ℕ) (schedule : List Job → List Job) (codecs : Codecs) (b : UploadFileBuilder)
      (key : ObjectKey) (m : Metadata) where
    put_empty-Kept :
        (s u : S) {r : TransferResult}
        → b.key ≡ ok key
        → m.len ≡ 0
        → transfer sdk single files random interrupt fuel schedule codecs b key m put_empty s
          ≡ finished (ok r) u
        → Kept b m r s u
    unfolding transfer
    put_empty-Kept s u has_key empty h =
        let (put_res, t, was_put, looked) =
          put_once sdk single files random interrupt b _ key m 0 s u (sym empty) h in
        let sent =
          put_bytes-Sent codecs
            (λ request bytes. single.put_object request (single.bytes_body bytes))
            single.compute_checksum b.bucket key.text [] b.options s t was_put in
        kept b key m put_res (single.bytes_body []) s t u has_key (inl (empty, refl))
          (record {
            options = sent.options;
            request = sent.request;
            carries =
                subst (λ n. IsPutRequest b.bucket key.text n sent.options sent.request) (sym empty)
                  sent.carries;
            answered = sent.answered;
          })
          looked

    put_single-Kept :
        (s u : S) {r : TransferResult}
        → b.key ≡ ok key
        → transfer sdk single files random interrupt fuel schedule codecs b key m put_single s
          ≡ finished (ok r) u
        → Kept b m r s u
    unfolding transfer
    put_single-Kept s u has_key h = elim (Option-cases (single.file_body b.path m.len s)) [
      | inl gone ↦ absurd (failed-ne-done (rw (transfer, gone) at h))
      | inr (body, opened) ↦
          let (put_res, t, was_put, looked) =
            put_once sdk single files random interrupt b _ key m m.len s u refl
              (rw (transfer, opened) at h) in
          kept b key m put_res body s t u has_key (inr opened)
            (put_stream-Sent codecs single.put_object b.bucket key.text body m.len b.options s t
              was_put)
            looked
    ]

    multipart-ne-single :
        (mp : ManagedMultipartBuilder) (s u : S) {r : TransferResult}
        → transfer sdk single files random interrupt fuel schedule codecs b key m (multipart mp) s
          ≡ finished (ok r) u
        → r.strategy ≢ single_put
    unfolding transfer
    multipart-ne-single mp s u h once =
        of_managed-strategy key
          (upload_file sdk files random fuel schedule interrupt codecs mp b.path s) u h once

  -- An adaptive upload that succeeds with one request, of a regular file that is empty or below the
  -- threshold, has sent to the bucket and key of the builder a request with the length and the contents of
  -- the file, and gives the entity tag of the answer. After the request the file had the length, the time
  -- of the last change, the device and the number that it had before, and its size is the one reported.
  pub send_upload-unchanged :
      (fuel : ℕ) (schedule : List Job → List Job) (codecs : Codecs) (b : UploadFileBuilder)
      (s u : S) {r : TransferResult}
      → r.strategy ≡ single_put
      → send_upload sdk single files random interrupt fuel schedule codecs b s ≡ finished (ok r) u
      → (m : Metadata) × (files.metadata b.path s ≡ some m)
        × (m.is_file ≡ true)
        × ((m.len ≡ 0) ⊎ (m.len < b.threshold.bytes))
        × Kept b m r s u
  unfolding send_upload
  send_upload-unchanged fuel schedule codecs b s u {r} once h =
      let (_, s1, valid, h1) = bind-finished (lift (validate_upload_file codecs b)) _ s u h in
      let (key, s2, has_key, h2) = bind-finished (lift b.key) _ s1 u h1 in
      let (_, s3, live, h3) =
        bind-finished (lift (reject (is_cancelled sdk files random b.cancellation) cancelled)) _ s2
          u h2 in
      let (m, s4, seen, h4) = bind-finished (stat sdk files random b.path) _ s3 u h3 in
      let (_, s5, regular, h5) =
        bind-finished
          (lift (reject (not m.is_file) (invalid_input "path" "must identify a regular file"))) _ s4
          u h4 in
      let (strategy, s6, chosen, h6) = bind-finished (lift (strategy_for b key m.len)) _ s5 u h5 in
      let same = finished-state valid ∙ finished-state has_key ∙ finished-state live in
      let (found, looked) = stat-ok sdk single files random interrupt b.path s3 seen in
      let is_key = lift-value has_key in
      let unmoved = same ∙ looked ∙ finished-state regular ∙ finished-state chosen in
      let at_begin : Kept b m r s6 u → Kept b m r s u = subst (λ x. Kept b m r x u) (sym unmoved) in
      let at_start = subst (λ x. files.metadata b.path x ≡ some m) (sym same) found in
      let is_regular = regular_file m.is_file _ (lift-value regular) in
      elim (strategy_for-sizes b key m.len (lift-value chosen)) [
        | inl (e, empty) ↦ (
          m,
          at_start,
          is_regular,
          inl empty,
          at_begin (put_empty-Kept fuel schedule codecs b key m s6 u is_key empty (rw e at h6)),
        )
        | inr (inl (e, _, small)) ↦ (
          m,
          at_start,
          is_regular,
          inr small,
          at_begin (put_single-Kept fuel schedule codecs b key m s6 u is_key (rw e at h6)),
        )
        | inr (inr (mp, e)) ↦
            absurd (multipart-ne-single fuel schedule codecs b key m mp s6 u (rw e at h6) once)
      ]
