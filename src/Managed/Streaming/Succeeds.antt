-- ===== src/Managed/Streaming/Succeeds.antt =====
-- What a success of `upload_stream` of src/managed.rs means.
use mathlib.Core.List.{Perm, Subset}
use r2kit.Prelude.{
  some-injective, reject, ℕ, ◌≤◌, ◌<◌, ◌≡◌, refl, ap, sym, ◌∙◌, Option, none, some, List, length,
  take, Result, ok, err, Result-cases, inl, inr,
}
use r2kit.BTreeMap.{nil, into_values}
use r2kit.Error.{Error, cancelled}
use r2kit.Sdk.{
  Sdk, Outcome, finished, unfinished, bind-finished, failed-ne-done, finished-state, finished-value,
  lift, Remote, ◌>>=◌, ◌>>◌,
}
use r2kit.Types.{new_object_key}
use r2kit.Object.Options.{Codecs}
use r2kit.Multipart.Plan.Bounds.{IsPlan, new_plan-IsPlan}
use r2kit.Multipart.Plan.Tiling.{planned}
use r2kit.Multipart.Manifest.{UploadedPart, try_from_parts}
use r2kit.Multipart.Session.{PresignedMultipart}
use r2kit.Multipart.RemoteParts.Outcome.{numbers}
use r2kit.Multipart.Upload.{create, complete}
use r2kit.Multipart.Upload.Completes.{completion_of, complete-sent}
use r2kit.Multipart.Upload.Creates.{created, plan_upload-ok}
use r2kit.Managed.Builder.{ManagedMultipartBuilder, validate_managed}
use r2kit.Managed.Builder.Limits.{attempts_in_range}
use r2kit.Managed.Work.Collected.{collected-Mem}
use r2kit.Managed.Streaming.Uploads.{Uploaded, upload_chunks-Uploaded}
use r2kit.Managed.Source.{Files}
use r2kit.Managed.Work.{ManagedUploadResult, ManagedUploadError, insert_all}
use r2kit.Managed.Upload.{settle, failed, is_cancelled, interrupted, after_start_error}
use r2kit.Managed.Upload.Succeeds.{finished-eq}
use r2kit.Managed.Streaming.{
  session_builder, reject_resume, Reader, Chunk, Sent, upload_chunks, complete_stream,
  finish_stream, run_stream, start_stream, stream_or_cancel, upload_stream,
}
use r2kit.Managed.Streaming.Reads.{Supplies, chunk_numbers, chunk_bytes, IsSent, read_chunks_lem}

stuck_ne_done : {A : Type 0} {a : A} → ◌≡◌ {A = Option A} none (some a) → ⊥
stuck_ne_done h = cc

refused_ne_done :
    {S A E : Type 0} {e : E} {a : A} {s t : S}
    → ◌≡◌ {A = Option (Result A E × S)} (some (err e, s)) (some (ok a, t))
    → ⊥
refused_ne_done h = cc

guarded :
    {S A : Type 0} (r : Result (Unit {0}) Error) (m : Remote S A) (s t : S) {a : A}
    → (lift r >> m) s ≡ finished (ok a) t
    → (r ≡ ok tt) × (m s ≡ finished (ok a) t)
guarded (ok x) m s t h = (refl, h)
guarded (err e) m s t h = cc

-- The bytes were sent in the planned parts, and R2 completed the upload with them.
pub record Completed {S : Type 0} (sdk : Sdk S) (limit : ℕ) (bytes : List ℕ)
    (session : PresignedMultipart) (result : ManagedUploadResult) (t u : S) : Type 0 where
  pub chunks : List Chunk
  pub sent : List Chunk
  pub parts : List UploadedPart
  pub listed : List UploadedPart
  pub before : S
  pub enough : session.plan.file_size ≤ length bytes
  pub in_order : chunk_numbers chunks ≡ planned session.plan
  pub all_bytes : chunk_bytes chunks ≡ take session.plan.file_size bytes
  pub reordered : Perm sent chunks
  pub uploaded : Uploaded sdk limit session sent t parts before
  pub collected : Subset listed parts
  pub exact : numbers listed ≡ planned session.plan
  pub completed :
      sdk.complete_multipart_upload (completion_of session listed) before
      ≡ (ok result.object.etag, u)

module _ {S R : Type 0} (sdk : Sdk S) (files : Files S) (random : ℕ → ℕ → ℕ)
    (reader : Reader R) where
  finish_stream-completes :
      (schedule : List Chunk → List Chunk) (b : ManagedMultipartBuilder)
      (session : PresignedMultipart) (sent : Sent) (bytes : List ℕ) (s u : S)
      {result : ManagedUploadResult}
      → ((chunks : List Chunk) → Perm (schedule chunks) chunks)
      → 1 ≤ b.max_attempts
      → b.max_attempts < 256
      → IsSent session.plan.file_size (planned session.plan) bytes sent
      → finish_stream sdk files random reader schedule b session (some sent) s
        ≡ finished (ok result) u
      → Completed sdk b.max_attempts bytes session result s u
  unfolding finish_stream complete_stream
  finish_stream-completes schedule b session (chunks, read) bytes s u {result} reorders some_attempt
        few is_sent h =
      let (parts, t, uploaded, h₁) =
        bind-finished
          (upload_chunks sdk files random reader b.max_attempts session (schedule chunks)) _ s u
          h in
      elim is_sent [
        | inr (short, result) ↦ absurd (failed-ne-done (rw result at h₁))
        | inl (enough, read_all, in_order, all_bytes) ↦
            elim (Result-cases (try_from_parts (into_values (insert_all parts nil)))) [
              | inr (e, refused) ↦ absurd (failed-ne-done (rw (read_all, refused) at h₁))
              | inl (c, collected) ↦
                  let (object, v, done, h₂) =
                    bind-finished (complete sdk session c) _ t u (rw (read_all, collected) at h₁) in
                  let at_end : complete sdk session c t ≡ finished (ok result.object) u =
                    done
                    ∙ finished-eq (ap (λ x. x.object) (finished-value h₂)) (finished-state h₂) in
                  let (exact, completed) = complete-sent sdk session c t u at_end in
                  record {
                    chunks = chunks;
                    sent = schedule chunks;
                    parts = parts;
                    listed = c.parts;
                    before = t;
                    enough = enough;
                    in_order = in_order;
                    all_bytes = all_bytes;
                    reordered = reorders chunks;
                    uploaded =
                        upload_chunks-Uploaded sdk files random reader b.max_attempts session
                          (schedule chunks) s t some_attempt few uploaded;
                    collected = λ q. collected-Mem parts collected q;
                    exact = exact;
                    completed = completed;
                  }
            ]
      ]

  run_stream-completes :
      (content : R → List ℕ) (schedule : List Chunk → List Chunk) (b : ManagedMultipartBuilder)
      (session : PresignedMultipart) (r : R) (s u : S) {result : ManagedUploadResult}
      → ((chunks : List Chunk) → Perm (schedule chunks) chunks)
      → 1 ≤ b.max_attempts
      → b.max_attempts < 256
      → IsPlan session.plan
      → Supplies reader content
      → run_stream sdk files random reader schedule b session r s ≡ finished (ok result) u
      → Completed sdk b.max_attempts (content r) session result s u
  unfolding run_stream
  run_stream-completes content schedule b session r s u reorders some_attempt few v supplies h =
      let (sent, read, is_sent) = read_chunks_lem reader content session.plan r v supplies in
      finish_stream-completes schedule b session sent (content r) s u reorders some_attempt few
        is_sent (rw read at h)

  settled :
      (b : ManagedMultipartBuilder) (session : PresignedMultipart)
      (o : Outcome S ManagedUploadResult) (u : S) {result : ManagedUploadResult}
      → settle sdk files random b session o ≡ some (ok result, u)
      → o ≡ finished (ok result) u
  settled b session (finished (ok result) t) u h = cc
  settled b session (finished (err error) t) u h =
      absurd (not_failed (after_start_error sdk files random b error session t) h)
    where
      not_failed :
          (o : Option (ManagedUploadError × S)) {result : ManagedUploadResult}
          → failed sdk files random o ≡ some (ok result, u)
          → ⊥
      not_failed none h = cc
      not_failed (some x) h = cc
  settled b session unfinished u h = cc

  uninterrupted :
      (schedule : List Chunk → List Chunk) (interrupt : S → Option S) (b : ManagedMultipartBuilder)
      (session : PresignedMultipart) (r : R) (s u : S) {result : ManagedUploadResult}
      → stream_or_cancel sdk files random reader schedule interrupt b session r s
        ≡ finished (ok result) u
      → run_stream sdk files random reader schedule b session r s ≡ finished (ok result) u
  uninterrupted schedule interrupt b session r s u {result} h =
      go (interrupted sdk files random b interrupt s) refl
    where
      go :
          (o : Option S)
          → interrupted sdk files random b interrupt s ≡ o
          → run_stream sdk files random reader schedule b session r s ≡ finished (ok result) u
      go none e = rw (e, stream_or_cancel) at h
      go (some t) e = absurd (failed-ne-done (rw (e, stream_or_cancel) at h))

  -- The session of a stream is planned for the sizes that the caller gave, by a builder that passed the
  -- checks.
  pub start_stream-planned :
      (codecs : Codecs) (b : ManagedMultipartBuilder) (file_size : ℕ) (s t : S)
      {session : PresignedMultipart}
      → start_stream sdk files random reader codecs b file_size s ≡ finished (ok session) t
      → IsPlan session.plan
        × (session.plan.file_size ≡ file_size)
        × (session.plan.part_size ≡ b.part_size)
        × (validate_managed codecs b ≡ ok tt)
  unfolding start_stream
  start_stream-planned codecs b file_size s t h =
      let (passed, h₁) = guarded (validate_managed codecs b) _ s t h in
      let (_, h₂) =
        guarded (reject (is_cancelled sdk files random b.cancellation) cancelled) _ s t h₁ in
      let (_, h₃) =
        guarded (reject_resume b)
          (lift (new_object_key b.key) >>= λ key.
            create sdk codecs (session_builder b key file_size))
          s t h₂ in
      let (key, s', _, h₄) =
        bind-finished (lift (new_object_key b.key))
          (λ key. create sdk codecs (session_builder b key file_size)) s t h₃ in
      let builder = session_builder b key file_size in
      let (plan_made, _, _) = created sdk codecs builder s' t h₄ in
      let (f, p, same_f, same_p, made) = plan_upload-ok codecs builder plan_made in
      let (v, has_f, has_p) = new_plan-IsPlan f p made in
      (v, has_f ∙ sym (some-injective same_f), has_p ∙ sym (some-injective same_p), passed)

  -- If `upload_stream` succeeds, and its uploads end in some order of the parts, then its session is
  -- planned for the sizes that it was given; the reader held at least as many bytes; each planned part was
  -- sent, in at most `max_attempts` calls of which the last was answered, and the bytes that were sent, in
  -- the order of the part numbers, are those of the reader; and R2 was asked to complete the upload with
  -- exactly the planned parts in order, each with an entity tag that an upload was answered with, and
  -- answered with the entity tag of the result.
  pub upload_stream-completes :
      (content : R → List ℕ) (schedule : List Chunk → List Chunk) (interrupt : S → Option S)
      (codecs : Codecs) (b : ManagedMultipartBuilder) (r : R) (file_size : ℕ) (s u : S)
      {result : ManagedUploadResult}
      → ((chunks : List Chunk) → Perm (schedule chunks) chunks)
      → Supplies reader content
      → upload_stream sdk files random reader schedule interrupt codecs b r file_size s
        ≡ some (ok result, u)
      → (session : PresignedMultipart) × (t : S) × (start_stream sdk files random reader codecs b
            file_size s
          ≡ finished (ok session) t)
        × (session.plan.file_size ≡ file_size)
        × (session.plan.part_size ≡ b.part_size)
        × Completed sdk b.max_attempts (content r) session result t u
  unfolding upload_stream
  upload_stream-completes content schedule interrupt codecs b r file_size s u {result} reorders
        supplies h =
      go (start_stream sdk files random reader codecs b file_size s) refl
    where
      go :
          (o : Outcome S PresignedMultipart)
          → start_stream sdk files random reader codecs b file_size s ≡ o
          → (session : PresignedMultipart) × (t : S) × (start_stream sdk files random reader codecs
                b file_size s
              ≡ finished (ok session) t)
            × (session.plan.file_size ≡ file_size)
            × (session.plan.part_size ≡ b.part_size)
            × Completed sdk b.max_attempts (content r) session result t u
      go (finished (ok session) t) e =
          let (v, same_f, same_p, passed) = start_stream-planned codecs b file_size s t e in
          let (some_attempt, few) = attempts_in_range codecs b passed in
          let ran =
            uninterrupted schedule interrupt b session r t u
              (settled b session _ u (rw (e, upload_stream) at h)) in
          (
            session,
            t,
            e,
            same_f,
            same_p,
            run_stream-completes content schedule b session r t u reorders some_attempt few v
                supplies ran,
          )
      go (finished (err error) t) e = absurd (refused_ne_done (rw (e, upload_stream) at h))
      go unfinished e = absurd (stuck_ne_done (rw (e, upload_stream) at h))
