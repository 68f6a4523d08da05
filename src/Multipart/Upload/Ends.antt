-- ===== src/Multipart/Upload/Ends.antt =====
-- `create` and `complete` of src/multipart.rs come to an end.
use r2kit.Prelude.{map, ok, err, inl, inr, Result-cases, ok_or}
use r2kit.Error.{service}
use r2kit.Sdk.{Sdk, Outcome, finished, unfinished, Remote, ◌>>=◌, and_then, reply-cases}
use r2kit.Object.Options.{Codecs}
use r2kit.Multipart.Manifest.{CompletionManifest}
use r2kit.Multipart.Session.{PresignedMultipart}
use r2kit.Multipart.Checks.{PresignedMultipartBuilder, plan_upload, create_request, check_manifest}
use r2kit.Multipart.Reconcile.Ends.{Ends}
use r2kit.Multipart.Upload.{create, complete}

pub bind-Ends :
    {S A B : Type 0} (m : Remote S A) (f : A → Remote S B) (s : S)
    → Ends (m s)
    → ((a : A) (t : S) → Ends (f a t))
    → Ends ((m >>= f) s)
bind-Ends {S} {A} {B} m f s ends next = go (m s) ends
  where
    go :
        (o : Outcome S A)
        → Ends o
        → Ends (and_then {B = Outcome S B} o unfinished (λ e t. finished (err e) t) f)
    go (finished (ok a) t) h = next a t
    go (finished (err x) t) h = tt
    go unfinished h = elim h [ ]

pub create-Ends :
    {S : Type 0} (sdk : Sdk S) (codecs : Codecs) (b : PresignedMultipartBuilder) (s : S)
    → Ends (create sdk codecs b s)
unfolding create
create-Ends sdk codecs b s = elim (Result-cases (plan_upload codecs b)) [
  | inr (x, refused) ↦ rw refused tt
  | inl (plan, planned) ↦ elim (reply-cases (sdk.create_multipart_upload (create_request b) s)) [
    | inr (x, t, failed) ↦ rw (planned, failed) tt
    | inl (output, t, sent) ↦ elim (Result-cases (ok_or output (service "CreateMultipartUpload"))) [
      | inr (x, missing) ↦ rw (planned, sent, missing) tt
      | inl (upload_id, found) ↦ rw (planned, sent, found) tt
    ]
  ]
]

pub complete-Ends :
    {S : Type 0} (sdk : Sdk S) (session : PresignedMultipart) (c : CompletionManifest) (s : S)
    → Ends (complete sdk session c s)
unfolding complete
complete-Ends sdk session c s = elim (Result-cases (check_manifest session.plan c)) [
  | inr (x, refused) ↦ rw refused tt
  | inl (x, passed) ↦
      elim (reply-cases (
        sdk.complete_multipart_upload
          (record {
            bucket = session.bucket.name.text;
            key = session.key;
            upload_id = session.upload_id;
            parts = map (λ part. (part.part_number.number, part.etag)) c.parts;
          })
          s)) [
            | inr (y, t, failed) ↦ rw (passed, failed) tt
            | inl (etag, t, sent) ↦ rw (passed, sent) tt
          ]
]
