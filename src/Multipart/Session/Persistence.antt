-- ===== src/Multipart/Session/Persistence.antt =====
-- Saving, restoring and resuming a session of src/multipart.rs.
use r2kit.Prelude.{
  refl, ap, sym, ◌∙◌, inl, inr, Bool-cases, ◌==◌, reject, is_empty, ◌>>◌, ◌∷◌, ℕ, ◌≤◌, ◌≡◌, arith,
  Text, ok, [], ◌≢◌, length, >>=-eq-ok,
}
use r2kit.Error.{Error}
use r2kit.Types.{BucketName, ObjectKey, new_bucket_name, new_object_key}
use r2kit.Types.Names.{
  IsBucketName, new_bucket_name_iff, new_object_key_iff, new_bucket_name-ok, new_object_key-ok,
}
use r2kit.Multipart.Plan.{new_plan}
use r2kit.Multipart.Plan.Bounds.{Plannable, new_plan-Plannable, new_plan-Plannable_inv}
use r2kit.Multipart.Session.{
  MultipartSessionRecord, MultipartSessionSnapshot, from_persistence_record,
  into_persistence_record, restore,
}

-- What a snapshot must hold to be restored.
pub record IsSnapshot (s : MultipartSessionSnapshot) : Type 0 where
  pub bucket_name : IsBucketName s.bucket
  pub key_bytes : 1 ≤ length s.key
  pub key_short : length s.key ≤ 1024
  pub has_upload_id : s.upload_id ≢ []
  pub planned : Plannable s.file_size s.part_size

restore-IsSnapshot :
    (s : MultipartSessionSnapshot)
    → IsSnapshot s
    → restore s.bucket s.key s.upload_id s.file_size s.part_size ≡ ok s
unfolding restore
restore-IsSnapshot s v =
    rw
      (
        (new_bucket_name_iff s.bucket (record { text = s.bucket })).1 (v.bucket_name, refl),
        (new_object_key_iff s.key).1 (v.key_bytes, v.key_short),
        new_plan-Plannable s.file_size s.part_size v.planned,
      )
      (ground arith)

-- A snapshot written as a persistence record and read back is the same snapshot.
pub from_persistence_record-into_persistence_record :
    (s : MultipartSessionSnapshot)
    → IsSnapshot s
    → from_persistence_record (into_persistence_record s) ≡ ok s
unfolding from_persistence_record into_persistence_record
from_persistence_record-into_persistence_record s v = restore-IsSnapshot s v

reject_empty-ok :
    {A : Type 0} (t : Text) (e : Error) {a b : A}
    → (reject (is_empty t) e >> ok a) ≡ ok b
    → (t ≢ []) × (a ≡ b)
reject_empty-ok [] e h = ground arith
reject_empty-ok (c ∷ cs) e h = ground arith

restore-ok :
    (bucket key upload_id : Text) (f p : ℕ) {s : MultipartSessionSnapshot}
    → restore bucket key upload_id f p ≡ ok s
    → (s ≡ record {
      bucket = bucket;
      key = key;
      upload_id = upload_id;
      file_size = f;
      part_size = p;
    })
      × IsSnapshot s
unfolding restore
restore-ok bucket key upload_id f p h =
    let (b, made_b, h₁) = >>=-eq-ok (new_bucket_name bucket) _ h in
    let (k, made_k, h₂) = >>=-eq-ok (new_object_key key) _ h₁ in
    let (q, made_q, h₃) = >>=-eq-ok (new_plan f p) _ h₂ in
    let (eb, good_b) = new_bucket_name-ok bucket made_b in
    let (ek, long, short) = new_object_key-ok key made_k in
    let (good_q, _) = new_plan-Plannable_inv f p made_q in
    let (nonempty, e) = reject_empty-ok upload_id _ h₃ in
    let text_b : b.text ≡ bucket = ap (λ (n : BucketName). n.text) eb in
    let text_k : k.text ≡ key = ap (λ (n : ObjectKey). n.text) ek in
    let same = sym e ∙ rw (text_b, text_k) in
    (
      same,
      rw same (record {
        bucket_name = good_b;
        key_bytes = long;
        key_short = short;
        has_upload_id = nonempty;
        planned = good_q;
      }),
    )

-- A record that is accepted has version 1, gives the snapshot with its own fields, and writing this
-- snapshot back gives the record again; the snapshot can be restored.
pub into_persistence_record-from_persistence_record :
    (r : MultipartSessionRecord) {s : MultipartSessionSnapshot}
    → from_persistence_record r ≡ ok s
    → (into_persistence_record s ≡ r) × IsSnapshot s
unfolding from_persistence_record into_persistence_record
into_persistence_record-from_persistence_record r h = elim (Bool-cases (r.version == 1)) [
  | inl one ↦
      let (same, good) =
        restore-ok r.bucket r.key r.upload_id r.file_size r.part_size (rw one at h) in
      (rw same (ground arith), good)
  | inr other ↦ absurd (ground arith)
]
