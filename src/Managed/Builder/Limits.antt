-- ===== src/Managed/Builder/Limits.antt =====
-- src/managed.rs: what the checks of the builders let through, and how a file upload is split.
use r2kit.Prelude.{
  ℕ, ◌*◌, ◌≤◌, ◌<◌, ◌≡◌, ◌↔◌, refl, ok, arith, max, div_ceil, div_ceil_bounds, div_ceil-le,
  >>=-eq-ok, true, false, none, ltb, ◌==◌,
}
use r2kit.Types.{
  min_multipart_part_size, max_multipart_part_size, max_multipart_object_size, validate_part_size,
  ObjectKey, new_object_key,
}
use r2kit.Object.Options.{Codecs, validate}
use r2kit.Multipart.Plan.{max_parts, new_plan}
use r2kit.Multipart.Plan.Bounds.{new_plan-Plannable, plan_of}
use r2kit.Managed.Builder.{
  ManagedMultipartBuilder, UploadFileBuilder, multipart, validate_numbers, validate_upload_file,
  validate_managed, required_buffer_bytes, effective_part_size, strategy_for, max_concurrency,
  max_attempts_limit, managed_multipart,
}

-- The settings of an upload that its limits allow.
pub record Allowed (part_size concurrency max_attempts max_buffered_bytes : ℕ) : Type 0 where
  pub part_large : min_multipart_part_size ≤ part_size
  pub part_small : part_size ≤ max_multipart_part_size
  pub some_worker : 1 ≤ concurrency
  pub few_workers : concurrency ≤ max_concurrency
  pub some_attempt : 1 ≤ max_attempts
  pub few_attempts : max_attempts ≤ max_attempts_limit
  pub within_budget : part_size * concurrency ≤ max_buffered_bytes

-- The product does not saturate for sizes that the earlier checks let through.
pub required_buffer_bytes_exact :
    (p c : ℕ)
    → p ≤ max_multipart_part_size
    → c ≤ max_concurrency
    → required_buffer_bytes p c ≡ p * c
unfolding required_buffer_bytes
required_buffer_bytes_exact p c small few =
    let bound : p * c ≤ max_multipart_part_size * max_concurrency = grind arith in ground arith

passed_checks :
    (p c a m : ℕ)
    → validate_numbers p c a m ≡ ok tt
    → (min_multipart_part_size ≤ p)
      × (p ≤ max_multipart_part_size)
      × (1 ≤ c)
      × (c ≤ max_concurrency)
      × (1 ≤ a)
      × (a ≤ max_attempts_limit)
      × (required_buffer_bytes p c ≤ m)
unfolding validate_numbers validate_part_size
passed_checks p c a m h = ground arith

-- The numeric checks of both builders pass exactly for the allowed settings; the memory budget is
-- compared with the true product, which the saturating one never replaces.
pub validate_numbers_iff : (p c a m : ℕ) → (validate_numbers p c a m ≡ ok tt) ↔ Allowed p c a m
unfolding validate_numbers validate_part_size
validate_numbers_iff p c a m = (λ h. passed h, λ h. allowed h)
  where
    passed : validate_numbers p c a m ≡ ok tt → Allowed p c a m
    passed h =
        let facts = passed_checks p c a m h in
        record {
          part_large = facts.0;
          part_small = facts.1;
          some_worker = facts.2;
          few_workers = facts.3;
          some_attempt = facts.4;
          few_attempts = facts.5;
          within_budget = rw (required_buffer_bytes_exact p c facts.1 facts.3) at facts.6;
        }

    allowed : Allowed p c a m → validate_numbers p c a m ≡ ok tt
    allowed h = ground (arith, required_buffer_bytes_exact p c h.part_small h.few_workers, h)

-- A file that a well-configured adaptive upload sends in parts, of a size that R2 stores, always gets a
-- part size at which the plan is accepted: no more than 10,000 parts, each within its limits.
pub effective_part_size-Plannable :
    (file_size p : ℕ)
    → 0 < file_size
    → file_size ≤ max_multipart_object_size
    → min_multipart_part_size ≤ p
    → p ≤ max_multipart_part_size
    → new_plan file_size (effective_part_size file_size p)
      ≡ ok (plan_of file_size (effective_part_size file_size p))
unfolding effective_part_size
effective_part_size-Plannable f p pos le large small =
    let enough = div_ceil_bounds f max_parts (omega arith) in
    let at_most : div_ceil f max_parts ≤ max_multipart_part_size =
      div_ceil-le f max_parts max_multipart_part_size (omega arith) (omega arith) in
    new_plan-Plannable f (max p (div_ceil f max_parts)) (record {
      nonempty = pos;
      object_capped = le;
      part_large = omega arith;
      part_small = omega arith;
      few_parts = omega (arith, enough);
    })

pub attempts_in_range :
    (codecs : Codecs) (b : ManagedMultipartBuilder)
    → validate_managed codecs b ≡ ok tt
    → (1 ≤ b.max_attempts) × (b.max_attempts < 256)
unfolding validate_managed
attempts_in_range codecs b passed =
    let (_, valid, _) =
      >>=-eq-ok (validate_numbers b.part_size b.concurrency b.max_attempts b.max_buffered_bytes) _
        passed in
    let allowed =
      (validate_numbers_iff b.part_size b.concurrency b.max_attempts b.max_buffered_bytes).0
        valid in
    (allowed.some_attempt, omega (arith, allowed.few_attempts))

-- For a checked adaptive upload with a valid key, of a file that is not below the threshold and that R2
-- can store, the strategy is a managed upload in parts, whose builder has the key, the options, the
-- attempts and the concurrency of the adaptive one, and a part size that is no smaller and at which the
-- plan of the file is accepted. Whether that builder passes its own checks is not stated.
pub strategy_for-multipart :
    (codecs : Codecs) (b : UploadFileBuilder) (key : ObjectKey) (file_size : ℕ)
    → validate_upload_file codecs b ≡ ok tt
    → new_object_key key.text ≡ ok key
    → 0 < file_size
    → b.threshold.bytes ≤ file_size
    → file_size ≤ max_multipart_object_size
    → (mp : ManagedMultipartBuilder) × (strategy_for b key file_size ≡ ok (multipart mp))
      × (new_plan file_size mp.part_size ≡ ok (plan_of file_size mp.part_size))
      × (b.part_size ≤ mp.part_size)
      × (mp.key ≡ key.text)
      × (mp.options ≡ b.options)
      × (mp.max_attempts ≡ b.max_attempts)
      × (mp.concurrency ≡ b.concurrency)
unfolding validate_upload_file strategy_for managed_multipart effective_part_size
strategy_for-multipart codecs b key f valid key_ok pos above le =
    let (_, _, numbers_ok) = >>=-eq-ok (validate codecs b.options) _ valid in
    let allowed =
      (validate_numbers_iff b.part_size b.concurrency b.max_attempts b.max_buffered_bytes).0
        numbers_ok in
    let some_bytes : (f == 0) ≡ false = ground arith in
    let not_below : ltb f b.threshold.bytes ≡ false = ground arith in
    let mp : ManagedMultipartBuilder = record {
      bucket = b.bucket;
      key = key.text;
      part_size = effective_part_size f b.part_size;
      concurrency = b.concurrency;
      max_attempts = b.max_attempts;
      max_buffered_bytes = b.max_buffered_bytes;
      abort_on_error = true;
      resume = none;
      cancellation = b.cancellation;
      options = b.options;
    } in
    (
      mp,
      rw (strategy_for, some_bytes, not_below, managed_multipart, key_ok),
      effective_part_size-Plannable f b.part_size pos le allowed.part_large allowed.part_small,
      omega arith,
      refl,
      refl,
      refl,
      refl,
    )
