-- ===== src/Object/Copy/Sources.antt =====
-- src/object.rs: a copy source names one object.
use r2kit.Prelude.{
  ℕ, ◌+◌, ◌-◌, ◌/◌, ◌%◌, ◌<◌, ◌≡◌, ◌≢◌, ◌∙◌, refl, sym, ap, arith, Bool, true, false, ◌||◌, leb,
  ltb, if◌then◌else◌, Bool-cases, inl, inr, Text, [], ◌∷◌, ◌++◌, All,
}
use r2kit.Types.{ObjectKey, BucketName}
use r2kit.Types.Names.{IsBucketName, BucketByte}
use r2kit.Object.Copy.Encoding.{PercentEncoding, copy_source_encode_set}
use r2kit.Object.Copy.{copy_source}

bytes-ne-slash : (b : ℕ) → BucketByte b → b ≢ b'/'
bytes-ne-slash b h e = ground arith

-- Texts without a slash are told apart by the first slash.
split_slash :
    (xs ys ss ts : Text)
    → All BucketByte xs
    → All BucketByte ys
    → xs ++ (b'/' ∷ ss) ≡ ys ++ (b'/' ∷ ts)
    → (xs ≡ ys) × (ss ≡ ts)
split_slash [] [] ss ts p q h = (refl, cc)
split_slash [] (y ∷ ys) ss ts p (q, qs) h = absurd (bytes-ne-slash y q (sym (first h)))
  where
    first : {x y : ℕ} {xs ys : Text} → x ∷ xs ≡ y ∷ ys → x ≡ y
    first e = cc
split_slash (x ∷ xs) [] ss ts (p, ps) q h = absurd (bytes-ne-slash x p (first h))
  where
    first : {x y : ℕ} {xs ys : Text} → x ∷ xs ≡ y ∷ ys → x ≡ y
    first e = cc
split_slash (x ∷ xs) (y ∷ ys) ss ts (p, ps) (q, qs) h =
    let (e, f) = split_slash xs ys ss ts ps qs cc in (cc, f)

-- An upper-case hexadecimal digit.
abbrev pub hex_digit : ℕ → ℕ
hex_digit n = if ltb n 10 then b'0' + n else b'A' + (n - 10)

-- What the crate documents: a byte in the set, and one that is not ASCII, becomes a percent sign and two
-- hexadecimal digits; the other bytes stay.
pub record Encodes (encoding : PercentEncoding) : Type 0 where
  pub empty : (set : ℕ → Bool) → encoding.utf8_percent_encode set [] ≡ []
  pub stays :
      (set : ℕ → Bool) (b : ℕ) (bs : Text)
      → (set b || leb 128 b) ≡ false
      → encoding.utf8_percent_encode set (b ∷ bs) ≡ b ∷ encoding.utf8_percent_encode set bs
  pub escapes :
      (set : ℕ → Bool) (b : ℕ) (bs : Text)
      → (set b || leb 128 b) ≡ true
      → b < 256
      → encoding.utf8_percent_encode set (b ∷ bs)
        ≡ b'%' ∷ hex_digit (b / 16) ∷ hex_digit (b % 16) ∷ encoding.utf8_percent_encode set bs

cons-injective : {x y : ℕ} {xs ys : Text} → x ∷ xs ≡ y ∷ ys → (x ≡ y) × (xs ≡ ys)
cons-injective h = (cc, cc)

cons-ne-nil : {x : ℕ} {xs : Text} → x ∷ xs ≡ [] → ⊥
cons-ne-nil h = cc

hex_digit-injective : (m n : ℕ) → m < 16 → n < 16 → hex_digit m ≡ hex_digit n → m ≡ n
hex_digit-injective m n h k e = ground arith

byte_of_digits : (b c : ℕ) → b / 16 ≡ c / 16 → b % 16 ≡ c % 16 → b ≡ c
byte_of_digits b c h k = omega arith

module _ (encoding : PercentEncoding) (encodes : Encodes encoding) (set : ℕ → Bool)
    (escapes_percent : set b'%' ≡ true) where
  percent_escaped : (b : ℕ) → (set b || leb 128 b) ≡ false → b ≢ b'%'
  percent_escaped b kept e = let same : set b ≡ true = rw e escapes_percent in ground arith

  -- An encoded text begins with what its first byte became.
  encode-Nonempty : (b : ℕ) (bs : Text) → b < 256 → encoding.utf8_percent_encode set (b ∷ bs) ≢ []
  encode-Nonempty b bs byte h = elim (Bool-cases (set b || leb 128 b)) [
    | inl escaped ↦ cons-ne-nil (sym (encodes.escapes set b bs escaped byte) ∙ h)
    | inr kept ↦ cons-ne-nil (sym (encodes.stays set b bs kept) ∙ h)
  ]

  encode-injective :
      (s t : Text)
      → All (λ b. b < 256) s
      → All (λ b. b < 256) t
      → encoding.utf8_percent_encode set s ≡ encoding.utf8_percent_encode set t
      → s ≡ t
  encode-injective [] [] p q h = refl
  encode-injective [] (c ∷ t) p (q, qs) h =
      absurd (encode-Nonempty c t q (sym h ∙ encodes.empty set))
  encode-injective (b ∷ s) [] (p, ps) q h = absurd (encode-Nonempty b s p (h ∙ encodes.empty set))
  encode-injective (b ∷ s) (c ∷ t) (p, ps) (q, qs) h = elim (Bool-cases (set b || leb 128 b)) [
    | inl b_escaped ↦ elim (Bool-cases (set c || leb 128 c)) [
      | inl c_escaped ↦
          let (_, digits) =
            cons-injective (
              sym (encodes.escapes set b s b_escaped p)
              ∙ h
              ∙ encodes.escapes set c t c_escaped q) in
          let (high, more) = cons-injective digits in
          let (low, rest) = cons-injective more in
          let same =
            byte_of_digits b c
              (hex_digit-injective (b / 16) (c / 16) (omega arith) (omega arith) high)
              (hex_digit-injective (b % 16) (c % 16) (omega arith) (omega arith) low) in
          let tails = encode-injective s t ps qs rest in cc
      | inr c_kept ↦
          let (first, _) =
            cons-injective
              (sym (encodes.escapes set b s b_escaped p) ∙ h ∙ encodes.stays set c t c_kept) in
          absurd (percent_escaped c c_kept (sym first))
    ]
    | inr b_kept ↦ elim (Bool-cases (set c || leb 128 c)) [
      | inl c_escaped ↦
          let (first, _) =
            cons-injective
              (sym (encodes.stays set b s b_kept) ∙ h ∙ encodes.escapes set c t c_escaped q) in
          absurd (percent_escaped b b_kept first)
      | inr c_kept ↦
          let (same, rest) =
            cons-injective
              (sym (encodes.stays set b s b_kept) ∙ h ∙ encodes.stays set c t c_kept) in
          let tails = encode-injective s t ps qs rest in cc
    ]
  ]

-- The set of a copy source escapes the escape character itself.
percent-escaped : (controls : ℕ → Bool) → copy_source_encode_set controls b'%' ≡ true
unfolding copy_source_encode_set
percent-escaped controls = ground arith

-- Two copy sources are the same only for the same bucket and the same key, where the bucket names are
-- valid, the keys are texts of bytes, and the encoder does what it documents.
pub copy_source-injective :
    (encoding : PercentEncoding) (a b : BucketName) (k l : ObjectKey)
    → Encodes encoding
    → IsBucketName a.text
    → IsBucketName b.text
    → All (λ b. b < 256) k.text
    → All (λ b. b < 256) l.text
    → copy_source encoding a k ≡ copy_source encoding b l
    → (a ≡ b) × (k ≡ l)
copy_source-injective encoding a b k l encodes a_valid b_valid k_bytes l_bytes h =
    let set = copy_source_encode_set encoding.controls in
    let (buckets, keys) =
      split_slash a.text b.text (encoding.utf8_percent_encode set k.text)
        (encoding.utf8_percent_encode set l.text) a_valid.bytes b_valid.bytes h in
    let texts =
      encode-injective encoding encodes set (percent-escaped encoding.controls) k.text l.text
        k_bytes l_bytes keys in
    (ap (λ t. record { text = t }) buckets, ap (λ t. record { text = t }) texts)
