-- ===== src/Object/Range/Parses.antt =====
-- src/object.rs: what the header value of a byte range means, and which ranges the check lets through.
use r2kit.Prelude.{
  ℕ, zero, suc, ◌+◌, ◌-◌, ◌*◌, ◌/◌, ◌%◌, ◌^◌, ◌<◌, ◌≡◌, ◌↔◌, inl, inr, refl, arith, false,
  Bool-cases, Option, none, some, Text, [], ◌∷◌, ◌++◌, ltb, ◌==◌, if◌then◌else◌, All, ok, min,
  codes, u64_mod,
}
use r2kit.Object.Range.{
  ByteRange, bounded, from_offset, suffix, digits, print_u64, as_header_value, validate_range,
}

-- The bytes of an object of a given size that a range asks for: the first, and how many. A range that
-- starts at or after the end, and an empty one, has none.
abbrev pub selected : ByteRange → ℕ → ℕ × ℕ
selected (bounded start end) size = (start, min (end + 1) size - start)
selected (from_offset offset) size = (offset, size - offset)
selected (suffix length) size = (size - length, min length size)

-- A reader of what follows the unit: the digits before the hyphen and those after it.
abbrev pub read_number : ℕ → Text → ℕ
read_number acc [] = acc
read_number acc (c ∷ cs) = read_number (acc * 10 + (c - b'0')) cs

abbrev pub before_hyphen : Text → Text
before_hyphen [] = []
before_hyphen (c ∷ cs) = let rest = before_hyphen cs in if c == b'-' then [] else c ∷ rest

abbrev pub after_hyphen : Text → Text
after_hyphen [] = []
after_hyphen (c ∷ cs) = let rest = after_hyphen cs in if c == b'-' then cs else rest

abbrev pub read_range : Text → Text → Option ByteRange
read_range [] [] = none
read_range [] (e ∷ es) = some (suffix (read_number 0 (e ∷ es)))
read_range (d ∷ ds) [] = some (from_offset (read_number 0 (d ∷ ds)))
read_range (d ∷ ds) (e ∷ es) = some (bounded (read_number 0 (d ∷ ds)) (read_number 0 (e ∷ es)))

-- What follows a prefix.
abbrev pub strip : Text → Text → Option Text
strip [] text = some text
strip (p ∷ ps) [] = none
strip (p ∷ ps) (c ∷ cs) = let rest = strip ps cs in if p == c then rest else none

abbrev pub read_specifier : Option Text → Option ByteRange
read_specifier none = none
read_specifier (some text) = read_range (before_hyphen text) (after_hyphen text)

-- A reader of the whole value, whose unit must be `bytes`.
abbrev pub parse_range : Text → Option ByteRange
parse_range text = read_specifier (strip (codes "bytes=") text)

read_number-append :
    (cs : Text) (acc c : ℕ)
    → read_number acc (cs ++ (c ∷ [])) ≡ read_number acc cs * 10 + (c - b'0')
read_number-append [] acc c = refl
read_number-append (d ∷ ds) acc c = read_number-append ds (acc * 10 + (d - b'0')) c

read_number-digits : (fuel n : ℕ) → n < 10 ^ fuel → read_number 0 (digits fuel n) ≡ n
unfolding digits
read_number-digits zero n h = omega arith
read_number-digits (suc fuel) n h = elim (Bool-cases (ltb n 10)) [
  | inl small ↦ rw (digits, small) (omega arith)
  | inr large ↦
      let front = read_number-digits fuel (n / 10) (omega arith) in
      rw (digits, large, read_number-append (digits fuel (n / 10)) 0 (b'0' + n % 10), front)
        (omega arith)
]

-- Digits hold no hyphen.
abbrev NoHyphen : Text → Type 0
NoHyphen = All (λ c. (c == b'-') ≡ false)

NoHyphen-append :
    (cs : Text) (c : ℕ) → NoHyphen cs → (c == b'-') ≡ false → NoHyphen (cs ++ (c ∷ []))
NoHyphen-append [] c h k = (k, tt)
NoHyphen-append (d ∷ ds) c (e, h) k = (e, NoHyphen-append ds c h k)

digits-NoHyphen : (fuel n : ℕ) → NoHyphen (digits fuel n)
unfolding digits
digits-NoHyphen zero n = tt
digits-NoHyphen (suc fuel) n = elim (Bool-cases (ltb n 10)) [
  | inl small ↦ rw (digits, small) (ground arith, tt)
  | inr large ↦
      rw (digits, large)
        (NoHyphen-append (digits fuel (n / 10)) (b'0' + n % 10) (digits-NoHyphen fuel (n / 10))
          (ground arith))
]

-- A text that is not empty.
abbrev Nonempty : Text → Type 0
Nonempty text = (c : ℕ) × (cs : Text) × (text ≡ c ∷ cs)

append-Nonempty : (xs : Text) (y : ℕ) → Nonempty (xs ++ (y ∷ []))
append-Nonempty [] y = (y, [], refl)
append-Nonempty (x ∷ xs) y = (x, xs ++ (y ∷ []), refl)

digits-Nonempty : (fuel n : ℕ) → Nonempty (digits (suc fuel) n)
unfolding digits
digits-Nonempty fuel n = elim (Bool-cases (ltb n 10)) [
  | inl small ↦ rw (digits, small) (b'0' + n, [], refl)
  | inr large ↦ rw (digits, large) (append-Nonempty (digits fuel (n / 10)) (b'0' + n % 10))
]

split_hyphen :
    (ds es : Text)
    → NoHyphen ds
    → (before_hyphen (ds ++ (b'-' ∷ es)) ≡ ds) × (after_hyphen (ds ++ (b'-' ∷ es)) ≡ es)
split_hyphen [] es h = (refl, refl)
split_hyphen (d ∷ ds) es (e, h) =
    let (before, after) = split_hyphen ds es h in (rw (e, before), rw (e, after))

-- A u64 is printed in twenty digits.
print_u64-read : (n : ℕ) → n < u64_mod → read_number 0 (print_u64 n) ≡ n
unfolding print_u64
print_u64-read n h = read_number-digits 20 n (omega arith)

print_u64-NoHyphen : (n : ℕ) → NoHyphen (print_u64 n)
unfolding print_u64
print_u64-NoHyphen n = digits-NoHyphen 20 n

print_u64-Nonempty : (n : ℕ) → Nonempty (print_u64 n)
unfolding print_u64
print_u64-Nonempty n = digits-Nonempty 19 n

read_bounded :
    (ds es : Text)
    → Nonempty ds
    → Nonempty es
    → read_range ds es ≡ some (bounded (read_number 0 ds) (read_number 0 es))
read_bounded ds es (c, cs, e) (d, rest, f) = rw (e, f)

read_from : (ds : Text) → Nonempty ds → read_range ds [] ≡ some (from_offset (read_number 0 ds))
read_from ds (c, cs, e) = rw e

read_suffix : (es : Text) → Nonempty es → read_range [] es ≡ some (suffix (read_number 0 es))
read_suffix es (c, cs, e) = rw e

-- The bounds of a range are machine words.
abbrev pub IsWords : ByteRange → Type 0
IsWords (bounded start end) = (start < u64_mod) × (end < u64_mod)
IsWords (from_offset offset) = offset < u64_mod
IsWords (suffix length) = length < u64_mod

-- The header value of a byte range is `bytes=` and a text that reads back as that range; so distinct ranges
-- have distinct values.
pub parse_range-as_header_value :
    (r : ByteRange) → IsWords r → parse_range (as_header_value r) ≡ some r
unfolding as_header_value
parse_range-as_header_value (bounded start end) (h, k) =
    let (before, after) =
      split_hyphen (print_u64 start) (print_u64 end) (print_u64-NoHyphen start) in
    rw (
      before,
      after,
      read_bounded _ _ (print_u64-Nonempty start) (print_u64-Nonempty end),
      print_u64-read start h,
      print_u64-read end k,
    )
parse_range-as_header_value (from_offset offset) h =
    let (before, after) = split_hyphen (print_u64 offset) [] (print_u64-NoHyphen offset) in
    rw (before, after, read_from _ (print_u64-Nonempty offset), print_u64-read offset h)
parse_range-as_header_value (suffix length) h =
    rw (read_suffix _ (print_u64-Nonempty length), print_u64-read length h)

-- The check of a byte range refuses exactly the ranges that no object has a byte of.
pub validate_range_iff :
    (r : ByteRange) → (validate_range r ≡ ok tt) ↔ ((size : ℕ) × (0 < (selected r size).1))
unfolding validate_range
validate_range_iff (bounded start end) = (λ h. (end + 1, ground arith), λ (size, h). ground arith)
validate_range_iff (from_offset offset) = (λ h. (offset + 1, omega arith), λ h. refl)
validate_range_iff (suffix length) = (λ h. (1, ground arith), λ (size, h). ground arith)
