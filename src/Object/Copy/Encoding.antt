-- ===== src/Object/Copy/Encoding.antt =====
-- src/object.rs: how the key of a copy source is percent-encoded. The crate percent-encoding is a
-- parameter: its set of control characters, and `utf8_percent_encode` with a set.
use r2kit.Prelude.{ℕ, Bool, ◌||◌, ◌==◌, List, [], ◌∷◌, Text}

pub record PercentEncoding : Type 0 where
  pub controls : ℕ → Bool
  pub utf8_percent_encode : (ℕ → Bool) → Text → Text

abbrev pub one_of_bytes : List ℕ → ℕ → Bool
one_of_bytes [] b = Bool.false
one_of_bytes (c ∷ cs) b = b == c || one_of_bytes cs b

-- `COPY_SOURCE_ENCODE_SET`
unfoldable pub copy_source_encode_set : (ℕ → Bool) → ℕ → Bool
copy_source_encode_set controls b =
    controls b
    || one_of_bytes
        (b' ' ∷ b'"' ∷ b'#' ∷ b'%' ∷ b'&' ∷ b'+' ∷ b'?' ∷ b'\\' ∷ b'^' ∷ b'`' ∷ b'{' ∷ b'|' ∷ b'}'
          ∷ [])
        b
