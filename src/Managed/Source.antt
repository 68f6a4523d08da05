-- ===== src/Managed/Source.antt =====
-- src/managed.rs: the file that a managed upload reads. The file system is a parameter: what it says
-- of a path in a state of the world.
pub mod Reads
pub mod Unchanged
use r2kit.Prelude.{
  ℕ, ◌-◌, Bool, true, false, not, ◌&&◌, Option, none, some, List, Text, Result, ok, err, ◌>>=◌,
  ◌>>◌, reject, ok_or, ◌==◌, checked_mul_u64,
}
use r2kit.Error.{Error, io, invalid_input}
use r2kit.Multipart.Plan.{PartNumber}

pub record Metadata : Type 0 where
  pub is_file : Bool
  pub len : ℕ
  pub modified : Option ℕ
  pub dev : ℕ
  pub ino : ℕ

-- `tokio::fs`: metadata, opening and seeking, and `read_exact` of a count of bytes at an offset. Each
-- may fail.
pub record Files (S : Type 0) : Type 0 where
  pub metadata : Text → S → Option Metadata
  pub open_file : Text → S → Bool
  pub seek : Text → ℕ → S → Bool
  pub read_exact : Text → ℕ → ℕ → S → Option (List ℕ)

pub record SourceFileFingerprint : Type 0 where
  pub len : ℕ
  pub modified : Option ℕ
  pub device : ℕ
  pub inode : ℕ

abbrev pub from_metadata : Metadata → SourceFileFingerprint
from_metadata m = record { len = m.len; modified = m.modified; device = m.dev; inode = m.ino }

abbrev pub time_eq : Option ℕ → Option ℕ → Bool
time_eq none none = true
time_eq none (some t) = false
time_eq (some s) none = false
time_eq (some s) (some t) = s == t

-- `SourceFileFingerprint::matches`
unfoldable pub matches : SourceFileFingerprint → Metadata → Bool
matches f m =
    let g = from_metadata m in
    f.len == g.len && time_eq f.modified g.modified && f.device == g.device && f.inode == g.inode

-- `read_part`, for a length that the platform can address.
unfoldable pub read_part :
    {S : Type 0} → Files S → Text → ℕ → PartNumber → ℕ → S → Result (List ℕ) Error
read_part files path part_size number length s = do
  reject (not (files.open_file path s)) (io "open")
  offset ←
      ok_or (checked_mul_u64 (number.number - 1) part_size)
        (invalid_input "part_number" "part offset overflowed")
  reject (not (files.seek path offset s)) (io "seek")
  ok_or (files.read_exact path offset length s) (io "read")
