-- ===== src/Managed/Source/Unchanged.antt =====
-- The fingerprint of a file in src/managed.rs matches only metadata that agree with it.
use r2kit.Prelude.{ℕ, ◌≡◌, refl, ap, arith, true, Option, none, some}
use r2kit.Managed.Source.{Metadata, SourceFileFingerprint, from_metadata, matches, time_eq}

time_eq-eq : (s t : Option ℕ) → time_eq s t ≡ true → s ≡ t
time_eq-eq none none h = refl
time_eq-eq none (some t) h = cc
time_eq-eq (some s) none h = cc
time_eq-eq (some s) (some t) h = let e : s ≡ t = ground arith in ap some e

-- The length, the time of the last change, the device and the file on it are the same.
pub matches-eq :
    (f : SourceFileFingerprint) (m : Metadata) → matches f m ≡ true → from_metadata m ≡ f
unfolding matches
matches-eq f m h =
    let len : f.len ≡ m.len = ground arith in
    let device : f.device ≡ m.dev = ground arith in
    let inode : f.inode ≡ m.ino = ground arith in
    let timed : time_eq f.modified m.modified ≡ true = ground arith in
    let modified = time_eq-eq f.modified m.modified timed in
    rw (← len, ← device, ← inode, ← modified)
