-- ===== src/Object/Range/Tests.antt =====
-- The theorems on byte ranges of src/object.rs at concrete ranges.
use r2kit.Prelude.{◌≡◌, refl, arith, some, codes}
use r2kit.Object.Range.{bounded, from_offset, suffix, as_header_value, print_u64}
use r2kit.Object.Range.Parses.{parse_range, parse_range-as_header_value}

first_kilobyte : as_header_value (bounded 0 1023) ≡ codes "bytes=0-1023"
unfolding as_header_value print_u64
first_kilobyte = refl

rest_of_file : as_header_value (from_offset 500) ≡ codes "bytes=500-"
unfolding as_header_value print_u64
rest_of_file = refl

last_bytes : as_header_value (suffix 500) ≡ codes "bytes=-500"
unfolding as_header_value print_u64
last_bytes = refl

parse_range-as_header_value_example :
    parse_range (as_header_value (bounded 0 1023)) ≡ some (bounded 0 1023)
parse_range-as_header_value_example =
    parse_range-as_header_value (bounded 0 1023) (omega arith, omega arith)
