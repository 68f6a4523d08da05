-- ===== src/Types/Tests.antt =====
-- The theorems on the validated names of src/types.rs at concrete texts.
use r2kit.Prelude.{◌≡◌, ◌↔◌, ok, codes}
use r2kit.Types.{BucketName, new_bucket_name}
use r2kit.Types.Names.{IsBucketName, new_bucket_name_iff}

abbrev my_bucket : BucketName
my_bucket = record { text = codes "my-bucket" }

new_bucket_name_iff_example :
    (new_bucket_name (codes "my-bucket") ≡ ok my_bucket)
    ↔ (IsBucketName (codes "my-bucket") × (my_bucket ≡ record { text = codes "my-bucket" }))
new_bucket_name_iff_example = new_bucket_name_iff (codes "my-bucket") my_bucket
