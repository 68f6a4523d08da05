-- ===== src/Object.antt =====
-- src/object.rs: the options of an upload, the deletion of many objects, and the listing of a bucket.
pub mod Options
pub mod Delete
pub mod Listing
pub mod Range
pub mod Get
pub mod Put
pub mod Copy
pub mod Removal
pub mod Presign
