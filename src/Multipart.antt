-- ===== src/Multipart.antt =====
-- src/multipart.rs: planned multipart uploads, their sessions, and the listings of them.
pub mod Plan
pub mod Manifest
pub mod Session
pub mod RemoteParts
pub mod Reconcile
pub mod Checks
pub mod Upload
mod Tests
