-- ===== src/Managed.antt =====
-- src/managed.rs: managed multipart uploads from a file.
pub mod Retry
pub mod Builder
pub mod Pipeline
pub mod Source
pub mod Work
pub mod Upload
pub mod Adaptive
pub mod Buffers
pub mod Streaming
mod Tests
