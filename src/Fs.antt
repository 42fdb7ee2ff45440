-- ===== src/Fs.antt =====
-- The file system client (pkg/fs/client).
pub mod Handle
pub mod Answer
pub mod Disk
pub mod Cache
pub mod Reader
mod HandleExamples
mod CacheExamples
mod DiskExamples
