-- ===== src/Authentication.antt =====
-- src/authentication: token lists over their files, and the strategies.
pub mod CachedFileList
pub mod MemoryMappedListFile
pub mod RevocationList
pub mod Compactor
pub mod Basic
mod Examples
