-- ===== src/Logger.antt =====
-- src/logger: log entries on their way to a file, a database, the network or the console.
pub mod Database
pub mod Drained
mod FileExamples
mod DbExamples
mod NetExamples
pub mod LogFile
pub mod OverSqlite
pub mod NewDay
pub mod OverTcp
mod Examples
pub mod Invariant
pub mod Items
pub mod Query
pub mod Queue
pub mod Writer
pub mod Written
pub mod Strategy
pub mod Worker
