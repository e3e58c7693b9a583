-- ===== src/Authorization.antt =====
-- src/authorization and src/afcas: the configuration of who may do what, its migration to the AFCAS
-- service, and the decisions that the service takes.
pub mod Types
pub mod InitData
pub mod AfcasClient
pub mod Strategy
pub mod Migration
pub mod Granted
mod Examples
