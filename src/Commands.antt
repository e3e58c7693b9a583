-- ===== src/Commands.antt =====
-- Commands that plugins provide: their context, the factory that loads them, and the dispatcher.
pub mod Context
pub mod Globothy
pub mod TypeFactory
pub mod Dispatcher
mod Examples
