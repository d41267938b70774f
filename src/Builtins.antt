-- ===== src/Builtins.antt =====
-- src/builtins.c: the built-in commands.
pub mod Table
pub mod Names
pub mod Commands
pub mod History
pub mod Listed
pub mod Search
pub mod Laws
mod Tests
