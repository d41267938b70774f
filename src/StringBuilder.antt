-- ===== src/StringBuilder.antt =====
-- src/stringbuilder.c: strings that grow.
pub mod Buffer
pub mod Blocks
pub mod Laws
pub mod Taken
mod Tests
