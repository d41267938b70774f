-- ===== src/Hashtable.antt =====
-- src/hashtable.c: the table of string keys and values that holds the shell's variables.
pub mod Buckets
pub mod Table
pub mod Grows
pub mod Lookup
pub mod Items
mod Tests
