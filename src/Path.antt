-- ===== src/Path.antt =====
-- src/path.c and src/wordlist.c: lists of words, and the search for a command in PATH.
pub mod Words
pub mod Search
pub mod Laws
mod Tests
