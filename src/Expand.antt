-- ===== src/Expand.antt =====
-- src/expand.c: the expansion of a word, with its tilde, variables, command substitutions and
-- quotes.
pub mod Word
pub mod Plain
pub mod Older
pub mod Strings
pub mod OlderLaws
mod Tests
