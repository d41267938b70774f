-- ===== src/Completion.antt =====
-- src/completion.c, in children: the registry of completion scripts, the words of the line, the
-- generators of matches and the function that readline calls.
pub mod Registry
pub mod Laws
pub mod Words
pub mod Paths
pub mod Offers
pub mod FirstWord
pub mod Complete
mod Tests
