-- ===== src/Lexer.antt =====
-- src/lexer.c, in children: the character stream, the scanner and the tokenizer; then what is
-- proved of them.
pub mod Stream
pub mod Scan
pub mod Tokenize
pub mod Reads
pub mod Rounds
pub mod Progress
pub mod Total
pub mod Places
pub mod Words
pub mod Signs
pub mod SignScan
pub mod Blanks
pub mod Lexemes
pub mod Taking
pub mod Written
mod Tests
