-- ===== src/Parser.antt =====
-- src/parser.c and the token stream of src/parsetypes.c, in children: the stream, the vectors that
-- collect arguments and redirections, the parsing functions, and what is proved of them.
pub mod Stream
pub mod Vectors
pub mod Overrun
pub mod Parse
pub mod Left
pub mod Steps
pub mod Progress
pub mod Splitting
pub mod Total
pub mod NextToken
pub mod Grammar
pub mod Reading
pub mod Commands
pub mod AndOrs
pub mod RoundTrip
pub mod Whole
mod Tests
mod OverrunTests
