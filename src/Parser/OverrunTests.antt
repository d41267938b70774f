-- ===== src/Parser/OverrunTests.antt =====
-- src/parser.c: the theorem about blocks of the size asked for, at a line of one word.
use codecrafters_shell_c.Common.{◌≢◌, refl, [], some}
use codecrafters_shell_c.Common.Bytes.{bytes}
use codecrafters_shell_c.Common.Outcome.{ok}
use codecrafters_shell_c.Syntax.{ShellList}
use codecrafters_shell_c.Parser.Parse.{Allocator, lex_and_parse}
use codecrafters_shell_c.Parser.Overrun.{lex_and_parse-NoTree}

instance abbrev as_asked : Allocator
as_asked = record { usable = λ n. n }

abbrev nothing : ShellList
nothing = record { count = 0; elements = [] }

lex_and_parse-NoTree_example : lex_and_parse (bytes "ls") ≢ ok (some nothing)
lex_and_parse-NoTree_example = lex_and_parse-NoTree (λ n. refl) (bytes "ls") nothing
