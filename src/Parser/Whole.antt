-- ===== src/Parser/Whole.antt =====
-- src/lexer.c and src/parser.c together: from the text of a line to its tree.
use codecrafters_shell_c.Parser.Parse.{Allocator, WholeWords}
use codecrafters_shell_c.Common.{
  ◌≡◌, refl, ap, ◌+◌, true, some, List, [], ◌∷◌, ◌++◌, length, length-append, arith,
}
use codecrafters_shell_c.Common.Bytes.{Bytes}
use codecrafters_shell_c.Common.Outcome.{ok}
use codecrafters_shell_c.Lexer.Lexemes.{Lexeme}
use codecrafters_shell_c.Lexer.Written.{written, is_readable, written_tokens, lx_tokenize-written}
use codecrafters_shell_c.Tokens.{tok_eof, newtok, TokenList}
use codecrafters_shell_c.Tokens.Laws.{IsCounted}
use codecrafters_shell_c.Parser.Stream.{ts_new}
use codecrafters_shell_c.Parser.Left.{ts_new-Left}
use codecrafters_shell_c.Parser.Parse.{lex_and_parse}
use codecrafters_shell_c.Parser.Grammar.{Line, line_tokens, line_tree, SmallLine}
use codecrafters_shell_c.Parser.RoundTrip.{parse_list-line_tokens}

length-written_tokens : (ls : List (Bytes × Lexeme)) → length (written_tokens ls) ≡ length ls
length-written_tokens [] = refl
length-written_tokens ((gap, l) ∷ ls) = omega (arith, length-written_tokens ls)

module _ ⦃alloc : Allocator⦄ ⦃words : WholeWords alloc⦄ where
  pub lex_and_parse-written :
      (line : Line) (ls : List (Bytes × Lexeme)) (tail : Bytes)
      → written_tokens ls ≡ line_tokens line
      → SmallLine line
      → is_readable ls tail ≡ true
      → lex_and_parse (written ls tail) ≡ ok (some (line_tree line))
  unfolding lex_and_parse
  lex_and_parse-written line ls tail same small readable =
      let eof = newtok tok_eof [] in
      let list : TokenList = record {
        size = length ls + 1;
        tokens = written_tokens ls ++ eof ∷ [];
      } in
      let counted : IsCounted list =
        omega (arith, length-append (written_tokens ls) (eof ∷ []), length-written_tokens ls) in
      let (s, run, left) =
        parse_list-line_tokens line eof (ts_new list)
          (ts_new-Left list (line_tokens line) eof counted (ap (λ ts. ts ++ eof ∷ []) same) refl)
          small in
      rw (lx_tokenize-written ls tail readable) (rw run refl)
