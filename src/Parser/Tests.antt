-- ===== src/Parser/Tests.antt =====
-- src/parser.c on short lines, and the theorems about it at such lines.
use codecrafters_shell_c.Parser.Parse.{Allocator, WholeWords}
use codecrafters_shell_c.Common.{◌*◌, ◌+◌, ◌/◌}
use codecrafters_shell_c.Lexer.Stream.{unquoted}
use codecrafters_shell_c.Expand.Older.{is_escapable}
use codecrafters_shell_c.Parser.NextToken.{
  next_token, token_loop, token_round, token_escape, skip_spaces,
}
use codecrafters_shell_c.Common.{◌≡◌, ◌≢◌, refl, [], ◌∷◌, arith}
use codecrafters_shell_c.Common.{List, true, some}
use codecrafters_shell_c.Common.Bytes.{Bytes, bytes, isspace, isdigit}
use codecrafters_shell_c.Lexer.Stream.{isoperator, toggle_flag}
use codecrafters_shell_c.Lexer.Words.{plain_from, is_plain, ends_word, is_closed, word_type}
use codecrafters_shell_c.Lexer.Signs.{
  bar, ampersands, semicolon, greaters, sign_text, sign_char, sign_type, is_twice, ends_sign,
  is_redirection,
}
use codecrafters_shell_c.Lexer.Blanks.{is_blank, all_space}
use codecrafters_shell_c.Lexer.Lexemes.{
  Lexeme, word, sign, numbered, lexeme_text, lexeme_token, reads_as, sign_fd,
}
use codecrafters_shell_c.Lexer.Written.{written, is_readable, written_tokens}
use codecrafters_shell_c.Parser.Whole.{lex_and_parse-written}
use codecrafters_shell_c.Common.Outcome.{ok, out_of_fuel}
use codecrafters_shell_c.Syntax.{Command, redir_append}
use codecrafters_shell_c.Parser.Parse.{lex_and_parse}
use codecrafters_shell_c.Parser.Total.{lex_and_parse-ne-out_of_fuel}
use codecrafters_shell_c.Parser.Grammar.{IsSmall, Line, conj, semi, line_tokens, line_tree}

-- Blocks of whole words.
instance abbrev in_words : Allocator
in_words = record { usable = λ n. 8 * ((n + 7) / 8) }

instance abbrev words : WholeWords in_words
words = record { words_fit = λ n. omega arith }

abbrev echo : Command
echo = record {
  argv = bytes "echo" ∷ bytes "hi" ∷ [];
  assignment_list = bytes "X=1" ∷ [];
  redirs = record { fd = 2; mode = redir_append; target = bytes "log" } ∷ [];
}

abbrev wc : Command
wc = record { argv = bytes "wc" ∷ []; assignment_list = []; redirs = [] }

-- X=1 echo hi 2>>log | wc && wc ; wc
abbrev sample : Line
sample = record {
  first = record {
    first = record { first = echo; others = wc ∷ [] };
    others = (conj, record { first = wc; others = [] }) ∷ [];
  };
  others = (semi, record { first = record { first = wc; others = [] }; others = [] }) ∷ [];
}

echo-IsSmall : IsSmall echo
echo-IsSmall = record { few_args = omega arith; few_redirs = omega arith; known = (λ e. cc, tt) }

wc-IsSmall : IsSmall wc
wc-IsSmall = record { few_args = omega arith; few_redirs = omega arith; known = tt }

lex_and_parse-ne-out_of_fuel_example : lex_and_parse (bytes "a|b;") ≢ out_of_fuel
lex_and_parse-ne-out_of_fuel_example = lex_and_parse-ne-out_of_fuel (bytes "a|b;")

-- The same line as it is typed.
abbrev sample_lexemes : List (Bytes × Lexeme)
sample_lexemes =
    ([], word b'X' (bytes "=1"))
    ∷ (bytes " ", word b'e' (bytes "cho"))
    ∷ (bytes " ", word b'h' (bytes "i"))
    ∷ (bytes "  ", numbered b'2' greaters)
    ∷ ([], word b'l' (bytes "og"))
    ∷ ([], sign bar)
    ∷ (bytes " ", word b'w' (bytes "c"))
    ∷ ([], sign ampersands)
    ∷ ([], word b'w' (bytes "c"))
    ∷ (bytes " ", sign semicolon)
    ∷ (bytes " ", word b'w' (bytes "c"))
    ∷ []

sample_text : written sample_lexemes (bytes " ") ≡ bytes "X=1 echo hi  2>>log| wc&&wc ; wc "
unfolding written lexeme_text sign_text sign_char is_twice
sample_text = refl

sample-is_readable : is_readable sample_lexemes (bytes " ") ≡ true
unfolding is_readable written lexeme_text sign_text sign_char is_twice reads_as ends_sign plain_from
    is_plain ends_word is_closed is_redirection is_blank all_space toggle_flag isoperator isspace
    isdigit
sample-is_readable = refl

sample_tokens : written_tokens sample_lexemes ≡ line_tokens sample
unfolding lexeme_token sign_fd sign_text sign_type sign_char is_twice word_type
sample_tokens = refl

lex_and_parse-written_example :
    lex_and_parse (written sample_lexemes (bytes " ")) ≡ ok (some (line_tree sample))
lex_and_parse-written_example =
    lex_and_parse-written sample sample_lexemes (bytes " ") sample_tokens
      (
        ((echo-IsSmall, (wc-IsSmall, tt)), ((wc-IsSmall, tt), tt)),
        (((wc-IsSmall, tt), tt), (λ e. cc), tt),
      )
      sample-is_readable

-- A token ends at its spaces, which are read with it; the quotes are kept.
quoted_token : next_token (bytes "a' 'b  c") unquoted ≡ ok (7, unquoted, bytes "a' 'b")
unfolding next_token token_loop token_round token_escape skip_spaces toggle_flag
quoted_token = refl

-- In double quotes the backslash before a plain character is written twice.
doubled_backslash : next_token (bytes "\"\\a\"") unquoted ≡ ok (4, unquoted, bytes "\"\\\\a\"")
unfolding next_token token_loop token_round token_escape is_escapable toggle_flag
doubled_backslash = refl

-- Spaces in front end a token with nothing in it.
leading_space : next_token (bytes " a") unquoted ≡ ok (0, unquoted, [])
unfolding next_token token_loop token_round token_escape skip_spaces
leading_space = refl
