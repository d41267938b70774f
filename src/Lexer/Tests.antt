-- ===== src/Lexer/Tests.antt =====
-- src/lexer.c run on short lines, and the theorems about it at such lines.
use codecrafters_shell_c.Common.{◌≡◌, refl, List, [], ◌∷◌}
use codecrafters_shell_c.Common.{true, length, ◌++◌}
use codecrafters_shell_c.Lexer.Stream.{squote}
use codecrafters_shell_c.Lexer.Words.{plain_from, is_plain, ends_word, is_closed}
use codecrafters_shell_c.Lexer.Signs.{
  greater, sign_text, sign_char, is_twice, ends_sign, is_redirection,
}
use codecrafters_shell_c.Lexer.Blanks.{is_blank, all_space}
use codecrafters_shell_c.Lexer.Lexemes.{Lexeme, word, sign, lexeme_text, reads_as}
use codecrafters_shell_c.Lexer.Written.{written, is_readable, written_tokens, lx_tokenize-written}
use codecrafters_shell_c.Common.Bytes.{Bytes, bytes, isspace, isdigit}
use codecrafters_shell_c.Common.Outcome.{Outcome, ok, fault, ◌>>=◌, Stops}
use codecrafters_shell_c.Lexer.Stream.{
  cs_new, cs_peek, cs_peek_ahead, skip, isoperator, toggle_flag, lx_end_of_token,
}
use codecrafters_shell_c.Lexer.Scan.{lx_scan, scan_round}
use codecrafters_shell_c.Lexer.Tokenize.{lx_tokenize, lx_token}
use codecrafters_shell_c.Lexer.Total.{EndsInEof, lx_tokenize-Stops}
use codecrafters_shell_c.Tokens.{
  Token, tokenlist_new_empty, token_new, newtok, tok_word, tok_redir_append, tok_pipe, tok_eof,
  tok_newline, tokenlist_append_tok,
}
use codecrafters_shell_c.Tokens.Laws.{IsCounted}

-- The tokens of a line.
tokens_of : Bytes → Outcome (List Token)
unfolding lx_tokenize lx_token lx_scan cs_new cs_peek cs_peek_ahead skip isspace isdigit isoperator
    toggle_flag lx_end_of_token scan_round tokenlist_new_empty tokenlist_append_tok
tokens_of text = lx_tokenize tokenlist_new_empty (cs_new text) >>= λ r. ok r.1.tokens

-- A descriptor before `>>`, and operators that end a word.
redirection :
    tokens_of (bytes "hi 2>>f|x")
    ≡ ok (
        newtok tok_word (bytes "hi")
        ∷ token_new tok_redir_append (bytes "2>>") 2
        ∷ newtok tok_word (bytes "f")
        ∷ newtok tok_pipe (bytes "|")
        ∷ newtok tok_word (bytes "x")
        ∷ newtok tok_eof []
        ∷ [])
unfolding tokens_of
redirection = refl

-- An escaped space moves the end of the token one byte too far: the token has the space behind it.
escaped_space :
    tokens_of (bytes "a\\ b c")
    ≡ ok (newtok tok_word (bytes "a\\ b ") ∷ newtok tok_word (bytes "c") ∷ newtok tok_eof [] ∷ [])
unfolding tokens_of
escaped_space = refl

-- With two of them at the end of the line the text is read beyond the buffer.
escaped_spaces : tokens_of (bytes "a\\ b\\ c") ≡ fault
unfolding tokens_of
escaped_spaces = refl

-- A backslash before the letter n ends the token as TOK_NEWLINE.
backslash_n :
    tokens_of (bytes "a\\nb")
    ≡ ok (newtok tok_newline (bytes "a\\") ∷ newtok tok_word (bytes "nb") ∷ newtok tok_eof [] ∷ [])
unfolding tokens_of
backslash_n = refl

abbrev short_line : Bytes
short_line = bytes " ls -l|wc"

lx_tokenize-Stops_example :
    Stops
      (λ (errno, list, stream). IsCounted list × (errno ≡ 0 → EndsInEof list.tokens))
      (lx_tokenize tokenlist_new_empty (cs_new short_line))
lx_tokenize-Stops_example = lx_tokenize-Stops short_line

-- 'a b'>f
abbrev quoted : List (Bytes × Lexeme)
quoted = (bytes " ", word squote (bytes "a b'")) ∷ ([], sign greater) ∷ ([], word b'f' []) ∷ []

quoted-is_readable : is_readable quoted [] ≡ true
unfolding is_readable written lexeme_text sign_text sign_char is_twice reads_as ends_sign plain_from
    is_plain ends_word is_closed is_redirection is_blank all_space toggle_flag isoperator isspace
    isdigit
quoted-is_readable = refl

lx_tokenize-written_example :
    lx_tokenize tokenlist_new_empty (cs_new (written quoted []))
    ≡ ok (
      0,
      record { size = 4; tokens = written_tokens quoted ++ newtok tok_eof [] ∷ [] },
      record (cs_new (written quoted [])) { pos = length (written quoted []) },
    )
lx_tokenize-written_example = lx_tokenize-written quoted [] quoted-is_readable
