-- ===== src/Lexer/Tokenize.antt =====
-- src/lexer.c: `is_redir`, `lx_token` and `lx_tokenize`. `errno` is part of the result, 0 where
-- it was not set; the message that `perror` prints has no counterpart.
use codecrafters_shell_c.Common.{
  ℕ, zero, suc, ◌+◌, ◌-◌, ◌*◌, Bool, true, false, leb, ltb, if◌then◌else◌, Option, none, some, [],
  ◌∷◌, take, drop,
}
use codecrafters_shell_c.Common.Bytes.{Bytes, isdigit}
use codecrafters_shell_c.Common.Outcome.{Outcome, ok, fault, out_of_fuel, ◌>>=◌}
use codecrafters_shell_c.Lexer.Stream.{CharStream}
use codecrafters_shell_c.Lexer.Scan.{Scan, lx_scan}
use codecrafters_shell_c.Tokens.{
  TokenType, tok_redir_in, tok_redir_out, tok_redir_append, tok_redir_heredoc, tok_eof, tok_err,
  Token, TokenList, newtok, token_new, tokenlist_append_tok,
}

unfoldable pub is_redir : TokenType → Bool
is_redir tok_redir_append = true
is_redir tok_redir_heredoc = true
is_redir tok_redir_in = true
is_redir tok_redir_out = true
is_redir _ = false

abbrev pub int_max : ℕ
int_max = 2147483647

abbrev pub einval : ℕ
einval = 22

abbrev pub erange : ℕ
erange = 34

-- The text from `begin` to `end`, up to the NUL behind the buffer's `len` bytes. The block that
-- holds the buffer has `len + 1` bytes, and `memcpy` must not read past it.
unfoldable pub token_text : Scan → Outcome Bytes
token_text s =
    if ltb (s.stream.len + 1) s.end
    then fault
    else ok (take (s.end - s.begin) (drop s.begin s.stream.bytes))

-- The digits that a text begins with, as `strtol` reads them, from `n` on. The text of a
-- redirection begins with a digit or with its operator, so there is no sign or space to skip.
unfoldable pub strtol : Bytes → ℕ → ℕ
strtol [] n = n
strtol (c ∷ cs) n = if isdigit c then strtol cs (n * 10 + (c - 48)) else n

unfoldable pub starts_with_digit : Bytes → Bool
starts_with_digit [] = false
starts_with_digit (c ∷ cs) = isdigit c

-- The descriptor of a redirection that names none.
unfoldable pub default_fd : TokenType → ℕ
default_fd tok_redir_in = 0
default_fd tok_redir_heredoc = 0
default_fd tok_redir_out = 1
default_fd tok_redir_append = 1
default_fd _ = 0

-- `errno`, and the token or a null pointer.
abbrev pub Lexed : Type 0
Lexed = ℕ × Option Token

unfoldable pub redir_token : TokenType → Bytes → Lexed
unfolding strtol starts_with_digit default_fd
redir_token type arr =
    let fdl = strtol arr 0 in
    if leb int_max fdl
    then (erange, none)
    else if starts_with_digit arr
    then (0, some (token_new type arr fdl))
    else (0, some (token_new type arr (default_fd type)))

unfoldable pub make_token : TokenType → Scan → Outcome Lexed
unfolding token_text redir_token is_redir
make_token tok_eof s = ok (0, some (newtok tok_eof []))
make_token tok_err s = ok (einval, none)
make_token type s = do
  arr ← token_text s
  ok (if is_redir type then redir_token type arr else (0, some (newtok type arr)))

unfoldable pub lx_token : CharStream → Outcome (Lexed × CharStream)
unfolding make_token
lx_token stream = do (type, s) ← lx_scan stream; lexed ← make_token type s; ok (lexed, s.stream)

unfoldable pub is_eof : TokenType → Bool
is_eof tok_eof = true
is_eof _ = false

-- `errno`, the token list, and the stream.
unfoldable pub tokenize_loop : ℕ → TokenList → CharStream → Outcome (ℕ × TokenList × CharStream)
unfolding is_eof
tokenize_loop zero dst stream = out_of_fuel
tokenize_loop (suc f) dst stream = lx_token stream >>= λ (lexed, stream'). elim lexed.1 [
  | none ↦ ok (lexed.0, dst, stream')
  | some tok ↦
      let dst' = tokenlist_append_tok dst (tok ∷ []) in
      elim (is_eof tok.type) [
        | true ↦ ok (lexed.0, dst', stream')
        | false ↦ tokenize_loop f dst' stream'
      ]
]

unfoldable pub lx_tokenize : TokenList → CharStream → Outcome (ℕ × TokenList × CharStream)
unfolding tokenize_loop
lx_tokenize dst stream = tokenize_loop (suc stream.len) dst stream
