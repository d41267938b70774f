-- ===== src/Parser/Stream.antt =====
-- src/parsetypes.c: `TokenStream`, an array of tokens with a position.
use codecrafters_shell_c.Common.{
  ℕ, ◌+◌, ◌-◌, Bool, true, false, List, [], ◌==◌, leb, if◌then◌else◌, Option, none, some, get_or,
}
use codecrafters_shell_c.Tokens.{TokenType, tok_err, Token, newtok, TokenList, same_type}

pub record TokenStream : Type 0 where
  pub len : ℕ
  pub pos : ℕ
  pub tokens : List Token

unfoldable pub ts_new : TokenList → TokenStream
ts_new list = record { len = list.size; pos = 0; tokens = list.tokens }

-- `tokens[i]`. Parser/Progress shows that the positions read are in range; the token that stands
-- for one out of range is never met.
abbrev pub token_at : TokenStream → ℕ → Token
token_at stream i = get_or stream.tokens i (newtok tok_err [])

unfoldable pub ts_peek : TokenStream → Token
ts_peek stream = token_at stream stream.pos

unfoldable pub ts_peek_ahead : TokenStream → ℕ → Token
ts_peek_ahead stream n =
    if leb stream.len (stream.pos + n)
    then token_at stream (stream.len - 1)
    else token_at stream (stream.pos + n)

-- The last token stays where it is.
unfoldable pub ts_read : TokenStream → Token × TokenStream
ts_read stream =
    if stream.pos + 1 == stream.len
    then (token_at stream (stream.len - 1), stream)
    else (token_at stream stream.pos, record stream { pos = stream.pos + 1 })

unfoldable pub ts_check : TokenStream → TokenType → Bool
unfolding ts_peek
ts_check stream type = same_type (ts_peek stream).type type

unfoldable pub ts_match : TokenStream → TokenType → Bool × TokenStream
unfolding ts_peek ts_read
ts_match stream type =
    if same_type (ts_peek stream).type type then (true, (ts_read stream).1) else (false, stream)

-- A null pointer where the next token is of another type.
unfoldable pub ts_expect : TokenStream → TokenType → Option Token × TokenStream
unfolding ts_check ts_read
ts_expect stream type =
    if ts_check stream type then (some (ts_read stream).0, (ts_read stream).1) else (none, stream)

unfoldable pub ts_at_end : TokenStream → Bool
ts_at_end stream = stream.pos + 1 == stream.len

unfoldable pub ts_remaining : TokenStream → ℕ
ts_remaining stream = stream.len - stream.pos
