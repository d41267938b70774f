-- ===== src/Lexer/Scan.antt =====
-- src/lexer.c: `lx_scan` and the functions it calls. The pointers `begin` and `end` are offsets
-- into the stream's buffer. Each loop takes fuel, one unit more than the text has bytes.
use codecrafters_shell_c.Common.{
  ℕ, zero, suc, ◌+◌, Bool, true, false, ◌&&◌, ◌||◌, ◌==◌, if◌then◌else◌,
}
use codecrafters_shell_c.Common.Bytes.{isspace, isdigit}
use codecrafters_shell_c.Common.Outcome.{Outcome, ok, out_of_fuel, ◌>>=◌}
use codecrafters_shell_c.Lexer.Stream.{
  CharStream, cs_peek, cs_peek_ahead, skip, eoi, squote, dquote, backslash, backtick, isoperator,
  QuoteFlag, unquoted, single_quoted, double_quoted, toggle_flag, lx_end_of_token,
}
use codecrafters_shell_c.Tokens.{
  TokenType, tok_word, tok_assignment_word, tok_pipe, tok_and, tok_or, tok_semi, tok_amp,
  tok_lparen, tok_rparen, tok_lbrace, tok_rbrace, tok_redir_in, tok_redir_out, tok_redir_append,
  tok_redir_heredoc, tok_newline, tok_eof, tok_err,
}

-- What an operator's scan leaves: its type, the stream, and `end`.
abbrev pub Operator : Type 0
Operator = TokenType × CharStream × ℕ

-- An operator of one character, or of two where the same character follows.
unfoldable pub doubled : CharStream → ℕ → ℕ → TokenType → TokenType → Operator
doubled stream c end twice once =
    if cs_peek_ahead stream 1 == c then (twice, skip stream, end + 1) else (once, stream, end)

-- The switch of `lx_scan_operator`.
unfoldable pub operator_switch : CharStream → ℕ → ℕ → Operator
unfolding doubled
operator_switch stream c end =
    if c == b'|'
    then doubled stream c end tok_or tok_pipe
    else if c == b'&'
    then doubled stream c end tok_and tok_amp
    else if c == b';'
    then (tok_semi, stream, end)
    else if c == b'<'
    then doubled stream c end tok_redir_heredoc tok_redir_in
    else if c == b'>'
    then doubled stream c end tok_redir_append tok_redir_out
    else if c == b'('
    then (tok_lparen, stream, end)
    else if c == b')'
    then (tok_rparen, stream, end)
    else if c == b'{'
    then (tok_lbrace, stream, end)
    else if c == b'}'
    then (tok_rbrace, stream, end)
    else (tok_word, stream, end)

unfoldable pub lx_scan_operator : CharStream → ℕ → ℕ → Operator
unfolding operator_switch
lx_scan_operator stream c end =
    let (result, stream', end') = operator_switch stream c end in (result, skip stream', end' + 1)

-- The stream, `begin` and `end` behind leading white space.
unfoldable pub consume_ws : ℕ → CharStream → ℕ → ℕ → Outcome (CharStream × ℕ × ℕ)
consume_ws zero stream begin end = out_of_fuel
consume_ws (suc f) stream begin end = elim (isspace (cs_peek stream)) [
  | true ↦ consume_ws f (skip stream) (begin + 1) (end + 1)
  | false ↦ ok (stream, begin, end)
]

-- The local variables of `lx_scan`, with the stream and the two offsets it writes.
pub record Scan : Type 0 where
  pub stream : CharStream
  pub begin : ℕ
  pub end : ℕ
  pub flag : QuoteFlag
  pub nextc : ℕ
  pub predicted_type : TokenType

-- How one round of the main loop is left: by `return`, by `break`, or at the loop's test.
pub data Turn : Type 0 where
  returns : TokenType → Scan → Turn
  breaks tests : Scan → Turn

-- `cs_read(stream); (*end)++;`
unfoldable pub read_char : Scan → Scan
read_char s = record s { stream = skip s.stream; end = s.end + 1 }

-- The end of a round.
unfoldable pub end_round : ℕ → Scan → Turn
unfolding read_char
end_round c s = tests (
    read_char
      (record s { predicted_type = if c == b'=' then tok_assignment_word else s.predicted_type }))

-- The loop over a command substitution. `false`: the input ended inside it.
unfoldable pub cmdsub_loop : ℕ → ℕ → Scan → Outcome (Bool × Scan)
unfolding read_char
cmdsub_loop f zero s = ok (true, s)
cmdsub_loop zero (suc depth) s = out_of_fuel
cmdsub_loop (suc f) (suc depth) s =
    let c = cs_peek s.stream in
    elim (c == b')' || c == backtick) [
      | true ↦ cmdsub_loop f depth (read_char s)
      | false ↦ elim (c == b'(') [
        | true ↦ cmdsub_loop f (suc (suc depth)) (read_char s)
        | false ↦ elim (c == eoi) [
          | true ↦ ok (false, s)
          | false ↦ cmdsub_loop f (suc depth) (read_char s)
        ]
      ]
    ]

unfoldable pub after_cmdsub : Bool × Scan → Turn
after_cmdsub (true, s) = tests (record s { nextc = cs_peek s.stream })
after_cmdsub (false, s) = returns tok_err s

unfoldable pub scan_cmdsub : Scan → Outcome Turn
unfolding cmdsub_loop after_cmdsub
scan_cmdsub s = do left ← cmdsub_loop (suc s.stream.len) 1 s; ok (after_cmdsub left)

-- `$` or a backtick outside quotes.
unfoldable pub scan_dollar : ℕ → Scan → Outcome Turn
unfolding scan_cmdsub end_round
scan_dollar c s =
    if c == b'$'
    then if s.nextc == b'(' then scan_cmdsub (read_char (read_char s)) else ok (end_round c s)
    else scan_cmdsub (read_char s)

-- A backslash outside quotes.
unfoldable pub scan_backslash : ℕ → Scan → Turn
unfolding end_round
scan_backslash c s =
    if s.nextc == b'n'
    then breaks (record (read_char s) { predicted_type = tok_newline })
    else if s.nextc == squote || s.nextc == dquote
    then tests (read_char s)
    else if s.nextc == b' '
    then tests (record s {
      stream = skip s.stream;
      end = s.end + 1 + 1;
      nextc = cs_peek_ahead (skip s.stream) 1;
    })
    else end_round c s

-- An operator that a redirection or the start of a token meets.
unfoldable pub return_operator : ℕ → Scan → Turn
unfolding lx_scan_operator
return_operator c s =
    let (type, stream', end') = lx_scan_operator s.stream c s.end in
    returns type (record s { stream = stream'; end = end' })

unfoldable pub scan_unquoted : ℕ → Scan → Outcome Turn
unfolding return_operator scan_dollar scan_backslash
scan_unquoted c s =
    if isoperator c
    then ok (if s.end == s.begin then return_operator c s else returns s.predicted_type s)
    else if c == b'$' || c == backtick
    then scan_dollar c s
    else if c == squote || c == dquote
    then ok (end_round c (record s { flag = toggle_flag c s.flag }))
    else if c == backslash
    then ok (scan_backslash c s)
    else if isdigit c && s.end == s.begin && (s.nextc == b'<' || s.nextc == b'>')
    then ok (return_operator (cs_peek (skip s.stream)) (read_char s))
    else ok (end_round c s)

-- Inside quotes; `q` is the quote that closes.
unfoldable pub scan_quoted : ℕ → ℕ → Scan → Turn
unfolding end_round
scan_quoted q c s =
    if c == q
    then end_round c (record s { flag = toggle_flag c s.flag })
    else if c == eoi
    then returns tok_err s
    else end_round c s

unfoldable pub scan_flag : QuoteFlag → ℕ → Scan → Outcome Turn
unfolding scan_quoted scan_unquoted
scan_flag single_quoted c s = ok (scan_quoted squote c s)
scan_flag double_quoted c s = ok (scan_quoted dquote c s)
scan_flag unquoted c s = scan_unquoted c s

-- One round of the main loop.
unfoldable pub scan_round : Scan → Outcome Turn
unfolding scan_flag
scan_round s =
    let c = cs_peek s.stream in scan_flag s.flag c (record s { nextc = cs_peek_ahead s.stream 1 })

-- Behind the main loop: an open quote is an error.
unfoldable pub leave : QuoteFlag → Scan → TokenType × Scan
leave unquoted s = (s.predicted_type, s)
leave single_quoted s = (tok_err, s)
leave double_quoted s = (tok_err, s)

unfoldable pub scan_loop : ℕ → Scan → Outcome (TokenType × Scan)
unfolding leave
scan_loop zero s = out_of_fuel
scan_loop (suc f) s = scan_round s >>= elim [
  | returns type s' ↦ ok (type, s')
  | breaks s' ↦ ok (leave s'.flag s')
  | tests s' ↦ elim (lx_end_of_token s'.nextc s'.flag) [
    | true ↦ ok (leave s'.flag s')
    | false ↦ scan_loop f s'
  ]
]

-- The locals of `lx_scan` where the token starts.
unfoldable pub start_scan : CharStream → ℕ → ℕ → Scan
start_scan stream begin end = record {
  stream = stream;
  begin = begin;
  end = end;
  flag = unquoted;
  nextc = cs_peek stream;
  predicted_type = tok_word;
}

-- The scan of a token that starts at `begin`, behind the white space.
unfoldable pub scan_from : CharStream × ℕ × ℕ → Outcome (TokenType × Scan)
unfolding scan_loop start_scan
scan_from (stream, begin, end) =
    if cs_peek stream == eoi
    then ok (tok_eof, start_scan stream begin end)
    else scan_loop (suc stream.len) (start_scan stream begin end)

unfoldable pub lx_scan : CharStream → Outcome (TokenType × Scan)
unfolding scan_from consume_ws
lx_scan stream =
    let c = cs_peek stream in
    let pos = stream.pos in
    if isspace c
    then if c == 10
      then ok (tok_newline, start_scan (skip stream) pos (pos + 1))
      else consume_ws (suc stream.len) stream pos pos >>= scan_from
    else scan_from (stream, pos, pos)
