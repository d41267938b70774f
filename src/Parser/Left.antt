-- ===== src/Parser/Left.antt =====
-- src/parsetypes.c: the token stream seen as the tokens that are left before the last one.
use codecrafters_shell_c.Common.{
  suc, ◌+◌, ◌-◌, ◌≡◌, refl, ap, ◌∙◌, false, List, [], ◌∷◌, ◌++◌, arith, length, length-append,
  length-drop, drop, head_or, tail, get_or-drop, drop-suc,
}
use codecrafters_shell_c.Tokens.{TokenType, tok_eof, tok_err, Token, newtok, TokenList, same_type}
use codecrafters_shell_c.Tokens.Laws.{IsCounted}
use codecrafters_shell_c.Parser.Stream.{
  TokenStream, token_at, ts_new, ts_peek, ts_read, ts_check, ts_at_end,
}

-- The tokens `ts` are left, and behind them `e`, the last one, which is TOK_EOF.
pub record Left (s : TokenStream) (ts : List Token) (e : Token) : Type 0 where
  pub left : drop s.pos s.tokens ≡ ts ++ e ∷ []
  pub sized : s.len ≡ length s.tokens
  pub last : e.type ≡ tok_eof

module _ (s : TokenStream) (e : Token) where
  pub Left-length : (ts : List Token) → Left s ts e → length ts + 1 + s.pos ≡ s.len
  Left-length ts h =
      omega
        (arith, ap length h.left, length-append ts (e ∷ []), length-drop s.pos s.tokens, h.sized)

  token_at-Left : (t : Token) (ts : List Token) → Left s (t ∷ ts) e → token_at s s.pos ≡ t
  token_at-Left t ts h =
      get_or-drop s.pos s.tokens (newtok tok_err []) ∙ ap (head_or (newtok tok_err [])) h.left

  token_at-Left_last : Left s [] e → token_at s s.pos ≡ e
  token_at-Left_last h =
      get_or-drop s.pos s.tokens (newtok tok_err []) ∙ ap (head_or (newtok tok_err [])) h.left

  pub ts_peek-Left : (t : Token) (ts : List Token) → Left s (t ∷ ts) e → ts_peek s ≡ t
  unfolding ts_peek
  ts_peek-Left t ts h = token_at-Left t ts h

  pub ts_peek-Left_last : Left s [] e → ts_peek s ≡ e
  unfolding ts_peek
  ts_peek-Left_last h = token_at-Left_last h

  ts_read_on :
      (t : Token) (ts : List Token)
      → Left s (t ∷ ts) e
      → ts_read s ≡ (t, record s { pos = s.pos + 1 })
  unfolding ts_read
  ts_read_on t ts h = ground (arith, Left-length (t ∷ ts) h, token_at-Left t ts h)

  -- A read takes the first token that is left.
  pub ts_read-Left :
      (t : Token) (ts : List Token)
      → Left s (t ∷ ts) e
      → ((ts_read s).0 ≡ t) × Left (ts_read s).1 ts e
  ts_read-Left t ts h = rw (ts_read_on t ts h) (
    refl,
    record {
      left =
          ap (λ n. drop n s.tokens) {y = suc s.pos} (omega arith)
          ∙ drop-suc s.pos s.tokens
          ∙ ap tail h.left;
      sized = h.sized;
      last = h.last;
    },
  )

  -- At the last token a read stays.
  pub ts_read-Left_last : Left s [] e → ts_read s ≡ (e, s)
  unfolding ts_read
  ts_read-Left_last h =
      let here : s.len - 1 ≡ s.pos = omega (arith, Left-length [] h) in
      rw here (ground (arith, Left-length [] h, token_at-Left_last h))

  -- The tests, on the token that comes next.
  pub ts_check-Left :
      (t : Token) (ts : List Token) (type : TokenType)
      → Left s (t ∷ ts) e
      → ts_check s type ≡ same_type t.type type
  unfolding ts_check
  ts_check-Left t ts type h = ap (λ (u : Token). same_type u.type type) (ts_peek-Left t ts h)

  pub ts_check-Left_last :
      (type : TokenType) → Left s [] e → ts_check s type ≡ same_type tok_eof type
  unfolding ts_check
  ts_check-Left_last type h =
      ap (λ (u : Token). same_type u.type type) (ts_peek-Left_last h)
      ∙ ap (λ u. same_type u type) h.last

  pub ts_at_end-Left : (t : Token) (ts : List Token) → Left s (t ∷ ts) e → ts_at_end s ≡ false
  unfolding ts_at_end
  ts_at_end-Left t ts h = ground (arith, Left-length (t ∷ ts) h)

-- The stream of a token list whose stored size is right and whose last token is TOK_EOF.
pub ts_new-Left :
    (list : TokenList) (ts : List Token) (e : Token)
    → IsCounted list
    → list.tokens ≡ ts ++ e ∷ []
    → e.type ≡ tok_eof
    → Left (ts_new list) ts e
unfolding ts_new
ts_new-Left list ts e counted h last = record { left = h; sized = counted; last = last }
