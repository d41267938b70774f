-- ===== src/Lexer/SignScan.antt =====
-- src/lexer.c: an operator at the start of a token, scanned.
use codecrafters_shell_c.Common.{
  ℕ, suc, ◌+◌, ◌≡◌, refl, ◌∙◌, true, ◌==◌, ◌∷◌, ◌++◌, ap, arith, length,
}
use codecrafters_shell_c.Common.Bytes.{Bytes, isdigit}
use codecrafters_shell_c.Common.Outcome.{ok}
use codecrafters_shell_c.Lexer.Stream.{
  isoperator, QuoteFlag, unquoted, cs_peek, cs_peek_ahead, skip,
}
use codecrafters_shell_c.Lexer.Scan.{
  Scan, Operator, returns, read_char, scan_round, scan_loop, scan_flag, scan_unquoted,
  return_operator,
}
use codecrafters_shell_c.Lexer.Places.{
  place, Behind, next, next-Behind, peek-Behind, skip-Behind, ahead-Behind,
}
use codecrafters_shell_c.Lexer.Words.{at}
use codecrafters_shell_c.Tokens.{TokenType, tok_word}
use codecrafters_shell_c.Lexer.Signs.{
  LineOperator, sign_char, sign_text, sign_type, ends_sign, is_redirection, next-sign_text,
  sign_char-isoperator, lx_scan_operator-sign_text,
}

scan_loop_return :
    (f : ℕ) (s t : Scan) (type : TokenType)
    → scan_round s ≡ ok (returns type t)
    → scan_loop (suc f) s ≡ ok (type, t)
unfolding scan_loop
scan_loop_return f s t type e = rw e refl

scan_round-at :
    (text : Bytes) (begin p n : ℕ) (flag : QuoteFlag) (type : TokenType) (c : ℕ) (rest : Bytes)
    → Behind text p (c ∷ rest)
    → scan_round (at text begin p flag n type)
      ≡ scan_flag flag c (at text begin p flag (next rest) type)
unfolding scan_round
scan_round-at text begin p n flag type c rest b =
    rw (peek-Behind text p (c ∷ rest) b, ahead-Behind text p c rest b) refl

return_operator-sign_text :
    (text : Bytes) (begin p n : ℕ) (s : LineOperator) (rest : Bytes)
    → Behind text p (sign_text s ++ rest)
    → ends_sign s (next rest) ≡ true
    → return_operator (sign_char s) (at text begin p unquoted n tok_word)
      ≡ returns (sign_type s) (at text begin (p + length (sign_text s)) unquoted n tok_word)
unfolding return_operator
return_operator-sign_text text begin p n s rest b h =
    ap
      (λ (r : Operator).
        returns r.0 (record (at text begin p unquoted n tok_word) { stream = r.1; end = r.2 }))
      (lx_scan_operator-sign_text text p s p rest b h)

module _ (text : Bytes) (p : ℕ) (s : LineOperator) (rest : Bytes) where
  scan_round-sign_text :
      (n : ℕ)
      → Behind text p (sign_text s ++ rest)
      → ends_sign s (next rest) ≡ true
      → scan_round (at text p p unquoted n tok_word)
        ≡ ok (
            returns (sign_type s) (
              at text p
                (p + length (sign_text s))
                unquoted
                (cs_peek_ahead (place text p) 1)
                tok_word))
  unfolding scan_round scan_flag scan_unquoted
  scan_round-sign_text n b h =
      let same : (p == p) ≡ true = ground arith in
      rw
        (
          peek-Behind text p (sign_text s ++ rest) b,
          next-sign_text s rest,
          sign_char-isoperator s,
          same,
          return_operator-sign_text text p p (cs_peek_ahead (place text p) 1) s rest b h,
        )
        refl

  -- An operator at the start of a token.
  pub scan_loop-sign_text :
      (f n : ℕ)
      → Behind text p (sign_text s ++ rest)
      → ends_sign s (next rest) ≡ true
      → (m : ℕ) × (scan_loop (suc f) (at text p p unquoted n tok_word)
          ≡ ok (sign_type s, at text p (p + length (sign_text s)) unquoted m tok_word))
  scan_loop-sign_text f n b h =
      (cs_peek_ahead (place text p) 1, scan_loop_return f _ _ _ (scan_round-sign_text n b h))

  scan_unquoted-numbered :
      (d : ℕ)
      → isdigit d ≡ true
      → is_redirection s ≡ true
      → Behind text p (d ∷ (sign_text s ++ rest))
      → ends_sign s (next rest) ≡ true
      → scan_unquoted d (at text p p unquoted (sign_char s) tok_word)
        ≡ ok (
            returns
              (sign_type s)
              (at text p (suc p + length (sign_text s)) unquoted (sign_char s) tok_word))
  unfolding scan_unquoted read_char isdigit isoperator is_redirection
  scan_unquoted-numbered d digit redir b h =
      let same : (p == p) ≡ true = ground arith in
      let behind = next-Behind text p d (sign_text s ++ rest) b in
      let here : cs_peek (skip (place text p)) ≡ sign_char s =
        rw (skip-Behind text p d (sign_text s ++ rest) b)
          (peek-Behind text (suc p) (sign_text s ++ rest) behind ∙ next-sign_text s rest) in
      let read : read_char (at text p p unquoted (sign_char s) tok_word)
          ≡ at text p (suc p) unquoted (sign_char s) tok_word =
        rw (skip-Behind text p d (sign_text s ++ rest) b) (ground arith) in
      ground
        (arith, here, read, return_operator-sign_text text p (suc p) (sign_char s) s rest behind h)

  scan_round-numbered :
      (n d : ℕ)
      → isdigit d ≡ true
      → is_redirection s ≡ true
      → Behind text p (d ∷ (sign_text s ++ rest))
      → ends_sign s (next rest) ≡ true
      → scan_round (at text p p unquoted n tok_word)
        ≡ ok (
            returns
              (sign_type s)
              (at text p (suc p + length (sign_text s)) unquoted (sign_char s) tok_word))
  unfolding scan_flag
  scan_round-numbered n d digit redir b h =
      scan_round-at text p p n unquoted tok_word d (sign_text s ++ rest) b
      ∙ ap (λ x. scan_flag unquoted d (at text p p unquoted x tok_word)) (next-sign_text s rest)
      ∙ scan_unquoted-numbered d digit redir b h

  -- A redirection with a digit before it.
  pub scan_loop-numbered :
      (f n d : ℕ)
      → isdigit d ≡ true
      → is_redirection s ≡ true
      → Behind text p (d ∷ (sign_text s ++ rest))
      → ends_sign s (next rest) ≡ true
      → (m : ℕ) × (scan_loop (suc f) (at text p p unquoted n tok_word)
          ≡ ok (sign_type s, at text p (suc p + length (sign_text s)) unquoted m tok_word))
  scan_loop-numbered f n d digit redir b h =
      (sign_char s, scan_loop_return f _ _ _ (scan_round-numbered n d digit redir b h))
