-- ===== src/Lexer/Taking.antt =====
-- src/lexer.c: `lx_token` at a lexeme of a line.
use codecrafters_shell_c.Common.{
  ℕ, suc, ◌+◌, ◌≡◌, ◌⊎◌, refl, ◌∙◌, true, false, ◌&&◌, ◌==◌, if◌then◌else◌, some, ◌∷◌, ◌++◌, ap,
  inl, inr, and_true, arith, length, length-append,
}
use codecrafters_shell_c.Common.Bytes.{Bytes, isdigit}
use codecrafters_shell_c.Common.Outcome.{ok}
use codecrafters_shell_c.Lexer.Stream.{unquoted, eoi}
use codecrafters_shell_c.Lexer.Scan.{Scan, start_scan, scan_from, scan_loop}
use codecrafters_shell_c.Lexer.Tokenize.{token_text, make_token, redir_token, lx_token, is_redir}
use codecrafters_shell_c.Lexer.Places.{
  place, Behind, next, peek-Behind, length-Behind, append-Behind,
}
use codecrafters_shell_c.Lexer.Words.{at, word_type, scan_loop-plain}
use codecrafters_shell_c.Lexer.Signs.{
  sign_char, LineOperator, bar, less, lesses, greater, greaters, sign_text, sign_type, ends_sign,
  is_redirection,
}
use codecrafters_shell_c.Lexer.SignScan.{scan_loop-sign_text, scan_loop-numbered}
use codecrafters_shell_c.Lexer.Blanks.{is_blank, lx_scan-is_blank}
use codecrafters_shell_c.Lexer.Lexemes.{
  Lexeme, word, sign, numbered, lexeme_text, lexeme_token, sign_fd, reads_as, reads_as-first,
  token_text-Behind, word_type-cases, redir_token-sign, redir_token-numbered,
}
use codecrafters_shell_c.Tokens.{TokenType, tok_word, tok_assignment_word, newtok, token_new}

-- The scan from the start of a lexeme to its end.
scan_loop-lexeme_text :
    (text : Bytes) (p n : ℕ) (l : Lexeme) (rest : Bytes)
    → Behind text p (lexeme_text l ++ rest)
    → reads_as l (next rest) ≡ true
    → (m : ℕ) × (t : TokenType) × (scan_loop (suc (length text)) (at text p p unquoted n tok_word)
        ≡ ok ((lexeme_token l).type, at text p (p + length (lexeme_text l)) unquoted m t))
unfolding lexeme_text lexeme_token reads_as
scan_loop-lexeme_text text p n (word c cs) rest b h =
    let same : (p == p) ≡ true = ground arith in
    let (m, run) =
      scan_loop-plain (suc (length text)) text p p tok_word unquoted n c cs rest
        (p + suc (length cs)) b (omega arith) (rw same h)
        (omega (arith, length-Behind text p _ b, length-append cs rest)) refl in
    (m, word_type tok_word (c ∷ cs), run)
scan_loop-lexeme_text text p n (sign s) rest b h =
    let (m, run) = scan_loop-sign_text text p s rest (length text) n b h in (m, tok_word, run)
scan_loop-lexeme_text text p n (numbered d s) rest b h =
    let (front, behind) = and_true (isdigit d && is_redirection s) (ends_sign s (next rest)) h in
    let (digit, redir) = and_true (isdigit d) (is_redirection s) front in
    let (m, run) = scan_loop-numbered text p s rest (length text) n d digit redir b behind in
    let ends : suc p + length (sign_text s) ≡ p + suc (length (sign_text s)) = omega arith in
    (m, tok_word, run ∙ rw ends refl)

make_word :
    (type : TokenType) (s : Scan) (arr : Bytes)
    → token_text s ≡ ok arr
    → (type ≡ tok_word) ⊎ (type ≡ tok_assignment_word)
    → make_token type s ≡ ok (0, some (newtok type arr))
unfolding make_token
make_word type s arr e (inl w) = rw (w, e) refl
make_word type s arr e (inr a) = rw (a, e) refl

make_sign :
    (o : LineOperator) (s : Scan) (arr : Bytes)
    → token_text s ≡ ok arr
    → make_token (sign_type o) s
      ≡ ok (
          if is_redir (sign_type o)
          then redir_token (sign_type o) arr
          else (0, some (newtok (sign_type o) arr)))
unfolding make_token sign_type
make_sign bar s arr e = rw e refl
make_sign _ s arr e = rw e refl

-- What is made of an operator.
sign_made :
    (o : LineOperator)
    → (if is_redir (sign_type o)
        then redir_token (sign_type o) (sign_text o)
        else (0, some (newtok (sign_type o) (sign_text o))))
      ≡ (0, some (token_new (sign_type o) (sign_text o) (sign_fd o)))
unfolding is_redir sign_type sign_fd
sign_made less = redir_token-sign less
sign_made lesses = redir_token-sign lesses
sign_made greater = redir_token-sign greater
sign_made greaters = redir_token-sign greaters
sign_made _ = refl

is_redirection-is_redir :
    (o : LineOperator) → is_redirection o ≡ true → is_redir (sign_type o) ≡ true
unfolding is_redirection is_redir sign_type sign_char
is_redirection-is_redir bar h = cc
is_redirection-is_redir _ h = cc

make_token-lexeme_token :
    (text : Bytes) (p m : ℕ) (t : TokenType) (l : Lexeme) (rest : Bytes)
    → Behind text p (lexeme_text l ++ rest)
    → reads_as l (next rest) ≡ true
    → make_token (lexeme_token l).type (at text p (p + length (lexeme_text l)) unquoted m t)
      ≡ ok (0, some (lexeme_token l))
unfolding lexeme_text lexeme_token reads_as
make_token-lexeme_token text p m t (word c cs) rest b h =
    make_word _ _ (c ∷ cs) (token_text-Behind text p m t (c ∷ cs) rest b)
      (word_type-cases tok_word (c ∷ cs) (inl refl))
make_token-lexeme_token text p m t (sign s) rest b h =
    make_sign s _ _ (token_text-Behind text p m t (sign_text s) rest b) ∙ ap ok (sign_made s)
make_token-lexeme_token text p m t (numbered d s) rest b h =
    let (front, behind) = and_true (isdigit d && is_redirection s) (ends_sign s (next rest)) h in
    let (digit, redir) = and_true (isdigit d) (is_redirection s) front in
    make_sign s _ _ (token_text-Behind text p m t (d ∷ sign_text s) rest b)
    ∙ rw (is_redirection-is_redir s redir, redir_token-numbered d s digit) refl

scan_from-at :
    (text : Bytes) (p : ℕ) (rest : Bytes)
    → Behind text p rest
    → (next rest == eoi) ≡ false
    → scan_from (place text p, p, p)
      ≡ scan_loop (suc (length text)) (at text p p unquoted (next rest) tok_word)
unfolding scan_from start_scan
scan_from-at text p rest b h = rw (peek-Behind text p rest b, h) refl

-- A lexeme behind blanks is taken as its token.
pub lx_token-lexeme_token :
    (text : Bytes) (p q : ℕ) (gap : Bytes) (l : Lexeme) (rest : Bytes)
    → Behind text p (gap ++ (lexeme_text l ++ rest))
    → is_blank gap ≡ true
    → reads_as l (next rest) ≡ true
    → p + length gap + length (lexeme_text l) ≡ q
    → lx_token (place text p) ≡ ok ((0, some (lexeme_token l)), place text q)
unfolding lx_token
lx_token-lexeme_token text p q gap l rest b h k e =
    let start = p + length gap in
    let here = append-Behind text p start gap (lexeme_text l ++ rest) b refl in
    let (space, end) = reads_as-first l rest k in
    let (m, t, run) =
      scan_loop-lexeme_text text start (next (lexeme_text l ++ rest)) l rest here k in
    rw
      (
        lx_scan-is_blank text p start gap (lexeme_text l ++ rest) b h space refl,
        scan_from-at text start (lexeme_text l ++ rest) here end ∙ run,
        make_token-lexeme_token text start m t l rest here k,
        e,
      )
      refl
