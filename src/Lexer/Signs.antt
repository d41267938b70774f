-- ===== src/Lexer/Signs.antt =====
-- src/lexer.c: the operators of a line, independently of the scanner, and their scan.
use codecrafters_shell_c.Common.{
  ℕ, suc, ◌+◌, ◌≡◌, refl, Bool, true, false, not, ◌||◌, ◌==◌, if◌then◌else◌, [], ◌∷◌, ◌++◌, arith,
  length,
}
use codecrafters_shell_c.Common.Bytes.{Bytes}
use codecrafters_shell_c.Lexer.Stream.{isoperator, skip}
use codecrafters_shell_c.Lexer.Scan.{Operator, doubled, operator_switch, lx_scan_operator}
use codecrafters_shell_c.Lexer.Places.{place, Behind, next, next-Behind, skip-Behind, ahead-Behind}
use codecrafters_shell_c.Tokens.{
  TokenType, tok_pipe, tok_or, tok_amp, tok_and, tok_semi, tok_redir_in, tok_redir_heredoc,
  tok_redir_out, tok_redir_append,
}

pub data LineOperator : Type 0 where
  bar bars ampersand ampersands semicolon less lesses greater greaters : LineOperator

unfoldable pub sign_char : LineOperator → ℕ
sign_char bar = b'|'
sign_char bars = b'|'
sign_char ampersand = b'&'
sign_char ampersands = b'&'
sign_char semicolon = b';'
sign_char less = b'<'
sign_char lesses = b'<'
sign_char greater = b'>'
sign_char greaters = b'>'

unfoldable pub is_twice : LineOperator → Bool
is_twice bars = true
is_twice ampersands = true
is_twice lesses = true
is_twice greaters = true
is_twice _ = false

unfoldable pub sign_type : LineOperator → TokenType
sign_type bar = tok_pipe
sign_type bars = tok_or
sign_type ampersand = tok_amp
sign_type ampersands = tok_and
sign_type semicolon = tok_semi
sign_type less = tok_redir_in
sign_type lesses = tok_redir_heredoc
sign_type greater = tok_redir_out
sign_type greaters = tok_redir_append

unfoldable pub sign_text : LineOperator → Bytes
unfolding sign_char is_twice
sign_text s = if is_twice s then sign_char s ∷ sign_char s ∷ [] else sign_char s ∷ []

-- What may stand behind an operator: not what makes a longer one of it.
unfoldable pub ends_sign : LineOperator → ℕ → Bool
unfolding sign_char is_twice
ends_sign semicolon nextc = true
ends_sign s nextc = is_twice s || not (nextc == sign_char s)

module _ (text : Bytes) (p : ℕ) where
  doubled_once :
      (c end : ℕ) (twice once : TokenType) (rest : Bytes)
      → Behind text p (c ∷ rest)
      → not (next rest == c) ≡ true
      → doubled (place text p) c end twice once ≡ (once, place text p, end)
  unfolding doubled
  doubled_once c end twice once rest b h =
      let other : (next rest == c) ≡ false = ground arith in
      rw (ahead-Behind text p c rest b, other) refl

  doubled_twice :
      (c end : ℕ) (twice once : TokenType) (rest : Bytes)
      → Behind text p (c ∷ c ∷ rest)
      → doubled (place text p) c end twice once ≡ (twice, place text (suc p), end + 1)
  unfolding doubled
  doubled_twice c end twice once rest b =
      let same : (c == c) ≡ true = ground arith in
      rw (ahead-Behind text p c (c ∷ rest) b, same, skip-Behind text p c (c ∷ rest) b) refl

  -- What the switch finds at an operator, before its last character is read.
  operator_switch-sign_text :
      (s : LineOperator) (end : ℕ) (rest : Bytes)
      → Behind text p (sign_text s ++ rest)
      → ends_sign s (next rest) ≡ true
      → operator_switch (place text p) (sign_char s) end ≡ (
          if is_twice s
          then (sign_type s, place text (suc p), end + 1)
          else (sign_type s, place text p, end))
  unfolding sign_text sign_char is_twice ends_sign sign_type operator_switch
  operator_switch-sign_text semicolon end rest b h = refl
  operator_switch-sign_text bar end rest b h = doubled_once _ end _ _ rest b h
  operator_switch-sign_text ampersand end rest b h = doubled_once _ end _ _ rest b h
  operator_switch-sign_text less end rest b h = doubled_once _ end _ _ rest b h
  operator_switch-sign_text greater end rest b h = doubled_once _ end _ _ rest b h
  operator_switch-sign_text _ end rest b h = doubled_twice _ end _ _ rest b

sign_end :
    (text : Bytes) (p end c : ℕ) (twice : Bool) (type : TokenType) (rest : Bytes)
    → Behind text p ((if twice then c ∷ c ∷ [] else c ∷ []) ++ rest)
    → (r : Operator)
    → r ≡ (if twice then (type, place text (suc p), end + 1) else (type, place text p, end))
    → ◌≡◌ {A = Operator}
        (r.0, skip r.1, r.2 + 1)
        (
          type,
          place text (p + length (if twice then c ∷ c ∷ [] else c ∷ [])),
          end + length (if twice then c ∷ c ∷ [] else c ∷ []),
        )
sign_end text p end c true type rest b r e =
    let two : p + 2 ≡ suc (suc p) = omega arith in
    let ends : end + 1 + 1 ≡ end + 2 = omega arith in
    rw (e, skip-Behind text (suc p) c rest (next-Behind text p c (c ∷ rest) b), two, ends) refl
sign_end text p end c false type rest b r e =
    let one : p + 1 ≡ suc p = omega arith in rw (e, skip-Behind text p c rest b, one) refl

pub lx_scan_operator-sign_text :
    (text : Bytes) (p : ℕ) (s : LineOperator) (end : ℕ) (rest : Bytes)
    → Behind text p (sign_text s ++ rest)
    → ends_sign s (next rest) ≡ true
    → lx_scan_operator (place text p) (sign_char s) end
      ≡ (sign_type s, place text (p + length (sign_text s)), end + length (sign_text s))
unfolding sign_text lx_scan_operator
lx_scan_operator-sign_text text p s end rest b h =
    sign_end text p end (sign_char s) (is_twice s) (sign_type s) rest b _
      (operator_switch-sign_text text p s end rest b h)

pub sign_char-isoperator : (s : LineOperator) → isoperator (sign_char s) ≡ true
unfolding isoperator sign_char
sign_char-isoperator bar = refl
sign_char-isoperator _ = refl

unfoldable pub is_redirection : LineOperator → Bool
is_redirection s = sign_char s == b'<' || sign_char s == b'>'

pub next-sign_text : (s : LineOperator) (rest : Bytes) → next (sign_text s ++ rest) ≡ sign_char s
unfolding sign_text
next-sign_text s rest = ground arith
