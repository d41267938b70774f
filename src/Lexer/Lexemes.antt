-- ===== src/Lexer/Lexemes.antt =====
-- src/lexer.c: the lexemes of a line, independently of the scanner; the token that is made of each.
use codecrafters_shell_c.Common.{
  leb, ◌*◌, ltb, ℕ, ◌+◌, ◌-◌, ◌≡◌, ◌⊎◌, refl, Bool, true, false, ◌&&◌, ◌==◌, some, [], ◌∷◌, ◌++◌,
  inl, inr, Bool-cases, and_true, arith, length, take-append, length-append,
}
use codecrafters_shell_c.Common.Bytes.{Bytes, isspace, isdigit}
use codecrafters_shell_c.Common.Outcome.{ok}
use codecrafters_shell_c.Lexer.Stream.{unquoted, eoi}
use codecrafters_shell_c.Lexer.Tokenize.{
  int_max, token_text, redir_token, strtol, starts_with_digit,
}
use codecrafters_shell_c.Lexer.Places.{Behind, next, length-Behind}
use codecrafters_shell_c.Lexer.Words.{at, is_plain, plain_from, word_type}
use codecrafters_shell_c.Lexer.Signs.{
  next-sign_text, LineOperator, bar, greater, greaters, sign_char, sign_text, sign_type, is_twice,
  ends_sign, is_redirection,
}
use codecrafters_shell_c.Tokens.{TokenType, tok_word, tok_assignment_word, Token, newtok, token_new}

-- A word, an operator, or a redirection with a digit before it.
pub data Lexeme : Type 0 where
  word : ℕ → Bytes → Lexeme
  sign : LineOperator → Lexeme
  numbered : ℕ → LineOperator → Lexeme

unfoldable pub lexeme_text : Lexeme → Bytes
unfolding sign_text
lexeme_text (word c cs) = c ∷ cs
lexeme_text (sign s) = sign_text s
lexeme_text (numbered d s) = d ∷ sign_text s

-- The descriptor of an operator with no digit.
unfoldable pub sign_fd : LineOperator → ℕ
sign_fd greater = 1
sign_fd greaters = 1
sign_fd _ = 0

unfoldable pub lexeme_token : Lexeme → Token
unfolding word_type sign_text sign_type sign_fd
lexeme_token (word c cs) = newtok (word_type tok_word (c ∷ cs)) (c ∷ cs)
lexeme_token (sign s) = token_new (sign_type s) (sign_text s) (sign_fd s)
lexeme_token (numbered d s) = token_new (sign_type s) (d ∷ sign_text s) (d - 48)

-- A lexeme that is read as such, with `nextc` behind it.
unfoldable pub reads_as : Lexeme → ℕ → Bool
unfolding plain_from ends_sign is_redirection
reads_as (word c cs) nextc = plain_from unquoted true (c ∷ cs) nextc
reads_as (sign s) nextc = ends_sign s nextc
reads_as (numbered d s) nextc = (isdigit d && is_redirection s) && ends_sign s nextc

sign_char-first :
    (s : LineOperator) → (isspace (sign_char s) ≡ false) × ((sign_char s == eoi) ≡ false)
unfolding isspace sign_char
sign_char-first bar = (refl, refl)
sign_char-first _ = (refl, refl)

-- The first character of a lexeme.
pub reads_as-first :
    (l : Lexeme) (rest : Bytes)
    → reads_as l (next rest) ≡ true
    → (isspace (next (lexeme_text l ++ rest)) ≡ false)
      × ((next (lexeme_text l ++ rest) == eoi) ≡ false)
unfolding reads_as lexeme_text plain_from is_plain isspace isdigit
reads_as-first (word c cs) rest h = (ground arith, ground arith)
reads_as-first (sign s) rest h = rw (next-sign_text s rest) (sign_char-first s)
reads_as-first (numbered d s) rest h =
    let digit = (and_true (isdigit d) _ (and_true (isdigit d && is_redirection s) _ h).0).0 in
    (ground arith, ground arith)

pub token_text-Behind :
    (text : Bytes) (p m : ℕ) (type : TokenType) (cs rest : Bytes)
    → Behind text p (cs ++ rest)
    → token_text (at text p (p + length cs) unquoted m type) ≡ ok cs
unfolding token_text
token_text-Behind text p m type cs rest b =
    let few : ltb (length text + 1) (p + length cs) ≡ false =
      ground (arith, length-Behind text p _ b, length-append cs rest) in
    let span : p + length cs - p ≡ length cs = omega arith in
    rw (few, span, b.left, take-append cs rest) refl

pub word_type-cases :
    (type : TokenType) (cs : Bytes)
    → (type ≡ tok_word) ⊎ (type ≡ tok_assignment_word)
    → (word_type type cs ≡ tok_word) ⊎ (word_type type cs ≡ tok_assignment_word)
unfolding word_type
word_type-cases type [] h = h
word_type-cases type (c ∷ cs) h = elim (Bool-cases (c == b'=')) [
  | inl e ↦ rw e (word_type-cases tok_assignment_word cs (inr refl))
  | inr e ↦ rw e (word_type-cases type cs h)
]

pub redir_token-sign :
    (s : LineOperator)
    → redir_token (sign_type s) (sign_text s)
      ≡ (0, some (token_new (sign_type s) (sign_text s) (sign_fd s)))
unfolding redir_token is_redirection sign_type sign_text sign_fd sign_char is_twice isdigit
redir_token-sign bar = refl
redir_token-sign _ = refl

strtol-sign_text : (s : LineOperator) (n : ℕ) → strtol (sign_text s) n ≡ n
unfolding strtol sign_text sign_char is_twice isdigit
strtol-sign_text bar n = refl
strtol-sign_text _ n = refl

pub redir_token-numbered :
    (d : ℕ) (s : LineOperator)
    → isdigit d ≡ true
    → redir_token (sign_type s) (d ∷ sign_text s)
      ≡ (0, some (token_new (sign_type s) (d ∷ sign_text s) (d - 48)))
unfolding redir_token strtol starts_with_digit
redir_token-numbered d s k =
    let value : 0 * 10 + (d - 48) ≡ d - 48 = omega arith in
    let small : leb int_max (d - 48) ≡ false = unfold isdigit in ground arith in
    rw (k, value, strtol-sign_text s (d - 48), small) refl
