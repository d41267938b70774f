-- ===== src/Lexer/Words.antt =====
-- src/lexer.c: what a word is, independently of the scanner, and its scan.
use codecrafters_shell_c.Common.{
  and_true, ℕ, zero, suc, ◌<◌, ◌≤◌, inl, inr, ◌+◌, ◌≡◌, refl, Bool, true, false, not, ◌||◌, ◌&&◌,
  ◌==◌, if◌then◌else◌, [], ◌∷◌, ◌++◌, head_or, arith, subst, Bool-cases, elim_false, length,
}
use codecrafters_shell_c.Common.Bytes.{Bytes, isspace, isdigit}
use codecrafters_shell_c.Common.Outcome.{ok}
use codecrafters_shell_c.Lexer.Stream.{
  eoi, backtick, backslash, isoperator, QuoteFlag, unquoted, single_quoted, double_quoted,
  toggle_flag, lx_end_of_token, cs_peek_ahead,
}
use codecrafters_shell_c.Lexer.Scan.{
  Scan, tests, returns, read_char, end_round, scan_round, leave, scan_loop, scan_flag,
  scan_unquoted, scan_quoted, scan_dollar,
}
use codecrafters_shell_c.Lexer.Places.{
  place, Behind, next, next-Behind, peek-Behind, skip-Behind, ahead-Behind,
}
use codecrafters_shell_c.Tokens.{TokenType, tok_assignment_word}

-- A character that stands for itself between `flag`'s quotes, with `nextc` behind it. `first`: it
-- begins the word. Unquoted backslashes, backticks and `$(` begin what is more than a character.
unfoldable pub is_plain : QuoteFlag → Bool → ℕ → ℕ → Bool
is_plain unquoted first c nextc = not (
    c == eoi
    || isspace c
    || isoperator c
    || c == backtick
    || c == backslash
    || (c == b'$' && nextc == b'(')
    || (first && isdigit c && (nextc == b'<' || nextc == b'>')))
is_plain _ first c nextc = not (c == eoi)

-- The words of a line: plain characters, the quotes closed, and a character behind that ends the
-- word, `nextc`.
unfoldable pub ends_word : ℕ → Bool
ends_word c = isspace c || c == eoi || isoperator c

unfoldable pub is_closed : QuoteFlag → Bool
is_closed unquoted = true
is_closed _ = false

unfoldable pub plain_from : QuoteFlag → Bool → Bytes → ℕ → Bool
unfolding toggle_flag is_plain ends_word is_closed
plain_from flag first [] nextc = is_closed flag && ends_word nextc
plain_from flag first (c ∷ cs) nextc =
    is_plain flag first c (head_or nextc cs) && plain_from (toggle_flag c flag) false cs nextc

-- A word with an equality sign anywhere is an assignment.
unfoldable pub word_type : TokenType → Bytes → TokenType
word_type type [] = type
word_type type (c ∷ cs) = word_type (if c == b'=' then tok_assignment_word else type) cs

-- The state of the scan at a place of a text.
abbrev pub at : Bytes → ℕ → ℕ → QuoteFlag → ℕ → TokenType → Scan
at text begin p flag nextc type = record {
  stream = place text p;
  begin = begin;
  end = p;
  flag = flag;
  nextc = nextc;
  predicted_type = type;
}

module _ (text : Bytes) (begin p : ℕ) (type : TokenType) where
  end_round-plain :
      (flag : QuoteFlag) (n c : ℕ) (rest : Bytes)
      → Behind text p (c ∷ rest)
      → end_round c (at text begin p flag n type)
        ≡ tests (at text begin (suc p) flag n (if c == b'=' then tok_assignment_word else type))
  unfolding end_round read_char
  end_round-plain flag n c rest b =
      let one : p + 1 ≡ suc p = omega arith in rw (skip-Behind text p c rest b, one) refl

  scan_flag-plain :
      (flag : QuoteFlag) (n c : ℕ) (rest : Bytes)
      → Behind text p (c ∷ rest)
      → is_plain flag (p == begin) c n ≡ true
      → scan_flag flag c (at text begin p flag n type)
        ≡ ok (
            tests (
              at text begin
                (suc p)
                (toggle_flag c flag)
                n
                (if c == b'=' then tok_assignment_word else type)))
  unfolding scan_flag scan_quoted scan_unquoted scan_dollar toggle_flag is_plain
  scan_flag-plain unquoted n c rest b h = ground (
    arith,
    end_round-plain unquoted n c rest b,
    end_round-plain single_quoted n c rest b,
    end_round-plain double_quoted n c rest b,
  )
  scan_flag-plain single_quoted n c rest b h =
      ground (arith, end_round-plain single_quoted n c rest b, end_round-plain unquoted n c rest b)
  scan_flag-plain double_quoted n c rest b h =
      ground (arith, end_round-plain double_quoted n c rest b, end_round-plain unquoted n c rest b)

  scan_round-plain :
      (flag : QuoteFlag) (n c : ℕ) (rest : Bytes)
      → Behind text p (c ∷ rest)
      → is_plain flag (p == begin) c (next rest) ≡ true
      → scan_round (at text begin p flag n type)
        ≡ ok (
            tests (
              at text begin
                (suc p)
                (toggle_flag c flag)
                (next rest)
                (if c == b'=' then tok_assignment_word else type)))
  unfolding scan_round
  scan_round-plain flag n c rest b h =
      rw (peek-Behind text p (c ∷ rest) b, ahead-Behind text p c rest b)
        (scan_flag-plain flag (next rest) c rest b h)

-- A plain character does not end the token it stands in.
plain-lx_end_of_token :
    (flag : QuoteFlag) (first : Bool) (c n : ℕ)
    → is_plain flag first c n ≡ true
    → lx_end_of_token c flag ≡ false
unfolding is_plain lx_end_of_token
plain-lx_end_of_token unquoted first c n h = ground arith
plain-lx_end_of_token single_quoted first c n h = ground arith
plain-lx_end_of_token double_quoted first c n h = ground arith

is_closed→eq : (flag : QuoteFlag) → is_closed flag ≡ true → flag ≡ unquoted
unfolding is_closed
is_closed→eq unquoted h = refl
is_closed→eq single_quoted h = cc
is_closed→eq double_quoted h = cc

not_blank : (c : ℕ) → ends_word c ≡ true → lx_end_of_token c unquoted ≡ false → isoperator c ≡ true
unfolding ends_word lx_end_of_token
not_blank c h e = ground arith

module _ (text : Bytes) (begin p : ℕ) (type : TokenType) where
  -- An operator behind a word is left to the next token.
  scan_round-operator :
      (n : ℕ) (rest : Bytes)
      → Behind text p rest
      → begin < p
      → isoperator (next rest) ≡ true
      → scan_round (at text begin p unquoted n type)
        ≡ ok (returns type (at text begin p unquoted (cs_peek_ahead (place text p) 1) type))
  unfolding scan_round scan_flag scan_unquoted
  scan_round-operator n rest b lt h =
      let on : (p == begin) ≡ false = ground arith in rw (peek-Behind text p rest b, h, on) refl

  -- The scan stops where a word ends.
  scan_loop-end :
      (f : ℕ) (rest : Bytes)
      → Behind text p rest
      → begin < p
      → ends_word (next rest) ≡ true
      → (m : ℕ) × (elim (lx_end_of_token (next rest) unquoted) [
        | true ↦ ok (leave unquoted (at text begin p unquoted (next rest) type))
        | false ↦ scan_loop (suc f) (at text begin p unquoted (next rest) type)
      ]
          ≡ ok (type, at text begin p unquoted m type))
  unfolding scan_loop leave
  scan_loop-end f rest b lt h = elim (Bool-cases (lx_end_of_token (next rest) unquoted)) [
    | inl e ↦ rw e (next rest, refl)
    | inr e ↦
        rw (e, scan_round-operator (next rest) rest b lt (not_blank (next rest) h e))
          (cs_peek_ahead (place text p) 1, refl)
  ]

-- A round that goes on to the next.
scan_loop_on :
    (f : ℕ) (s t : Scan)
    → scan_round s ≡ ok (tests t)
    → lx_end_of_token t.nextc t.flag ≡ false
    → scan_loop (suc f) s ≡ scan_loop f t
unfolding scan_loop
scan_loop_on f s t e on = rw e (elim_false (lx_end_of_token t.nextc t.flag) _ _ on)

-- From any character of a word to its end.
pub scan_loop-plain :
    (f : ℕ) (text : Bytes) (begin p : ℕ) (type : TokenType) (flag : QuoteFlag) (n c : ℕ)
    (cs rest : Bytes) (q : ℕ)
    → Behind text p (c ∷ (cs ++ rest))
    → begin ≤ p
    → plain_from flag (p == begin) (c ∷ cs) (next rest) ≡ true
    → length cs + 1 < f
    → p + suc (length cs) ≡ q
    → (m : ℕ) × (scan_loop f (at text begin p flag n type)
        ≡ ok (word_type type (c ∷ cs), at text begin q unquoted m (word_type type (c ∷ cs))))
unfolding scan_loop plain_from word_type
scan_loop-plain zero text begin p type flag n c cs rest q b le h fuel goal = absurd (omega arith)
scan_loop-plain (suc zero) text begin p type flag n c cs rest q b le h fuel goal =
    absurd (omega arith)
scan_loop-plain (suc (suc f)) text begin p type flag n c [] rest q b le h fuel goal =
    let (here, behind) = and_true _ _ h in
    let (closed, ends) = and_true _ _ behind in
    let off = is_closed→eq (toggle_flag c flag) closed in
    let run = scan_round-plain text begin p type flag n c rest b here in
    let same : q ≡ suc p = omega arith in
    rw (same, run, off)
      (scan_loop-end text begin (suc p) _ f rest (next-Behind text p c rest b) (omega arith) ends)
scan_loop-plain (suc (suc f)) text begin p type flag n c (d ∷ ds) rest q b le h fuel goal =
    let (here, behind) = and_true _ _ h in
    let run = scan_round-plain text begin p type flag n c (d ∷ (ds ++ rest)) b here in
    let on = plain-lx_end_of_token (toggle_flag c flag) false d _ (and_true _ _ behind).0 in
    let later : false ≡ (suc p == begin) = ground arith in
    rw (scan_loop_on _ _ _ run on) (
      scan_loop-plain (suc f) text begin (suc p) _ (toggle_flag c flag) d d ds rest q
        (next-Behind text p c (d ∷ (ds ++ rest)) b) (omega arith)
        (subst (λ x. plain_from (toggle_flag c flag) x (d ∷ ds) (next rest) ≡ true) later behind)
        (omega arith) (omega arith))
