-- ===== src/Lexer/Written.antt =====
-- src/lexer.c: `lx_tokenize` on a line that is written lexeme by lexeme.
use codecrafters_shell_c.Common.{
  ℕ, zero, suc, ◌+◌, ◌<◌, ◌≤◌, ◌≡◌, refl, sym, subst, elim_false, ◌∙◌, Bool, true, false, ◌&&◌,
  some, List, [], ◌∷◌, ◌++◌, ap, inl, inr, and_true, arith, length, length-append, append_assoc,
  append-nil,
}
use codecrafters_shell_c.Common.Bytes.{Bytes, isspace}
use codecrafters_shell_c.Common.Outcome.{ok}
use codecrafters_shell_c.Lexer.Stream.{CharStream, cs_new}
use codecrafters_shell_c.Lexer.Scan.{start_scan, scan_from}
use codecrafters_shell_c.Lexer.Tokenize.{lx_token, make_token, is_eof, tokenize_loop, lx_tokenize}
use codecrafters_shell_c.Lexer.Places.{
  place, Behind, next, peek-Behind, length-Behind, append-Behind,
}
use codecrafters_shell_c.Lexer.Signs.{bar, sign_text, sign_type}
use codecrafters_shell_c.Lexer.Blanks.{is_blank, lx_scan-is_blank}
use codecrafters_shell_c.Lexer.Lexemes.{
  Lexeme, word, sign, numbered, lexeme_text, lexeme_token, reads_as, word_type-cases,
}
use codecrafters_shell_c.Lexer.Taking.{lx_token-lexeme_token}
use codecrafters_shell_c.Tokens.{
  tok_word, tok_eof, Token, TokenList, newtok, tokenlist_new_empty, tokenlist_append_tok,
  token_count,
}

-- The text of a line: each lexeme behind its blanks, and blanks at the end.
unfoldable pub written : List (Bytes × Lexeme) → Bytes → Bytes
written [] tail = tail
written ((gap, l) ∷ ls) tail = gap ++ (lexeme_text l ++ written ls tail)

-- No lexeme is changed by what is written behind it.
unfoldable pub is_readable : List (Bytes × Lexeme) → Bytes → Bool
is_readable [] tail = is_blank tail
is_readable ((gap, l) ∷ ls) tail =
    is_blank gap && (reads_as l (next (written ls tail)) && is_readable ls tail)

abbrev pub written_tokens : List (Bytes × Lexeme) → List Token
written_tokens [] = []
written_tokens ((gap, l) ∷ ls) = lexeme_token l ∷ written_tokens ls

abbrev eof : Token
eof = newtok tok_eof []

scan_from-eoi :
    (text : Bytes) (p : ℕ)
    → Behind text p []
    → scan_from (place text p, p, p) ≡ ok (tok_eof, start_scan (place text p) p p)
unfolding scan_from
scan_from-eoi text p b = rw (peek-Behind text p [] b) refl

lx_token-eof :
    (text : Bytes) (p : ℕ) (tail : Bytes)
    → Behind text p tail
    → is_blank tail ≡ true
    → lx_token (place text p) ≡ ok ((0, some eof), place text (length text))
unfolding lx_token make_token isspace start_scan
lx_token-eof text p tail b h =
    let end : p + length tail ≡ length text = length-Behind text p tail b in
    let here =
      append-Behind text p (length text) tail [] (subst (Behind text p) (sym (append-nil tail)) b)
        end in
    rw
      (
        lx_scan-is_blank text p (length text) tail []
            (subst (Behind text p) (sym (append-nil tail)) b) h refl end,
        scan_from-eoi text (length text) here,
      )
      refl

lexeme_token-is_eof : (l : Lexeme) → is_eof (lexeme_token l).type ≡ false
unfolding lexeme_token is_eof sign_type
lexeme_token-is_eof (word c cs) = elim (word_type-cases tok_word (c ∷ cs) (inl refl)) [
  | inl e ↦ rw e refl
  | inr e ↦ rw e refl
]
lexeme_token-is_eof (sign bar) = refl
lexeme_token-is_eof (sign _) = refl
lexeme_token-is_eof (numbered d bar) = refl
lexeme_token-is_eof (numbered d _) = refl

lexeme_text-length : (l : Lexeme) → 1 ≤ length (lexeme_text l)
unfolding lexeme_text sign_text
lexeme_text-length (word c cs) = omega arith
lexeme_text-length (sign s) = ground arith
lexeme_text-length (numbered d s) = ground arith

tokenize_loop_on :
    (f : ℕ) (dst : TokenList) (s t : CharStream) (tok : Token)
    → lx_token s ≡ ok ((0, some tok), t)
    → is_eof tok.type ≡ false
    → tokenize_loop (suc f) dst s ≡ tokenize_loop f (tokenlist_append_tok dst (tok ∷ [])) t
unfolding tokenize_loop
tokenize_loop_on f dst s t tok e h = rw e (elim_false (is_eof tok.type) _ _ h)

list_on :
    (dst : TokenList) (tok : Token) (ts : List Token) (n : ℕ)
    → ◌≡◌ {A = TokenList}
        (record {
          size = (tokenlist_append_tok dst (tok ∷ [])).size + (n + 1);
          tokens = (tokenlist_append_tok dst (tok ∷ [])).tokens ++ ts;
        })
        (record { size = dst.size + (suc n + 1); tokens = dst.tokens ++ (tok ∷ ts) })
unfolding tokenlist_append_tok token_count
list_on dst tok ts n = ground (arith, append_assoc dst.tokens (tok ∷ []) ts)

tokenize_loop-written :
    (f : ℕ) (dst : TokenList) (text : Bytes) (p : ℕ) (ls : List (Bytes × Lexeme)) (tail : Bytes)
    → Behind text p (written ls tail)
    → is_readable ls tail ≡ true
    → length (written ls tail) < f
    → tokenize_loop f dst (place text p)
      ≡ ok (
        0,
        record {
          size = dst.size + (length ls + 1);
          tokens = dst.tokens ++ (written_tokens ls ++ eof ∷ []);
        },
        place text (length text),
      )
unfolding written is_readable tokenize_loop is_eof tokenlist_append_tok
tokenize_loop-written zero dst text p ls tail b h fuel = absurd (omega arith)
tokenize_loop-written (suc f) dst text p [] tail b h fuel = rw (lx_token-eof text p tail b h) refl
tokenize_loop-written (suc f) dst text p ((gap, l) ∷ ls) tail b h fuel =
    let rest = written ls tail in
    let q = p + length gap + length (lexeme_text l) in
    let (blank, behind) =
      and_true (is_blank gap) (reads_as l (next rest) && is_readable ls tail) h in
    let (reads, others) = and_true (reads_as l (next rest)) (is_readable ls tail) behind in
    let here =
      append-Behind text (p + length gap) q (lexeme_text l) rest
        (append-Behind text p (p + length gap) gap (lexeme_text l ++ rest) b refl) refl in
    tokenize_loop_on f dst _ _ (lexeme_token l)
      (lx_token-lexeme_token text p q gap l rest b blank reads refl) (lexeme_token-is_eof l)
    ∙ tokenize_loop-written f (tokenlist_append_tok dst (lexeme_token l ∷ [])) text q ls tail here
        others
        (omega (
          arith,
          lexeme_text-length l,
          length-append gap (lexeme_text l ++ rest),
          length-append (lexeme_text l) rest,
        ))
    ∙ ap (λ (list : TokenList). ok (0, list, place text (length text)))
        (list_on dst (lexeme_token l) (written_tokens ls ++ eof ∷ []) (length ls))

-- A line in which no lexeme is changed by what stands behind it is taken apart into the tokens
-- of its lexemes and TOK_EOF, with no error, up to its end.
pub lx_tokenize-written :
    (ls : List (Bytes × Lexeme)) (tail : Bytes)
    → is_readable ls tail ≡ true
    → lx_tokenize tokenlist_new_empty (cs_new (written ls tail))
      ≡ ok (
        0,
        record { size = length ls + 1; tokens = written_tokens ls ++ newtok tok_eof [] ∷ [] },
        record (cs_new (written ls tail)) { pos = length (written ls tail) },
      )
unfolding lx_tokenize cs_new tokenlist_new_empty
lx_tokenize-written ls tail h =
    tokenize_loop-written (suc (length (written ls tail))) (record { size = 0; tokens = [] })
      (written ls tail) 0 ls tail (record { left = refl; within = omega arith }) h (omega arith)
    ∙ ground arith
