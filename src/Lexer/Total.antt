-- ===== src/Lexer/Total.antt =====
-- src/lexer.c: the rounds of the tokenizer, and how it ends.
use codecrafters_shell_c.Common.{
  ℕ, zero, suc, ◌+◌, ◌≤◌, ◌<◌, ◌≡◌, refl, ◌∙◌, ◌≢◌, ◌⊎◌, inl, inr, Bool, true, false, none, some,
  List, [], ◌∷◌, ◌++◌, length, arith, Bool-cases, if◌then◌else◌,
}
use codecrafters_shell_c.Common.Bytes.{Bytes}
use codecrafters_shell_c.Common.Outcome.{
  Outcome, ◌>>=◌, ok, Stops, Stops-bind, Stops-of_Ends, Stops-mono,
}
use codecrafters_shell_c.Lexer.Stream.{CharStream, cs_new}
use codecrafters_shell_c.Lexer.Scan.{Scan, lx_scan}
use codecrafters_shell_c.Lexer.Reads.{Reads, Reads-trans}
use codecrafters_shell_c.Lexer.Progress.{Scanned, lx_scan-Scanned}
use codecrafters_shell_c.Lexer.Tokenize.{
  is_redir, token_text, redir_token, Lexed, make_token, lx_token, is_eof, tokenize_loop,
  lx_tokenize,
}
use codecrafters_shell_c.Tokens.{
  newtok, TokenType, tok_eof, tok_err, Token, TokenList, tokenlist_append_tok, tokenlist_new_empty,
}
use codecrafters_shell_c.Tokens.Laws.{
  IsCounted, tokenlist_append-IsCounted, tokenlist_append-tokens,
}

-- A token that is made has the type it was scanned with, and none is made of an error; `errno` is
-- set exactly where no token is made.
abbrev pub Typed : TokenType → Lexed → Type 0
Typed type (errno, none) = errno ≢ 0
Typed type (errno, some t) = (errno ≡ 0) × (t.type ≡ type) × (type ≢ tok_err)

redir_token-Typed :
    (type : TokenType) (arr : Bytes) → type ≢ tok_err → Typed type (redir_token type arr)
unfolding redir_token
redir_token-Typed type arr h = ground arith

token_text-Stops : (s : Scan) → Stops (λ _. Unit {0}) (token_text s)
unfolding token_text
token_text-Stops s = ground arith

word_or_redir-Typed :
    (redir : Bool) (type : TokenType) (arr : Bytes)
    → type ≢ tok_err
    → Typed type (if redir then redir_token type arr else (0, some (newtok type arr)))
word_or_redir-Typed true type arr h = redir_token-Typed type arr h
word_or_redir-Typed false type arr h = (refl, refl, h)

pub make_token-Typed : (type : TokenType) (s : Scan) → Stops (Typed type) (make_token type s)
unfolding make_token
make_token-Typed tok_eof s = (refl, refl, λ e. cc)
make_token-Typed tok_err s = λ h. omega arith
make_token-Typed type s = Stops-bind (Typed type) (token_text s) _ (token_text-Stops s) made
  where
    ne_err : type ≢ tok_err
    ne_err e = cc

    made :
        (arr : Bytes)
        → Unit {0}
        → Stops
            (Typed type)
            (ok (if is_redir type then redir_token type arr else (0, some (newtok type arr))))
    made arr _ = word_or_redir-Typed (is_redir type) type arr ne_err

-- What `lx_token` leaves: the stream moved forward, and beyond where it stood if there is a token
-- other than the end of the input.
abbrev Lexes : CharStream → Lexed × CharStream → Type 0
Lexes s ((errno, none), t) = Reads s t × (errno ≢ 0)
Lexes s ((errno, some tok), t) =
    Reads s t × (errno ≡ 0) × ((is_eof tok.type ≡ true) ⊎ (s.pos < t.pos))

is_eof_eof : (t : TokenType) → t ≡ tok_eof → is_eof t ≡ true
unfolding is_eof
is_eof_eof t e = rw e

is_eof→eq : (t : TokenType) → is_eof t ≡ true → t ≡ tok_eof
unfolding is_eof
is_eof→eq tok_eof h = refl
is_eof→eq _ h = cc

lx_token-Lexes : (s : CharStream) → s.pos ≤ s.len → Stops (Lexes s) (lx_token s)
unfolding lx_token
lx_token-Lexes s h =
    Stops-bind (Lexes s) (lx_scan s) _ (Stops-of_Ends (Scanned s) (lx_scan s) (lx_scan-Scanned s h))
      scanned
  where
    made :
        (r : TokenType × Scan)
        → Scanned s r
        → (lexed : Lexed) → Typed r.0 lexed
        → Stops (Lexes s) (ok (lexed, r.1.stream))
    made r q (errno, none) typed = (q.0, typed)
    made r q (errno, some tok) typed = (
      q.0,
      typed.0,
      elim q.1 [
        | inl bad ↦ absurd (typed.2 bad)
        | inr (inl end) ↦ inl (is_eof_eof tok.type (typed.1 ∙ end))
        | inr (inr lt) ↦ inr lt
      ],
    )

    scanned :
        (r : TokenType × Scan)
        → Scanned s r
        → Stops (Lexes s) (make_token r.0 r.1 >>= λ lexed. ok (lexed, r.1.stream))
    scanned r q = Stops-bind (Lexes s) (make_token r.0 r.1) _ (make_token-Typed r.0 r.1) (made r q)

-- The last token is the end of the input.
abbrev pub EndsInEof : List Token → Type 0
EndsInEof ts =
    (init : List Token) × (last : Token) × (ts ≡ init ++ last ∷ []) × (last.type ≡ tok_eof)

abbrev Tokenized : TokenList → CharStream → ℕ × TokenList × CharStream → Type 0
Tokenized dst s r = Reads s r.2 × (IsCounted dst → IsCounted r.1) × (r.0 ≡ 0 → EndsInEof r.1.tokens)

append_tok-IsCounted :
    (dst : TokenList) (tok : Token)
    → IsCounted dst
    → IsCounted (tokenlist_append_tok dst (tok ∷ []))
append_tok-IsCounted dst tok h = (tokenlist_append-IsCounted dst tok_eof [] (tok ∷ []) h).3

tokenize_loop-Stops :
    (f : ℕ) (dst : TokenList) (s : CharStream)
    → s.len < f + s.pos
    → s.pos ≤ s.len
    → Stops (Tokenized dst s) (tokenize_loop f dst s)
unfolding tokenize_loop
tokenize_loop-Stops zero dst s fuel h = absurd (omega arith)
tokenize_loop-Stops (suc f) dst s fuel h =
    Stops-bind (Tokenized dst s) (lx_token s) _ (lx_token-Lexes s h)
      λ (lexed, t) q. step lexed t q (tokenize_loop f) (tokenize_loop-Stops f)
  where
    step :
        (lexed : Lexed) (t : CharStream)
        → Lexes s (lexed, t)
        → (more : TokenList → CharStream → Outcome (ℕ × TokenList × CharStream))
        → ((l : TokenList) (u : CharStream)
            → u.len < f + u.pos
            → u.pos ≤ u.len
            → Stops (Tokenized l u) (more l u))
        → Stops (Tokenized dst s) (elim lexed.1 [
          | none ↦ ok (lexed.0, dst, t)
          | some tok ↦
              let dst' = tokenlist_append_tok dst (tok ∷ []) in
              elim (is_eof tok.type) [ true ↦ ok (lexed.0, dst', t) | false ↦ more dst' t ]
        ])
    step (e, none) t q more ih = (q.0, λ c. c, λ z. absurd (q.1 z))
    step (e, some tok) t q more ih =
        let dst' = tokenlist_append_tok dst (tok ∷ []) in
        elim (Bool-cases (is_eof tok.type)) [
          | inl eof ↦ rw eof (
            q.0,
            append_tok-IsCounted dst tok,
            λ _. (dst.tokens, tok, (tokenlist_append-tokens dst tok), is_eof→eq tok.type eof),
          )
          | inr on ↦
              let lt : s.pos < t.pos = elim q.2 [ inl eof ↦ cc | inr lt ↦ lt ] in
              rw on (
                Stops-mono (more dst' t)
                  (λ r w. (Reads-trans q.0 w.0, λ c. w.1 (append_tok-IsCounted dst tok c), w.2))
                  (ih dst' t (omega (arith, q.0.same_len)) q.0.within))
        ]

-- On every text the tokenizer comes to an end, and its stored size is the number of its tokens.
-- If it reports no error, the last token is TOK_EOF.
pub lx_tokenize-Stops :
    (text : Bytes)
    → Stops
        (λ (errno, list, stream). IsCounted list × (errno ≡ 0 → EndsInEof list.tokens))
        (lx_tokenize tokenlist_new_empty (cs_new text))
unfolding lx_tokenize cs_new tokenlist_new_empty
lx_tokenize-Stops text =
    Stops-mono (tokenize_loop (suc (length text)) tokenlist_new_empty (cs_new text))
      (λ r w. (w.1 refl, w.2))
      (tokenize_loop-Stops (suc (length text)) tokenlist_new_empty (cs_new text) (omega arith)
        (omega arith))
