-- ===== src/Parser/Total.antt =====
-- src/parser.c: how the loops of the parser end, and `lex_and_parse` on every line.
use codecrafters_shell_c.Parser.Parse.{Allocator}
use codecrafters_shell_c.Common.{
  ℕ, zero, suc, ◌+◌, ◌<◌, ◌≡◌, refl, ◌∙◌, ◌≢◌, ◌||◌, inl, inr, true, false, List, [], ◌∷◌, arith,
  length, some, none, ◌==◌, Bool-cases,
}
use codecrafters_shell_c.Common.Bytes.{Bytes}
use codecrafters_shell_c.Common.Outcome.{
  ok, out_of_fuel, ◌>>=◌, Stops, Stops-bind, Stops-mono, Stops-ne,
}
use codecrafters_shell_c.Tokens.{
  TokenType, tok_eof, tok_pipe, tok_and, tok_or, tok_semi, tok_amp, Token, same_type,
}
use codecrafters_shell_c.Syntax.{Pipeline, AndOrElement, ListElement}
use codecrafters_shell_c.Parser.Stream.{TokenStream, ts_read, ts_check}
use codecrafters_shell_c.Parser.Parse.{
  parse_command, pipeline_loop, parse_pipeline, and_or_loop, parse_and_or, at_list_end, list_loop,
  parse_list,
}
use codecrafters_shell_c.Parser.Left.{Left, Left-length, ts_read-Left, ts_check-Left_last}
use codecrafters_shell_c.Parser.Steps.{
  pipeline_loop_on, pipeline_loop_off, and_or_loop_on, and_or_loop_off, list_loop_on, list_loop_off,
  list_loop_end,
}
use codecrafters_shell_c.Tokens.{TokenList, tokenlist_new_empty}
use codecrafters_shell_c.Tokens.Laws.{IsCounted}
use codecrafters_shell_c.Lexer.Stream.{CharStream, cs_new}
use codecrafters_shell_c.Lexer.Tokenize.{lx_tokenize}
use codecrafters_shell_c.Lexer.Total.{EndsInEof, lx_tokenize-Stops}
use codecrafters_shell_c.Parser.Stream.{ts_new}
use codecrafters_shell_c.Parser.Left.{ts_new-Left}
use codecrafters_shell_c.Parser.Parse.{lex_and_parse}
use codecrafters_shell_c.Parser.Progress.{Onward-trans, Parsed, parse_command-Parsed}

-- A test for two operators that passes stands before a token that is not the last.
module _ (a b : TokenType) (s : TokenStream) (e : Token) where
  read_two-Left :
      (ts : List Token)
      → Left s ts e
      → same_type tok_eof a ≡ false
      → same_type tok_eof b ≡ false
      → (ts_check s a || ts_check s b) ≡ true
      → (us : List Token) × Left (ts_read s).1 us e × (length us < length ts)
  read_two-Left [] h ea eb c =
      ground (arith, ts_check-Left_last s e a h ∙ ea, ts_check-Left_last s e b h ∙ eb)
  read_two-Left (t ∷ ts) h ea eb c = (ts, (ts_read-Left s e t ts h).1, omega arith)

read_one-Left :
    (a : TokenType) (s : TokenStream) (e : Token) (ts : List Token)
    → Left s ts e
    → same_type tok_eof a ≡ false
    → ts_check s a ≡ true
    → (us : List Token) × Left (ts_read s).1 us e × (length us < length ts)
read_one-Left a s e [] h ea c = cc (ts_check-Left_last s e a h ∙ ea)
read_one-Left a s e (t ∷ ts) h ea c = (ts, (ts_read-Left s e t ts h).1, omega arith)

module _ ⦃alloc : Allocator⦄ where
  pipeline_loop-Parsed :
      (f : ℕ) (ts : List Token) (e : Token) (pipeline : Pipeline) (s : TokenStream)
      → Left s ts e
      → length ts < f
      → Stops (Parsed ts e) (pipeline_loop f pipeline s)
  pipeline_loop-Parsed zero ts e pipeline s h fuel = absurd (omega arith)
  pipeline_loop-Parsed (suc f) ts e pipeline s h fuel = elim (Bool-cases (ts_check s tok_pipe)) [
    | inl on ↦
        let (us, l, lt) = read_one-Left tok_pipe s e ts h refl on in
        rw (pipeline_loop_on f pipeline s on) (
          Stops-bind (Parsed ts e) (parse_command (ts_read s).1) _
            (parse_command-Parsed us e (ts_read s).1 l)
            (λ r (vs, k, le).
              Stops-mono (pipeline_loop f _ r.1) (λ q. Onward-trans ts vs e q.1 (omega arith))
                (pipeline_loop-Parsed f vs e _ r.1 k (omega arith))))
    | inr off ↦ rw (pipeline_loop_off f pipeline s off) (ts, h, omega arith)
  ]

  parse_pipeline-Parsed :
      (ts : List Token) (e : Token) (s : TokenStream)
      → Left s ts e
      → Stops (Parsed ts e) (parse_pipeline s)
  unfolding parse_pipeline
  parse_pipeline-Parsed ts e s h =
      Stops-bind (Parsed ts e) (parse_command s) _ (parse_command-Parsed ts e s h) (λ r (us, k, le).
        Stops-mono (pipeline_loop (suc r.1.len) _ r.1) (λ q. Onward-trans ts us e q.1 le)
          (pipeline_loop-Parsed (suc r.1.len) us e _ r.1 k (omega (arith, Left-length r.1 e us k))))

  and_or_loop-Parsed :
      (f count : ℕ) (done : List AndOrElement) (tail : AndOrElement) (ts : List Token) (e : Token)
      (s : TokenStream)
      → Left s ts e
      → length ts < f
      → Stops (Parsed ts e) (and_or_loop f count done tail s)
  and_or_loop-Parsed zero count done tail ts e s h fuel = absurd (omega arith)
  and_or_loop-Parsed (suc f) count done tail ts e s h fuel =
      elim (Bool-cases (ts_check s tok_and || ts_check s tok_or)) [
        | inl on ↦
            let (us, l, lt) = read_two-Left tok_and tok_or s e ts h refl refl on in
            rw (and_or_loop_on f count done tail s on) (
              Stops-bind (Parsed ts e) (parse_pipeline (ts_read s).1) _
                (parse_pipeline-Parsed us e (ts_read s).1 l)
                (λ r (vs, k, le).
                  Stops-mono (and_or_loop f (count + 1) _ _ r.1)
                    (λ q. Onward-trans ts vs e q.1 (omega arith))
                    (and_or_loop-Parsed f (count + 1) _ _ vs e r.1 k (omega arith))))
        | inr off ↦ rw (and_or_loop_off f count done tail s off) (ts, h, omega arith)
      ]

  parse_and_or-Parsed :
      (ts : List Token) (e : Token) (s : TokenStream)
      → Left s ts e
      → Stops (Parsed ts e) (parse_and_or s)
  unfolding parse_and_or
  parse_and_or-Parsed ts e s h =
      Stops-bind (Parsed ts e) (parse_pipeline s) _ (parse_pipeline-Parsed ts e s h)
        (λ r (us, k, le).
          Stops-mono (and_or_loop (suc r.1.len) 1 [] _ r.1) (λ q. Onward-trans ts us e q.1 le)
            (and_or_loop-Parsed (suc r.1.len) 1 [] _ us e r.1 k
              (omega (arith, Left-length r.1 e us k))))

  list_loop-Parsed :
      (f count : ℕ) (done : List ListElement) (tail : ListElement) (ts : List Token) (e : Token)
      (s : TokenStream)
      → Left s ts e
      → length ts < f
      → Stops (Parsed ts e) (list_loop f count done tail s)
  list_loop-Parsed zero count done tail ts e s h fuel = absurd (omega arith)
  list_loop-Parsed (suc f) count done tail ts e s h fuel =
      elim (Bool-cases (ts_check s tok_semi || ts_check s tok_amp)) [
        | inl on ↦
            let (us, l, lt) = read_two-Left tok_semi tok_amp s e ts h refl refl on in
            elim (Bool-cases (at_list_end (ts_read s).1)) [
              | inl stop ↦ rw (list_loop_end f count done tail s on stop) (us, l, omega arith)
              | inr more ↦ rw (list_loop_on f count done tail s on more) (
                  Stops-bind (Parsed ts e) (parse_and_or (ts_read s).1) _
                    (parse_and_or-Parsed us e (ts_read s).1 l)
                    (λ r (vs, k, le).
                      Stops-mono (list_loop f (count + 1) _ _ r.1)
                        (λ q. Onward-trans ts vs e q.1 (omega arith))
                        (list_loop-Parsed f (count + 1) _ _ vs e r.1 k (omega arith))))
            ]
        | inr off ↦ rw (list_loop_off f count done tail s off) (ts, h, omega arith)
      ]

  -- On a stream that ends in TOK_EOF `parse_list` comes to an end, and leaves a stream that still
  -- does.
  pub parse_list-Parsed :
      (ts : List Token) (e : Token) (s : TokenStream)
      → Left s ts e
      → Stops (Parsed ts e) (parse_list s)
  unfolding parse_list
  parse_list-Parsed ts e s h =
      Stops-bind (Parsed ts e) (parse_and_or s) _ (parse_and_or-Parsed ts e s h) (λ r (us, k, le).
        Stops-mono (list_loop (suc r.1.len) 1 [] _ r.1) (λ q. Onward-trans ts us e q.1 le)
          (list_loop-Parsed (suc r.1.len) 1 [] _ us e r.1 k
            (omega (arith, Left-length r.1 e us k))))

  -- No line keeps `lex_and_parse` running for ever.
  pub lex_and_parse-ne-out_of_fuel : (input : Bytes) → lex_and_parse input ≢ out_of_fuel
  unfolding lex_and_parse
  lex_and_parse-ne-out_of_fuel input =
      Stops-ne (λ _. Unit {0}) (lex_and_parse input)
        (Stops-bind (λ _. Unit {0}) (lx_tokenize tokenlist_new_empty (cs_new input)) _
          (lx_tokenize-Stops input) parsed)
    where
      parsed :
          (r : ℕ × TokenList × CharStream)
          → IsCounted r.1 × (r.0 ≡ 0 → EndsInEof r.1.tokens)
          → Stops
              (λ _. Unit {0})
              (elim (r.0 == 0) [
                | true ↦ parse_list (ts_new r.1) >>= λ result. ok (some result.0)
                | false ↦ ok none
              ])
      parsed (errno, tokens, stream) w = elim (Bool-cases (errno == 0)) [
        | inl z ↦
            let (init, last, same, is_last) = w.1 (ground arith) in
            rw z (
              Stops-bind (λ _. Unit {0}) (parse_list (ts_new tokens)) _
                (parse_list-Parsed init last (ts_new tokens)
                  (ts_new-Left tokens init last w.0 same is_last))
                (λ _ _. tt))
        | inr ne ↦ rw ne tt
      ]
