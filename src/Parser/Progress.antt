-- ===== src/Parser/Progress.antt =====
-- src/parser.c: the parsing loops on a stream that ends in TOK_EOF.
use codecrafters_shell_c.Parser.Parse.{Allocator}
use codecrafters_shell_c.Common.{
  ℕ, zero, suc, ◌≤◌, ◌<◌, ◌≡◌, ap, ◌∙◌, inl, inr, Bool, true, false, List, [], ◌∷◌, ◌++◌, arith,
  length, some, none, Option, if◌then◌else◌, ◌==◌, Bool-cases,
}
use codecrafters_shell_c.Common.Bytes.{Bytes}
use codecrafters_shell_c.Common.Outcome.{Outcome, ok, ◌>>=◌, Stops, Stops-bind, Stops-mono}
use codecrafters_shell_c.Tokens.{TokenType, tok_word, tok_assignment_word, tok_eof, Token}
use codecrafters_shell_c.Syntax.{Redirect, Command}
use codecrafters_shell_c.Parser.Stream.{TokenStream, ts_peek, ts_read, ts_check, ts_expect}
use codecrafters_shell_c.Parser.Vectors.{ArgVector, av_append, RedirVec, rv_append}
use codecrafters_shell_c.Parser.Parse.{
  is_redirect, Parts, take_arg, take_target, take_token, make_command, command_loop, parse_command,
}
use codecrafters_shell_c.Parser.Left.{
  Left, Left-length, ts_peek-Left_last, ts_read-Left, ts_check-Left_last,
}

-- The stream has no more tokens left than `ts`, and still ends in `e`.
abbrev pub Onward : List Token → Token → TokenStream → Type 0
Onward ts e s = (us : List Token) × Left s us e × (length us ≤ length ts)

pub Onward-trans :
    (ts us : List Token) (e : Token) (s : TokenStream)
    → length us ≤ length ts
    → Onward us e s
    → Onward ts e s
Onward-trans ts us e s h (vs, l, k) = (vs, l, omega arith)

av_append-Stops : (vec : ArgVector) (arg : Bytes) → Stops (λ _. Unit {0}) (av_append vec arg)
unfolding av_append
av_append-Stops vec arg = ground arith

rv_append-Stops : (vec : RedirVec) (r : Redirect) → Stops (λ _. Unit {0}) (rv_append vec r)
unfolding rv_append
rv_append-Stops vec r = ground arith

module _ ⦃alloc : Allocator⦄ where
  make_command-Stops : (p : Parts) → Stops (λ _. Unit {0}) (make_command p)
  unfolding make_command
  make_command-Stops p = ground arith

  abbrev Took : List Token → Token → Option Parts → Type 0
  Took ts e none = Unit {0}
  Took ts e (some p) = Onward ts e p.stream

  module _ (t : Token) (ts : List Token) (e : Token) (p : Parts)
      (h : Left p.stream (t ∷ ts) e) where
    take_arg-Stops : (word : Bytes) → Stops (Took ts e) (take_arg word p)
    unfolding take_arg
    take_arg-Stops word =
        Stops-bind (Took ts e) (av_append p.av word) _ (av_append-Stops p.av word)
          (λ av _. (ts, (ts_read-Left p.stream e t ts h).1, omega arith))

    take_target-Stops :
        (tok : Token) (us : List Token) (s : TokenStream)
        → Left s us e
        → length us ≤ length ts
        → Stops (Took ts e) (take_target tok (ts_expect s tok_word) p)
    unfolding take_target ts_expect
    take_target-Stops tok [] s l k = rw (ts_check-Left_last s e tok_word l) tt
    take_target-Stops tok (u ∷ us) s l k = elim (Bool-cases (ts_check s tok_word)) [
      | inl e₁ ↦
          rw (e₁, take_target)
            (Stops-bind (Took ts e) (rv_append p.rv _) _ (rv_append-Stops p.rv _)
              (λ rv _. (us, (ts_read-Left s e u us l).1, omega arith)))
      | inr e₁ ↦ rw (e₁, take_target) tt
    ]

    take_redirect-Stops :
        (redirect : Bool) (tok : Token)
        → Stops (Took ts e) (
            if redirect
            then take_target tok (ts_expect (ts_read p.stream).1 tok_word) p
            else ok none)
    take_redirect-Stops true tok =
        take_target-Stops tok ts (ts_read p.stream).1 (ts_read-Left p.stream e t ts h).1
          (omega arith)
    take_redirect-Stops false tok = tt

    take_assignment-Stops :
        (first : Bool) (word : Bytes)
        → Stops (Took ts e) (
            if first
            then ok (
                some (record p {
                  assignments = p.assignments ++ word ∷ [];
                  stream = (ts_read p.stream).1;
                }))
            else take_arg word p)
    take_assignment-Stops true word = (ts, (ts_read-Left p.stream e t ts h).1, omega arith)
    take_assignment-Stops false word = take_arg-Stops word

    -- A round that does not pass the token back up takes it off the stream.
    take_token-Stops : (type : TokenType) (tok : Token) → Stops (Took ts e) (take_token type tok p)
    unfolding take_token
    take_token-Stops tok_word tok = take_arg-Stops tok.value
    take_token-Stops tok_assignment_word tok = take_assignment-Stops (p.av.size == 0) tok.value
    take_token-Stops type tok = take_redirect-Stops (is_redirect type) tok

  take_token_eof :
      (type : TokenType) (tok : Token) (p : Parts)
      → type ≡ tok_eof
      → take_token type tok p ≡ ok none
  unfolding take_token is_redirect
  take_token_eof type tok p h = rw h

  abbrev pub Parsed {ℓ} : {A : Type ℓ} → List Token → Token → A × TokenStream → Type 0
  Parsed ts e r = Onward ts e r.1

  make-Parsed :
      (ts : List Token) (e : Token) (p : Parts)
      → Left p.stream ts e
      → Stops (Parsed ts e) (make_command p >>= λ command. ok (command, p.stream))
  make-Parsed ts e p h =
      Stops-bind (Parsed ts e) (make_command p) _ (make_command-Stops p)
        (λ command _. (ts, h, omega arith))

  command_loop-Parsed :
      (f : ℕ) (ts : List Token) (e : Token) (p : Parts)
      → Left p.stream ts e
      → length ts < f
      → Stops (Parsed ts e) (command_loop f p)
  unfolding command_loop
  command_loop-Parsed zero ts e p h fuel = absurd (omega arith)
  command_loop-Parsed (suc f) [] e p h fuel =
      rw
        (take_token_eof (ts_peek p.stream).type (ts_peek p.stream) p
          (ap (λ (t : Token). t.type) (ts_peek-Left_last p.stream e h) ∙ h.last))
        (make-Parsed [] e p h)
  command_loop-Parsed (suc f) (t ∷ ts) e p h fuel =
      let tok = ts_peek p.stream in
      Stops-bind (Parsed (t ∷ ts) e) (take_token tok.type tok p) _
        (take_token-Stops t ts e p h tok.type tok)
        (next (command_loop f) (λ us q k l. command_loop-Parsed f us e q k l))
    where
      next :
          (more : Parts → Outcome (Command × TokenStream))
          → ((us : List Token) (q : Parts)
              → Left q.stream us e
              → length us < f
              → Stops (Parsed us e) (more q))
          → (taken : Option Parts) → Took ts e taken
          → Stops (Parsed (t ∷ ts) e) (elim taken [
            | none ↦ make_command p >>= λ command. ok (command, p.stream)
            | some q ↦ more q
          ])
      next more ih none w = make-Parsed (t ∷ ts) e p h
      next more ih (some q) (us, l, k) =
          Stops-mono (more q) (λ r. Onward-trans (t ∷ ts) us e r.1 (omega arith))
            (ih us q l (omega arith))

  pub parse_command-Parsed :
      (ts : List Token) (e : Token) (s : TokenStream)
      → Left s ts e
      → Stops (Parsed ts e) (parse_command s)
  unfolding parse_command
  parse_command-Parsed ts e s h =
      command_loop-Parsed (suc s.len) ts e _ h (omega (arith, Left-length s e ts h))
