-- ===== src/Parser/Commands.antt =====
-- src/parser.c: `parse_command` reads back the tokens of a command.
use codecrafters_shell_c.Parser.Parse.{Allocator, WholeWords}
use codecrafters_shell_c.Common.{
  ◌*◌, suc, ◌+◌, ◌-◌, ◌≤◌, ◌≡◌, refl, ap, subst, ◌∙◌, Bool, true, false, List, [], ◌∷◌, ◌++◌, map,
  append_assoc, arith, length, length-append, none,
}
use codecrafters_shell_c.Common.Bytes.{Bytes}
use codecrafters_shell_c.Common.Outcome.{ok}
use codecrafters_shell_c.Tokens.{TokenType, tok_word, tok_assignment_word, Token, newtok}
use codecrafters_shell_c.Syntax.{Redirect, Command}
use codecrafters_shell_c.Parser.Stream.{TokenStream, ts_peek}
use codecrafters_shell_c.Parser.Vectors.{av_new, rv_new}
use codecrafters_shell_c.Parser.Parse.{
  is_redirect, Parts, take_token, make_command, command_loop, parse_command,
}
use codecrafters_shell_c.Parser.Left.{Left, Left-length, ts_peek-Left_last}
use codecrafters_shell_c.Parser.Steps.{command_loop_back}
use codecrafters_shell_c.Parser.Grammar.{redirect_tokens, command_tokens, IsSmall}
use codecrafters_shell_c.Parser.Reading.{
  At, round-Left, read_assignments, read_args, read_redirects,
}

-- What ends a command: the end of the line, or an operator.
abbrev pub ends_command : TokenType → Bool
ends_command tok_word = false
ends_command tok_assignment_word = false
ends_command TokenType.tok_redir_in = false
ends_command TokenType.tok_redir_out = false
ends_command TokenType.tok_redir_append = false
ends_command TokenType.tok_redir_heredoc = false
ends_command _ = true

abbrev pub EndsCommand : List Token → Type 0
EndsCommand [] = Unit {0}
EndsCommand (t ∷ ts) = ends_command t.type ≡ true

take_token_end :
    (type : TokenType) (tok : Token) (p : Parts)
    → ends_command type ≡ true
    → take_token type tok p ≡ ok none
unfolding take_token is_redirect
take_token_end tok_word tok p h = cc
take_token_end tok_assignment_word tok p h = cc
take_token_end TokenType.tok_redir_in tok p h = cc
take_token_end TokenType.tok_redir_out tok p h = cc
take_token_end TokenType.tok_redir_append tok p h = cc
take_token_end TokenType.tok_redir_heredoc tok p h = cc
take_token_end _ tok p h = refl

take_token_back :
    (ts : List Token) (e : Token) (p : Parts)
    → Left p.stream ts e
    → EndsCommand ts
    → take_token (ts_peek p.stream).type (ts_peek p.stream) p ≡ ok none
take_token_back [] e p l h =
    ap (λ (u : Token). take_token u.type u p) (ts_peek-Left_last p.stream e l)
    ∙ take_token_end e.type e p (ap ends_command l.last)
take_token_back (t ∷ ts) e p l h = round-Left t ts e p l ∙ take_token_end t.type t p h

module _ ⦃alloc : Allocator⦄ ⦃words : WholeWords alloc⦄ where
  make_command_eq :
      (p : Parts) (c : Command) → At p c.assignment_list c.argv c.redirs → make_command p ≡ ok c
  unfolding make_command
  make_command_eq p c a = ground (
    arith,
    words.words_fit (8 * p.av.size + 1),
    a.holds_args.arr,
    a.assigned_so_far,
    a.holds_redirs.arr,
  )

  length-map_token : (f : Bytes → Token) (xs : List Bytes) → length (map f xs) ≡ length xs
  length-map_token f [] = refl
  length-map_token f (x ∷ xs) = ap suc (length-map_token f xs)

  length-redirect_tokens : (rs : List Redirect) → length rs ≤ length (redirect_tokens rs)
  length-redirect_tokens [] = omega arith
  length-redirect_tokens (r ∷ rs) = omega (arith, length-redirect_tokens rs)

  command_tokens_assoc :
      (c : Command) (ts : List Token)
      → command_tokens c ++ ts
        ≡ map (newtok tok_assignment_word) c.assignment_list
          ++ (map (newtok tok_word) c.argv ++ (redirect_tokens c.redirs ++ ts))
  command_tokens_assoc c ts = simp append_assoc

  -- There are at least as many tokens as rounds.
  rounds-le :
      (c : Command) (ts : List Token) (e : Token) (s : TokenStream)
      → Left s (command_tokens c ++ ts) e
      → length c.assignment_list + length c.argv + length c.redirs ≤ s.len
  rounds-le c ts e s l =
      let A = map (newtok tok_assignment_word) c.assignment_list in
      let W = map (newtok tok_word) c.argv in
      let R = redirect_tokens c.redirs in
      omega (
        arith,
        Left-length s e (command_tokens c ++ ts) l,
        length-append (A ++ (W ++ R)) ts,
        length-append A (W ++ R),
        length-append W R,
        length-map_token (newtok tok_assignment_word) c.assignment_list,
        length-map_token (newtok tok_word) c.argv,
        length-redirect_tokens c.redirs,
      )

  -- `parse_command` reads a command off its tokens, up to whatever ends it.
  pub parse_command_lem :
      (c : Command) (ts : List Token) (e : Token) (s : TokenStream)
      → Left s (command_tokens c ++ ts) e
      → EndsCommand ts
      → IsSmall c
      → (s' : TokenStream) × (parse_command s ≡ ok (c, s')) × Left s' ts e
  unfolding parse_command
  parse_command_lem c ts e s l ends small =
      let start : Parts = record { av = av_new; rv = rv_new; assignments = []; stream = s } in
      let (p, run_p, after_p) =
        read_assignments c.assignment_list _ e start []
          (subst (λ xs. Left s xs e) (command_tokens_assoc c ts) l) start_At in
      let (q, run_q, after_q) =
        read_args c.argv _ e p c.assignment_list [] after_p.1 after_p.0
          (omega (arith, small.few_args)) in
      let (r, run_r, after_r) =
        read_redirects c.redirs ts e q c.assignment_list c.argv [] after_q.1 after_q.0 small.known
          (omega (arith, small.few_redirs)) in
      let n = s.len - (length c.assignment_list + length c.argv + length c.redirs) in
      (
        r.stream,
        ap (λ m. command_loop m start) {x = suc s.len}
              {y = length c.assignment_list + (length c.argv + (length c.redirs + suc n))}
              (omega (arith, rounds-le c ts e s l))
            ∙ run_p _
            ∙ run_q _
            ∙ run_r (suc n)
            ∙ command_loop_back n r (take_token_back ts e r after_r.1 ends)
            ∙ rw (make_command_eq r c after_r.0),
        after_r.1,
      )
    where
      start_At : At (record { av = av_new; rv = rv_new; assignments = []; stream = s }) [] [] []
      start_At =
          unfold av_new rv_new in
          record {
            holds_args = record { size = refl; capacity = refl; room = refl; arr = refl };
            holds_redirs = record { size = refl; capacity = refl; room = refl; arr = refl };
            assigned_so_far = refl;
          }
