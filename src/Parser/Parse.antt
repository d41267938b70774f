-- ===== src/Parser/Parse.antt =====
-- src/parser.c: the recursive descent over a token stream, and `lex_and_parse`. The loops take
-- fuel; each is handed more than the tokens of the stream.
use codecrafters_shell_c.Common.{
  ℕ, ◌≤◌, zero, suc, ◌+◌, ◌*◌, ◌/◌, Bool, true, false, ◌||◌, List, [], ◌∷◌, ◌++◌, ◌==◌, leb,
  if◌then◌else◌, Option, none, some,
}
use codecrafters_shell_c.Common.Bytes.{Bytes}
use codecrafters_shell_c.Common.Outcome.{Outcome, ok, fault, out_of_fuel, ◌>>=◌}
use codecrafters_shell_c.Tokens.{
  TokenType, tok_word, tok_assignment_word, tok_pipe, tok_and, tok_or, tok_semi, tok_amp,
  tok_redir_in, tok_redir_out, tok_redir_append, tok_redir_heredoc, tok_newline, tok_eof, Token,
  tokenlist_new_empty,
}
use codecrafters_shell_c.Lexer.Stream.{cs_new}
use codecrafters_shell_c.Lexer.Tokenize.{lx_tokenize}
use codecrafters_shell_c.Syntax.{
  RedirMode, redir_in, redir_out, redir_append, redir_heredoc, redir_err, Command, Pipeline,
  and_none, and_and, and_or, AndOrElement, AndOr, sep_semi, sep_amp, sep_none, ListElement,
  ShellList,
}
use codecrafters_shell_c.Parser.Stream.{
  TokenStream, ts_new, ts_peek, ts_read, ts_check, ts_match, ts_expect, ts_at_end,
}
use codecrafters_shell_c.Parser.Vectors.{ArgVector, av_new, av_append, RedirVec, rv_new, rv_append}

unfoldable pub is_redirect : TokenType → Bool
is_redirect tok_redir_append = true
is_redirect tok_redir_heredoc = true
is_redirect tok_redir_in = true
is_redirect tok_redir_out = true
is_redirect _ = false

unfoldable pub from_redir_tok : TokenType → RedirMode
from_redir_tok tok_redir_in = redir_in
from_redir_tok tok_redir_out = redir_out
from_redir_tok tok_redir_append = redir_append
from_redir_tok tok_redir_heredoc = redir_heredoc
from_redir_tok _ = redir_err

-- The locals of `parse_command`.
pub record Parts : Type 0 where
  pub av : ArgVector
  pub rv : RedirVec
  pub assignments : List Bytes
  pub stream : TokenStream

-- A word, or an assignment behind the first word.
unfoldable pub take_arg : Bytes → Parts → Outcome (Option Parts)
take_arg word p = do
  av ← av_append p.av word
  ok (some (record p { av = av; stream = (ts_read p.stream).1 }))

-- The null pointer of `ts_expect` is read at once.
unfoldable pub take_target : Token → Option Token × TokenStream → Parts → Outcome (Option Parts)
take_target tok (none, stream) p = fault
take_target tok (some target, stream) p = do
  rv ←
      rv_append p.rv (record { fd = tok.fd; mode = from_redir_tok tok.type; target = target.value })
  ok (some (record p { rv = rv; stream = stream }))

-- One round of the loop of `parse_command` at a token of the given type; `none`: the token is
-- passed back up.
unfoldable pub take_token : TokenType → Token → Parts → Outcome (Option Parts)
unfolding take_arg take_target is_redirect
take_token tok_word tok p = take_arg tok.value p
take_token tok_assignment_word tok p =
    if p.av.size == 0
    then ok (
        some (record p {
          assignments = p.assignments ++ tok.value ∷ [];
          stream = (ts_read p.stream).1;
        }))
    else take_arg tok.value p
take_token type tok p =
    if is_redirect type
    then take_target tok (ts_expect (ts_read p.stream).1 tok_word) p
    else ok none

-- Nothing but the end of the line follows a separator.
unfoldable pub at_list_end : TokenStream → Bool
at_list_end stream = ts_at_end stream || ts_check stream tok_eof || ts_check stream tok_newline

-- `malloc`, of another library: how many bytes of a block can be used, by the number asked for.
pub record Allocator : Type 0 where
  pub usable : ℕ → ℕ

-- What the parser relies on: a block can be used up to the next whole machine word, as of an
-- allocator that hands out words, though no more is asked for.
pub record WholeWords (alloc : Allocator) : Type 0 where
  pub words_fit : (n : ℕ) → 8 * ((n + 7) / 8) ≤ alloc.usable n

module _ ⦃alloc : Allocator⦄ where
  -- `argv` is allocated with `8 * argc + 1` bytes and then written up to the end of entry `argc`.
  unfoldable pub make_command : Parts → Outcome Command
  make_command p =
      if leb (8 * (p.av.size + 1)) (alloc.usable (8 * p.av.size + 1))
      then ok (record { argv = p.av.arr; assignment_list = p.assignments; redirs = p.rv.arr })
      else fault

  unfoldable pub command_loop : ℕ → Parts → Outcome (Command × TokenStream)
  unfolding take_token make_command
  command_loop zero p = out_of_fuel
  command_loop (suc f) p =
      let tok = ts_peek p.stream in
      take_token tok.type tok p >>= elim [
        | none ↦ do command ← make_command p; ok (command, p.stream)
        | some p' ↦ command_loop f p'
      ]

  unfoldable pub parse_command : TokenStream → Outcome (Command × TokenStream)
  unfolding command_loop
  parse_command stream =
      command_loop (suc stream.len)
        (record { av = av_new; rv = rv_new; assignments = []; stream = stream })

  unfoldable pub pipeline_loop : ℕ → Pipeline → TokenStream → Outcome (Pipeline × TokenStream)
  pipeline_loop zero pipeline stream = out_of_fuel
  pipeline_loop (suc f) pipeline stream =
      let (matched, stream') = ts_match stream tok_pipe in
      elim matched [
        | true ↦ parse_command stream' >>= λ (command, stream'').
            pipeline_loop f
              (record { size = pipeline.size + 1; commands = pipeline.commands ++ command ∷ [] })
              stream''
        | false ↦ ok (pipeline, stream')
      ]

  unfoldable pub parse_pipeline : TokenStream → Outcome (Pipeline × TokenStream)
  unfolding pipeline_loop
  parse_pipeline stream = parse_command stream >>= λ (first, stream').
      pipeline_loop (suc stream'.len) (record { size = 1; commands = first ∷ [] }) stream'

  -- `done` are the elements before the tail. The operator is stored in the tail, and the element
  -- behind it becomes the tail.
  unfoldable pub and_or_loop :
      ℕ → ℕ → List AndOrElement → AndOrElement → TokenStream → Outcome (AndOr × TokenStream)
  and_or_loop zero count done tail stream = out_of_fuel
  and_or_loop (suc f) count done tail stream =
      elim (ts_check stream tok_and || ts_check stream tok_or) [
        | true ↦
            let op = if ts_check stream tok_and then and_and else and_or in
            parse_pipeline (ts_read stream).1 >>= λ (next, stream').
            and_or_loop f (count + 1) (done ++ record tail { op = op } ∷ [])
              (record { pipeline = next; op = and_none }) stream'
        | false ↦ ok (record { count = count; elements = done ++ tail ∷ [] }, stream)
      ]

  unfoldable pub parse_and_or : TokenStream → Outcome (AndOr × TokenStream)
  unfolding and_or_loop
  parse_and_or stream = parse_pipeline stream >>= λ (first, stream').
      and_or_loop (suc stream'.len) 1 [] (record { pipeline = first; op = and_none }) stream'

  unfoldable pub list_loop :
      ℕ → ℕ → List ListElement → ListElement → TokenStream → Outcome (ShellList × TokenStream)
  unfolding at_list_end
  list_loop zero count done tail stream = out_of_fuel
  list_loop (suc f) count done tail stream =
      elim (ts_check stream tok_semi || ts_check stream tok_amp) [
        | true ↦
            let tail' = record tail {
              sep = if ts_check stream tok_semi then sep_semi else sep_amp;
            } in
            let stream' = (ts_read stream).1 in
            elim (at_list_end stream') [
              | true ↦ ok (record { count = count; elements = done ++ tail' ∷ [] }, stream')
              | false ↦ parse_and_or stream' >>= λ (next, stream'').
                  list_loop f (count + 1) (done ++ tail' ∷ [])
                    (record { and_or = next; sep = sep_none }) stream''
            ]
        | false ↦ ok (record { count = count; elements = done ++ tail ∷ [] }, stream)
      ]

  unfoldable pub parse_list : TokenStream → Outcome (ShellList × TokenStream)
  unfolding list_loop
  parse_list stream = parse_and_or stream >>= λ (first, stream').
      list_loop (suc stream'.len) 1 [] (record { and_or = first; sep = sep_none }) stream'

  -- A null pointer (`none`) where the input does not tokenize.
  unfoldable pub lex_and_parse : Bytes → Outcome (Option ShellList)
  lex_and_parse input = lx_tokenize tokenlist_new_empty (cs_new input) >>= λ (errno, tokens, _).
      elim (errno == 0) [
        | true ↦ do result ← parse_list (ts_new tokens); ok (some result.0)
        | false ↦ ok none
      ]
