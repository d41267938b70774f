-- ===== src/Parser/Steps.antt =====
-- src/parser.c: one round of each parsing loop, by the test that decides it.
use codecrafters_shell_c.Parser.Parse.{Allocator}
use codecrafters_shell_c.Common.{
  ℕ, suc, ◌+◌, ◌≡◌, ◌||◌, true, false, List, [], ◌∷◌, ◌++◌, arith, some, none, if◌then◌else◌,
}
use codecrafters_shell_c.Common.Outcome.{ok, ◌>>=◌}
use codecrafters_shell_c.Tokens.{tok_pipe, tok_and, tok_or, tok_semi, tok_amp}
use codecrafters_shell_c.Syntax.{
  Pipeline, AndOrElement, and_and, and_or, and_none, ListElement, sep_semi, sep_amp, sep_none,
}
use codecrafters_shell_c.Parser.Stream.{TokenStream, ts_read, ts_check, ts_match, ts_peek}
use codecrafters_shell_c.Parser.Parse.{
  Parts, make_command, take_token, command_loop, parse_command, pipeline_loop, parse_pipeline,
  and_or_loop, parse_and_or, at_list_end, list_loop,
}

module _ ⦃alloc : Allocator⦄ where
  module _ (f : ℕ) (p : Parts) where
    pub command_loop_back :
        take_token (ts_peek p.stream).type (ts_peek p.stream) p ≡ ok none
        → command_loop (suc f) p ≡ (make_command p >>= λ command. ok (command, p.stream))
    unfolding command_loop
    command_loop_back e = rw (e, command_loop)

    pub command_loop_on :
        (q : Parts)
        → take_token (ts_peek p.stream).type (ts_peek p.stream) p ≡ ok (some q)
        → command_loop (suc f) p ≡ command_loop f q
    unfolding command_loop
    command_loop_on q e = rw (e, command_loop)

  module _ (f : ℕ) (pipeline : Pipeline) (s : TokenStream) where
    pub pipeline_loop_on :
        ts_check s tok_pipe ≡ true
        → pipeline_loop (suc f) pipeline s ≡ (
            parse_command (ts_read s).1 >>= λ (command, s').
            pipeline_loop f
              (record { size = pipeline.size + 1; commands = pipeline.commands ++ command ∷ [] })
              s')
    unfolding pipeline_loop ts_match ts_check
    pipeline_loop_on e = ground arith

    pub pipeline_loop_off :
        ts_check s tok_pipe ≡ false → pipeline_loop (suc f) pipeline s ≡ ok (pipeline, s)
    unfolding pipeline_loop ts_match ts_check
    pipeline_loop_off e = ground arith

  module _ (f count : ℕ) (done : List AndOrElement) (tail : AndOrElement) (s : TokenStream) where
    pub and_or_loop_on :
        (ts_check s tok_and || ts_check s tok_or) ≡ true
        → and_or_loop (suc f) count done tail s ≡ (
            parse_pipeline (ts_read s).1 >>= λ (next, s').
            and_or_loop f
              (count + 1)
              (done ++ record tail { op = if ts_check s tok_and then and_and else and_or } ∷ [])
              (record { pipeline = next; op = and_none })
              s')
    unfolding and_or_loop
    and_or_loop_on e = rw (e, and_or_loop)

    pub and_or_loop_off :
        (ts_check s tok_and || ts_check s tok_or) ≡ false
        → and_or_loop (suc f) count done tail s
          ≡ ok (record { count = count; elements = done ++ tail ∷ [] }, s)
    unfolding and_or_loop
    and_or_loop_off e = rw (e, and_or_loop)

  -- The separator before `s'` is stored in the tail.
  abbrev pub separated : ListElement → TokenStream → ListElement
  separated tail s = record tail { sep = if ts_check s tok_semi then sep_semi else sep_amp }

  module _ (f count : ℕ) (done : List ListElement) (tail : ListElement) (s : TokenStream) where
    pub list_loop_end :
        (ts_check s tok_semi || ts_check s tok_amp) ≡ true
        → at_list_end (ts_read s).1 ≡ true
        → list_loop (suc f) count done tail s
          ≡ ok (record { count = count; elements = done ++ separated tail s ∷ [] }, (ts_read s).1)
    unfolding list_loop
    list_loop_end e e' = rw (e, list_loop, e')

    pub list_loop_on :
        (ts_check s tok_semi || ts_check s tok_amp) ≡ true
        → at_list_end (ts_read s).1 ≡ false
        → list_loop (suc f) count done tail s ≡ (
            parse_and_or (ts_read s).1 >>= λ (next, s').
            list_loop f
              (count + 1)
              (done ++ separated tail s ∷ [])
              (record { and_or = next; sep = sep_none })
              s')
    unfolding list_loop
    list_loop_on e e' = rw (e, list_loop, e')

    pub list_loop_off :
        (ts_check s tok_semi || ts_check s tok_amp) ≡ false
        → list_loop (suc f) count done tail s
          ≡ ok (record { count = count; elements = done ++ tail ∷ [] }, s)
    unfolding list_loop
    list_loop_off e = rw (e, list_loop)
