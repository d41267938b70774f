-- ===== src/Exec/Sessions.antt =====
-- src/exec.c: what the loop of `repl` does with the lines of a session.
use codecrafters_shell_c.Common.{
  ℕ, ◌∙◌, ap, ◌≡◌, refl, ◌≢◌, true, List, [], ◌∷◌, ◌++◌, Option, some,
}
use codecrafters_shell_c.Common.Bytes.{Bytes}
use codecrafters_shell_c.Common.Outcome.{
  fault, exited, bind_ext, bind_ext, exited, Outcome, ◌>>=◌, ok, out_of_fuel,
}
use codecrafters_shell_c.Lexer.Lexemes.{Lexeme}
use codecrafters_shell_c.Lexer.Written.{written, is_readable, written_tokens}
use codecrafters_shell_c.Parser.Parse.{Allocator, WholeWords}
use codecrafters_shell_c.Parser.Grammar.{Line, line_tokens, line_tree, SmallLine}
use codecrafters_shell_c.Parser.Whole.{lex_and_parse-written}
use codecrafters_shell_c.Exec.Services.{Services}
use codecrafters_shell_c.Exec.Execute.{execute_list}
use codecrafters_shell_c.Exec.Repl.{
  ReplState, execute_parsed, execute_line, repl_round, repl_rounds,
}

-- A line as it is typed: what it means, and how it is written.
pub record Typed : Type 0 where
  pub line : Line
  pub lexemes : List (Bytes × Lexeme)
  pub tail : Bytes

abbrev pub typed_text : Typed → Bytes
typed_text t = written t.lexemes t.tail

-- The writing is that of the line, and there is something in it.
pub record IsTyped (t : Typed) : Type 0 where
  pub same : written_tokens t.lexemes ≡ line_tokens t.line
  pub small : SmallLine t.line
  pub readable : is_readable t.lexemes t.tail ≡ true
  pub some_text : typed_text t ≢ []

abbrev pub AllTyped : List Typed → Type 0
AllTyped [] = Unit {0}
AllTyped (t ∷ ts) = IsTyped t × AllTyped ts

abbrev pub typed_inputs : List Typed → List (Option Bytes)
typed_inputs [] = []
typed_inputs (t ∷ ts) = some (typed_text t) ∷ typed_inputs ts

module _ ⦃alloc : Allocator⦄ ⦃words : WholeWords alloc⦄ (sys : Services)
    (check_background_jobs : sys.World → Outcome sys.World) where
  open sys use {World}

  -- Independently of the loop: each line is run from its tree, one behind the other, and stands in
  -- the history. Where a line faults, ends the shell or does not come back, no other one is run.
  unfoldable pub session : List Typed → ReplState World → Outcome (ReplState World)
  session [] s = ok s
  session (t ∷ ts) s = do
    world ← check_background_jobs s.world
    (status, world') ← execute_list sys (line_tree t.line) world
    session ts
        (record { history = s.history ++ typed_text t ∷ []; exit_status = status; world = world' })

  repl_round-some :
      (text : Bytes) (s : ReplState World)
      → text ≢ []
      → repl_round sys check_background_jobs (some text) s ≡ (
          check_background_jobs s.world >>= λ world.
          execute_line sys check_background_jobs text (record s { world = world }))
  unfolding repl_round
  repl_round-some [] s h = absurd (h refl)
  repl_round-some (c ∷ cs) s h = refl

  execute_line-typed :
      (t : Typed) (s : ReplState World)
      → IsTyped t
      → execute_line sys check_background_jobs (typed_text t) s ≡ (
          execute_list sys (line_tree t.line) s.world >>= λ (status, world'). ok (record {
            history = s.history ++ typed_text t ∷ [];
            exit_status = status;
            world = world';
          }))
  unfolding execute_line execute_parsed
  execute_line-typed t s typed =
      rw (lex_and_parse-written t.line t.lexemes t.tail typed.same typed.small typed.readable) refl

  -- A line of the session and then the others, where the others are as they should be.
  line_then :
      (t : Typed) (ts : List Typed) (s : ReplState World)
      → ((s' : ReplState World)
          → repl_rounds sys check_background_jobs (typed_inputs ts) s' ≡ session ts s')
      → (checked : Outcome World)
      → (checked
          >>= (λ world. execute_list sys (line_tree t.line) world >>= λ (status, world').
              ok (record {
                history = s.history ++ typed_text t ∷ [];
                exit_status = status;
                world = world';
              }))
          >>= repl_rounds sys check_background_jobs (typed_inputs ts))
        ≡ (checked >>= λ world. execute_list sys (line_tree t.line) world >>= λ (status, world').
            session ts (record {
              history = s.history ++ typed_text t ∷ [];
              exit_status = status;
              world = world';
            }))
  line_then t ts s others fault = refl
  line_then t ts s others out_of_fuel = refl
  line_then t ts s others (exited n) = refl
  line_then t ts s others (ok world) = run (execute_list sys (line_tree t.line) world)
    where
      after : ℕ × World → ReplState World
      after (status, world') = record {
        history = s.history ++ typed_text t ∷ [];
        exit_status = status;
        world = world';
      }

      run :
          (m : Outcome (ℕ × World))
          → ((m >>= λ r. ok (after r)) >>= repl_rounds sys check_background_jobs (typed_inputs ts))
            ≡ (m >>= λ r. session ts (after r))
      run fault = refl
      run out_of_fuel = refl
      run (exited n) = refl
      run (ok r) = others (after r)

  pub repl_rounds-session :
      (ts : List Typed) (s : ReplState World)
      → AllTyped ts
      → repl_rounds sys check_background_jobs (typed_inputs ts) s ≡ session ts s
  unfolding repl_rounds session
  repl_rounds-session [] s h = refl
  repl_rounds-session (t ∷ ts) s (typed, others) =
      ap (λ m. m >>= repl_rounds sys check_background_jobs (typed_inputs ts))
        (repl_round-some (typed_text t) s typed.some_text
          ∙ bind_ext (check_background_jobs s.world) _ _
              (λ world. execute_line-typed t (record s { world = world }) typed))
      ∙ line_then t ts s (λ s'. repl_rounds-session ts s' others) (check_background_jobs s.world)
