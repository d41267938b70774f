-- ===== src/Exec/SessionTests.antt =====
-- src/exec.c: the theorems about the loop of `repl` at a session of two lines.
use codecrafters_shell_c.Common.{none, true}
use codecrafters_shell_c.Parser.Parse.{Allocator, WholeWords}
use codecrafters_shell_c.Common.{◌*◌, ◌+◌, ◌/◌}
use codecrafters_shell_c.Common.Outcome.{Outcome, ◌>>=◌}
use codecrafters_shell_c.Common.Outcome.{exited}
use codecrafters_shell_c.Common.{ℕ, some}
use codecrafters_shell_c.Syntax.{Pipeline}
use codecrafters_shell_c.Builtins.Table.{BuiltinE}
use codecrafters_shell_c.Exec.Process.{
  Ran, in_shell, forked, shell_exited, execute_pipeline, execute_pipes, fork_loop, pipes_after,
}
use codecrafters_shell_c.Common.{◌≡◌, refl, List, [], ◌∷◌, ◌++◌, map, arith}
use codecrafters_shell_c.Common.Bytes.{Bytes, bytes, isspace, isdigit}
use codecrafters_shell_c.Common.Outcome.{ok}
use codecrafters_shell_c.Lexer.Stream.{isoperator, toggle_flag}
use codecrafters_shell_c.Lexer.Words.{plain_from, is_plain, ends_word, is_closed, word_type}
use codecrafters_shell_c.Lexer.Signs.{
  bar, sign_text, sign_char, sign_type, is_twice, ends_sign, is_redirection,
}
use codecrafters_shell_c.Lexer.Blanks.{is_blank, all_space}
use codecrafters_shell_c.Lexer.Lexemes.{word, sign, lexeme_text, lexeme_token, reads_as, sign_fd}
use codecrafters_shell_c.Lexer.Written.{written, is_readable}
use codecrafters_shell_c.Parser.Grammar.{IsSmall}
use codecrafters_shell_c.Syntax.{Command}
use codecrafters_shell_c.Exec.Services.{Services}
use codecrafters_shell_c.Exec.Expansion.{expand_list}
use codecrafters_shell_c.Exec.Execute.{execute_list}
use codecrafters_shell_c.Exec.Repl.{ReplState, repl_rounds}
use codecrafters_shell_c.Exec.Sessions.{Typed, IsTyped, typed_inputs, session, repl_rounds-session}

-- Blocks of whole words.
instance abbrev in_words : Allocator
in_words = record { usable = λ n. 8 * ((n + 7) / 8) }

instance abbrev words : WholeWords in_words
words = record { words_fit = λ n. omega arith }

-- The shell's own `execute_pipeline`, where every command is found and forks. The world is the
-- commands of the pipelines that were run.
run_builtin : BuiltinE → ℕ → List Bytes → ℕ
run_builtin builtin argc argv = 0

-- What a pipeline that was run is to the loop.
abbrev ran : Pipeline → List (List (List Bytes)) → Ran → Outcome (ℕ × List (List (List Bytes)))
ran p w (in_shell status) = ok (status, w ++ map (λ c. c.argv) p.commands ∷ [])
ran p w (forked run) = ok (run.status, w ++ map (λ c. c.argv) p.commands ∷ [])
ran p w (shell_exited status) = exited status

abbrev shell : Services
shell = record {
  World = List (List (List Bytes));
  expand_word = λ text w. ok (text, w);
  execute_assignment = λ text w. ok w;
  execute_pipeline = λ p w.
      execute_pipeline (λ n. some (3 + 2 * n, 4 + 2 * n)) (λ n. none) (λ n. some (100 + n))
        (λ pid. 0) (λ name. some name) (λ argv. true) run_builtin p
      >>= ran p w;
  execute_andor_bg = λ a w. ok (0, w);
}

abbrev command : Bytes → Command
command name = record { argv = name ∷ []; assignment_list = []; redirs = [] }

command-IsSmall : (name : Bytes) → IsSmall (command name)
command-IsSmall name = record { few_args = omega arith; few_redirs = omega arith; known = tt }

-- ls|wc
abbrev piped : Typed
piped = record {
  line = record {
    first = record {
      first = record { first = command (bytes "ls"); others = command (bytes "wc") ∷ [] };
      others = [];
    };
    others = [];
  };
  lexemes = ([], word b'l' (bytes "s")) ∷ ([], sign bar) ∷ ([], word b'w' (bytes "c")) ∷ [];
  tail = [];
}

piped-IsTyped : IsTyped piped
unfolding lexeme_token sign_fd sign_text sign_type sign_char is_twice word_type is_readable written
    lexeme_text reads_as ends_sign plain_from is_plain ends_word is_closed is_redirection is_blank
    all_space toggle_flag isoperator isspace isdigit
piped-IsTyped = record {
  same = refl;
  small = (((command-IsSmall (bytes "ls"), (command-IsSmall (bytes "wc"), tt)), tt), tt);
  readable = refl;
  some_text = λ e. cc;
}

abbrev start : ReplState (List (List (List Bytes)))
start = record { history = bytes "old" ∷ []; exit_status = 0; world = [] }

repl_rounds-session_example :
    repl_rounds shell (λ w. ok w) (typed_inputs (piped ∷ piped ∷ [])) start
    ≡ session shell (λ w. ok w) (piped ∷ piped ∷ []) start
repl_rounds-session_example =
    repl_rounds-session shell (λ w. ok w) (piped ∷ piped ∷ []) start
      (piped-IsTyped, (piped-IsTyped, tt))

-- What the session comes to: both pipelines were run, and stand in the history.
two_lines :
    session shell (λ w. ok w) (piped ∷ piped ∷ []) start
    ≡ ok (record {
      history = bytes "old" ∷ bytes "ls|wc" ∷ bytes "ls|wc" ∷ [];
      exit_status = 0;
      world =
          (((bytes "ls" ∷ []) ∷ (bytes "wc" ∷ []) ∷ []))
          ∷ (((bytes "ls" ∷ []) ∷ (bytes "wc" ∷ []) ∷ []))
          ∷ [];
    })
unfolding session execute_list expand_list written lexeme_text sign_text sign_char is_twice
    execute_pipeline execute_pipes fork_loop pipes_after
two_lines = refl
