-- ===== src/Exec/Repl.antt =====
-- src/exec.c: the rounds of the loop of `repl`, the history that it starts with, and `exit_handler`. The
-- loop has no end: it is run on the results of successive calls of `readline`, which are `none` for a
-- null pointer. `check_background_jobs` is a parameter, since it works on the world of the executor;
-- so are reading and writing a file of history.
use codecrafters_shell_c.Common.{ℕ, Bool, true, false, List, [], ◌∷◌, ◌++◌, Option, none, some}
use codecrafters_shell_c.Common.Bytes.{Bytes, bytes}
use codecrafters_shell_c.Common.Outcome.{Outcome, ok, fault, ◌>>=◌}
use codecrafters_shell_c.Parser.Parse.{Allocator, lex_and_parse}
use codecrafters_shell_c.Syntax.{ShellList}
use codecrafters_shell_c.Exec.Services.{Services}
use codecrafters_shell_c.Exec.Execute.{execute_list}

-- The history that is there at the start, and the message: `read_history` of the file that HISTFILE
-- names, if it names any.
unfoldable pub start_history : (Bytes → Option (List Bytes)) → Option Bytes → List Bytes × Bytes
start_history read_history none = ([], [])
start_history read_history (some histfile) = elim (read_history histfile) [
  | some entries ↦ (entries, [])
  | none ↦ ([], bytes "Failed to read history from file " ++ histfile ++ bytes "\n")
]

-- What the shell writes at its exit: the file and the history, and the message.
unfoldable pub exit_handler :
    (Bytes → List Bytes → Bool) → Option Bytes → List Bytes → Option (Bytes × List Bytes) × Bytes
exit_handler write_history none history = (none, [])
exit_handler write_history (some histfile) history = elim (write_history histfile history) [
  | true ↦ (some (histfile, history), [])
  | false ↦ (none, bytes "Failed to write history to file " ++ histfile ++ bytes "\n")
]

-- The history, `exit_status`, and the world.
pub record ReplState (World : Type 0) : Type 0 where
  pub history : List Bytes
  pub exit_status : ℕ
  pub world : World

module _ ⦃alloc : Allocator⦄ (sys : Services)
    (check_background_jobs : sys.World → Outcome sys.World) where
  open sys use {World}

  -- A list that is a null pointer is reported, and then given to `execute_list`, which reads it.
  unfoldable pub execute_parsed :
      Bytes → ReplState World → Option ShellList → Outcome (ReplState World)
  execute_parsed input_line s none = fault
  execute_parsed input_line s (some list) =
      execute_list sys list s.world >>= λ (exit_status', world'). ok (record {
        history = s.history ++ input_line ∷ [];
        exit_status = exit_status';
        world = world';
      })

  -- The block for a line that is not empty.
  unfoldable pub execute_line : Bytes → ReplState World → Outcome (ReplState World)
  unfolding execute_parsed
  execute_line input_line s = lex_and_parse input_line >>= execute_parsed input_line s

  unfoldable pub repl_round : Option Bytes → ReplState World → Outcome (ReplState World)
  unfolding execute_line
  repl_round input s = do
    world' ← check_background_jobs s.world
    elim input [
      | none ↦ ok (record s { world = world' })
      | some [] ↦ ok (record s { world = world' })
      | some (c ∷ cs) ↦ execute_line (c ∷ cs) (record s { world = world' })
    ]

  unfoldable pub repl_rounds : List (Option Bytes) → ReplState World → Outcome (ReplState World)
  unfolding repl_round
  repl_rounds [] s = ok s
  repl_rounds (input ∷ inputs) s = repl_round input s >>= repl_rounds inputs
