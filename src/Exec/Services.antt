-- ===== src/Exec/Services.antt =====
-- What src/exec.c calls to do the work: `expand_word` (src/expand.c), `execute_assignment` with the
-- table of variables behind it, and the running of a pipeline in the foreground or of a chain in the
-- background, which ends in fork, exec and wait. `World` is all that these read and write. Each may
-- fault, end the shell with a status, or not come back. An `int` status is its 32-bit pattern.
use codecrafters_shell_c.Common.{ℕ}
use codecrafters_shell_c.Common.Bytes.{Bytes}
use codecrafters_shell_c.Common.Outcome.{Outcome}
use codecrafters_shell_c.Syntax.{Pipeline, AndOr}

pub record Services : Type 1 where
  pub World : Type 0
  pub expand_word : Bytes → World → Outcome (Bytes × World)
  pub execute_assignment : Bytes → World → Outcome World
  pub execute_pipeline : Pipeline → World → Outcome (ℕ × World)
  pub execute_andor_bg : AndOr → World → Outcome (ℕ × World)
