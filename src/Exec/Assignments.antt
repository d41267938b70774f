-- ===== src/Exec/Assignments.antt =====
-- src/exec.c: `execute_assignment`, over the variables.
use codecrafters_shell_c.Common.Bytes.{Bytes}
use codecrafters_shell_c.Common.Outcome.{Outcome, ◌>>=◌}
use codecrafters_shell_c.Vars.Store.{Vars, var_assign, assignment_split}

-- `fresh` is what a new block of memory holds.
unfoldable pub execute_assignment : Bytes → Vars → Bytes → Outcome Vars
execute_assignment fresh vars val = do
  pair ← assignment_split fresh val
  var_assign vars pair.0 pair.1
