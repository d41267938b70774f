-- ===== src/Exec/Execute.antt =====
-- src/exec.c: `execute_andor` and `execute_list`.
use codecrafters_shell_c.Common.{ℕ, Bool, true, false, List, [], ◌∷◌, ◌==◌}
use codecrafters_shell_c.Common.Outcome.{Outcome, ok, ◌>>=◌}
use codecrafters_shell_c.Syntax.{
  AndOrOp, and_none, and_and, and_or, AndOrElement, AndOr, ListSep, sep_semi, sep_amp, sep_none,
  ListElement, ShellList,
}
use codecrafters_shell_c.Exec.Services.{Services}
use codecrafters_shell_c.Exec.Expansion.{expand_list}

-- Whether the loop returns at an operator, before the pipeline that carries it.
unfoldable pub returns_at : AndOrOp → ℕ → Bool
returns_at and_none status = false
returns_at and_and status = elim (status == 0) [ true ↦ false | false ↦ true ]
returns_at and_or status = status == 0

module _ (sys : Services) where
  open sys use {World, execute_pipeline, execute_andor_bg}

  unfoldable pub andor_loop : List AndOrElement → ℕ → World → Outcome (ℕ × World)
  unfolding returns_at
  andor_loop [] status w = ok (status, w)
  andor_loop (el ∷ els) status w = elim (returns_at el.op status) [
    | true ↦ ok (status, w)
    | false ↦ execute_pipeline el.pipeline w >>= λ (status', w'). andor_loop els status' w'
  ]

  unfoldable pub execute_andor : AndOr → World → Outcome (ℕ × World)
  unfolding andor_loop
  execute_andor andor w = andor_loop andor.elements 0 w

  -- The switch on a separator.
  unfoldable pub execute_element : ListSep → AndOr → World → Outcome (ℕ × World)
  unfolding execute_andor
  execute_element sep_semi andor w = execute_andor andor w
  execute_element sep_none andor w = execute_andor andor w
  execute_element sep_amp andor w = execute_andor_bg andor w

  unfoldable pub list_elements_loop : List ListElement → ℕ → World → Outcome (ℕ × World)
  unfolding execute_element
  list_elements_loop [] status w = ok (status, w)
  list_elements_loop (el ∷ els) status w =
      execute_element el.sep el.and_or w >>= λ (status', w'). list_elements_loop els status' w'

  -- The whole list is expanded before any of it runs.
  unfoldable pub execute_list : ShellList → World → Outcome (ℕ × World)
  unfolding list_elements_loop
  execute_list list w =
      expand_list sys list w >>= λ (list', w'). list_elements_loop list'.elements 0 w'
