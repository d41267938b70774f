-- ===== src/Exec/Expansion.antt =====
-- src/exec.c: the functions that expand the words of a tree in place. Here they return the new tree.
use codecrafters_shell_c.Common.{List, [], ◌∷◌}
use codecrafters_shell_c.Common.Bytes.{Bytes}
use codecrafters_shell_c.Common.Outcome.{Outcome, ok, ◌>>=◌}
use codecrafters_shell_c.Syntax.{
  Redirect, Command, Pipeline, AndOrElement, AndOr, ListElement, ShellList,
}
use codecrafters_shell_c.Exec.Services.{Services}

module _ (sys : Services) where
  open sys use {World, expand_word, execute_assignment}

  unfoldable pub expand_redirection : Redirect → World → Outcome (Redirect × World)
  expand_redirection redirect w = do
    (target, w') ← expand_word redirect.target w
    ok (record redirect { target = target }, w')

  unfoldable pub expand_redirections : List Redirect → World → Outcome (List Redirect × World)
  unfolding expand_redirection
  expand_redirections [] w = ok ([], w)
  expand_redirections (r ∷ rs) w = do
    (r', w') ← expand_redirection r w
    (rs', w'') ← expand_redirections rs w'
    ok (r' ∷ rs', w'')

  unfoldable pub expand_args : List Bytes → World → Outcome (List Bytes × World)
  expand_args [] w = ok ([], w)
  expand_args (arg ∷ args) w = do
    (arg', w') ← expand_word arg w
    (args', w'') ← expand_args args w'
    ok (arg' ∷ args', w'')

  -- Each assignment is executed as soon as it is expanded.
  unfoldable pub expand_assignments : List Bytes → World → Outcome (List Bytes × World)
  expand_assignments [] w = ok ([], w)
  expand_assignments (a ∷ as') w = do
    (a', w') ← expand_word a w
    w'' ← execute_assignment a' w'
    (rest, w₃) ← expand_assignments as' w''
    ok (a' ∷ rest, w₃)

  unfoldable pub expand_command : Command → World → Outcome (Command × World)
  unfolding expand_assignments expand_redirections expand_args
  expand_command command w = do
    (assignments, w₁) ← expand_assignments command.assignment_list w
    (redirs, w₂) ← expand_redirections command.redirs w₁
    (argv, w₃) ← expand_args command.argv w₂
    ok (record { argv = argv; assignment_list = assignments; redirs = redirs }, w₃)

  unfoldable pub expand_commands : List Command → World → Outcome (List Command × World)
  unfolding expand_command
  expand_commands [] w = ok ([], w)
  expand_commands (c ∷ cs) w = do
    (c', w') ← expand_command c w
    (cs', w'') ← expand_commands cs w'
    ok (c' ∷ cs', w'')

  unfoldable pub expand_pipeline : Pipeline → World → Outcome (Pipeline × World)
  unfolding expand_commands
  expand_pipeline pipeline w = do
    (commands, w') ← expand_commands pipeline.commands w
    ok (record pipeline { commands = commands }, w')

  unfoldable pub expand_elements : List AndOrElement → World → Outcome (List AndOrElement × World)
  unfolding expand_pipeline
  expand_elements [] w = ok ([], w)
  expand_elements (el ∷ els) w = do
    (pipeline, w') ← expand_pipeline el.pipeline w
    (els', w'') ← expand_elements els w'
    ok (record el { pipeline = pipeline } ∷ els', w'')

  unfoldable pub expand_andor : AndOr → World → Outcome (AndOr × World)
  unfolding expand_elements
  expand_andor andor w = do
    (elements, w') ← expand_elements andor.elements w
    ok (record andor { elements = elements }, w')

  unfoldable pub expand_list_elements :
      List ListElement → World → Outcome (List ListElement × World)
  unfolding expand_andor
  expand_list_elements [] w = ok ([], w)
  expand_list_elements (el ∷ els) w = do
    (and_or, w') ← expand_andor el.and_or w
    (els', w'') ← expand_list_elements els w'
    ok (record el { and_or = and_or } ∷ els', w'')

  unfoldable pub expand_list : ShellList → World → Outcome (ShellList × World)
  unfolding expand_list_elements
  expand_list list w = do
    (elements, w') ← expand_list_elements list.elements w
    ok (record list { elements = elements }, w')
