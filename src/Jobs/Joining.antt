-- ===== src/Jobs/Joining.antt =====
-- src/jobs.c: the text of a chain for the list of jobs, `join_andor` and the functions that it calls,
-- over their `StringBuilder` and its block. `junk` is what `realloc` leaves in a block.
use codecrafters_shell_c.Common.{Bool, true, false, List, [], ◌∷◌, ◌==◌, ltb, length, if◌then◌else◌}
use codecrafters_shell_c.Common.Bytes.{Bytes, bytes}
use codecrafters_shell_c.Syntax.{
  RedirMode, redir_in, redir_out, redir_append, redir_heredoc, redir_err, Redirect, Command,
  Pipeline, AndOrOp, and_none, and_and, and_or, AndOrElement, AndOr,
}
use codecrafters_shell_c.Common.{ℕ}
use codecrafters_shell_c.Common.Outcome.{Outcome, ok, ◌>>=◌}
use codecrafters_shell_c.StringBuilder.Buffer.{
  StringBuilder, sb_new_sized, sb_appends, sb_appendc, sb_appendl, sb_takestring,
}

unfoldable pub optostr : AndOrOp → StringBuilder → Outcome StringBuilder
optostr and_and sb = sb_appends sb (bytes "&&")
optostr and_or sb = sb_appends sb (bytes "||")
optostr and_none sb = ok sb

-- `sb_appendl` of the descriptor, under a condition.
unfoldable pub fd_if : Bool → Redirect → StringBuilder → Outcome StringBuilder
fd_if shown r sb = if shown then sb_appendl sb r.fd else ok sb

module _ (junk : ℕ) where
  unfoldable pub space_if : Bool → StringBuilder → Outcome StringBuilder
  space_if shown sb = if shown then sb_appendc junk sb b' ' else ok sb

  unfoldable pub join_args : List Bytes → StringBuilder → Outcome StringBuilder
  join_args [] sb = ok sb
  join_args (arg ∷ []) sb = sb_appends sb arg
  join_args (arg ∷ arg' ∷ args) sb = do
    sb₁ ← sb_appends sb arg
    sb₂ ← sb_appendc junk sb₁ b' '
    join_args (arg' ∷ args) sb₂

  unfoldable pub redirect_operator : RedirMode → Redirect → StringBuilder → Outcome StringBuilder
  unfolding fd_if
  redirect_operator redir_in r sb = sb_appendc junk sb b'<'
  redirect_operator redir_append r sb = do sb' ← fd_if (r.fd == 2) r sb; sb_appends sb' (bytes ">>")
  redirect_operator redir_out r sb = do sb' ← fd_if (r.fd == 2) r sb; sb_appendc junk sb' b'>'
  redirect_operator redir_heredoc r sb = sb_appends sb (bytes "<<")
  redirect_operator redir_err r sb = ok sb

  unfoldable pub join_redirect : Redirect → StringBuilder → Outcome StringBuilder
  unfolding fd_if redirect_operator
  join_redirect r sb = do
    sb₁ ← fd_if (ltb 2 r.fd) r sb
    sb₂ ← redirect_operator r.mode r sb₁
    sb₃ ← sb_appendc junk sb₂ b' '
    sb_appends sb₃ r.target

  unfoldable pub join_redirects : List Redirect → StringBuilder → Outcome StringBuilder
  unfolding join_redirect
  join_redirects [] sb = ok sb
  join_redirects (r ∷ []) sb = join_redirect r sb
  join_redirects (r ∷ r' ∷ rs) sb = do
    sb₁ ← join_redirect r sb
    sb₂ ← sb_appendc junk sb₁ b' '
    join_redirects (r' ∷ rs) sb₂

  unfoldable pub join_assignments : List Bytes → StringBuilder → Outcome StringBuilder
  join_assignments [] sb = ok sb
  join_assignments (a ∷ as') sb = do
    sb₁ ← sb_appends sb a
    sb₂ ← sb_appendc junk sb₁ b' '
    join_assignments as' sb₂

  unfoldable pub join_command : Command → StringBuilder → Outcome StringBuilder
  unfolding join_assignments join_args join_redirects space_if
  join_command command sb = do
    sb₁ ← join_assignments command.assignment_list sb
    sb₂ ← join_args command.argv sb₁
    sb₃ ← space_if (ltb 0 (length command.redirs)) sb₂
    join_redirects command.redirs sb₃

  unfoldable pub join_commands : List Command → StringBuilder → Outcome StringBuilder
  unfolding join_command
  join_commands [] sb = ok sb
  join_commands (c ∷ []) sb = join_command c sb
  join_commands (c ∷ c' ∷ cs) sb = do
    sb₁ ← join_command c sb
    sb₂ ← sb_appends sb₁ (bytes " | ")
    join_commands (c' ∷ cs) sb₂

  unfoldable pub join_pipeline : Pipeline → StringBuilder → Outcome StringBuilder
  unfolding join_commands
  join_pipeline pipeline sb = join_commands pipeline.commands sb

  -- One round of the loop; `later` says that `i` is not 0.
  unfoldable pub join_element : Bool → AndOrElement → StringBuilder → Outcome StringBuilder
  unfolding optostr join_pipeline space_if
  join_element later el sb = do
    sb₁ ← optostr el.op sb
    sb₂ ← space_if later sb₁
    join_pipeline el.pipeline sb₂

  unfoldable pub join_elements : Bool → List AndOrElement → StringBuilder → Outcome StringBuilder
  unfolding join_element
  join_elements later [] sb = ok sb
  join_elements later (el ∷ []) sb = join_element later el sb
  join_elements later (el ∷ el' ∷ els) sb = do
    sb₁ ← join_element later el sb
    sb₂ ← sb_appendc junk sb₁ b' '
    join_elements true (el' ∷ els) sb₂

  -- The block that is given out; whether a NUL stands in it is not tested.
  unfoldable pub join_andor : AndOr → Outcome Bytes
  unfolding join_elements
  join_andor chain = do
    sb ← join_elements false chain.elements (sb_new_sized 16)
    ok (sb_takestring sb).0
