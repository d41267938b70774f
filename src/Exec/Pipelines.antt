-- ===== src/Exec/Pipelines.antt =====
-- src/exec.c: what `execute_pipes` does as a whole, where the system gives it its processes.
use codecrafters_shell_c.Common.{subst, ◌+◌}
use codecrafters_shell_c.Common.{
  Bool, true, ◌++◌, ◌<◌, ℕ, suc, List, [], ◌∷◌, Option, some, ◌≡◌, refl, arith, ap, ◌∙◌, length,
}
use codecrafters_shell_c.Common.Bytes.{Bytes}
use codecrafters_shell_c.Common.Outcome.{fault, Ends-mono, Outcome, Ends}
use codecrafters_shell_c.Syntax.{Command}
use codecrafters_shell_c.Exec.Process.{
  pipe, fork, wait_all, Call, execute_pipes, Child, pipe_child, fork_loop,
}
use codecrafters_shell_c.Exec.Descriptors.{
  apply, set, set-here, read_end, write_end, Table, apply_all, waited_for, AllClosed,
}
use codecrafters_shell_c.Exec.Pipes.{closings, child_setup-unmade, Connected}
use codecrafters_shell_c.Exec.Forks.{
  shell_calls, made, shell_calls-AllClosed, shell_calls-waited_for, made_pipes, pids_before,
  children_from, fork_loop-Forked, pipe_child-Connected,
}

module _ (pipe_fds : ℕ → Option (ℕ × ℕ)) (open_fd : ℕ → Option ℕ) (fork_pid : ℕ → Option ℕ)
    (waited : ℕ → ℕ) (path_find_command : Bytes → Option Bytes) (execs : List Bytes → Bool)
    (fds : ℕ → ℕ × ℕ) (pid : ℕ → ℕ) (pipes_made : (i : ℕ) → pipe_fds i ≡ some (fds i))
    (forks : (i : ℕ) → fork_pid i ≡ some (pid i)) where
  -- Where every pipe is made and every fork succeeds, the shell that runs the commands of a pipeline
  -- closes both ends of each pipe, waits for each child once and in order, and gives the status 0,
  -- whatever the children do.
  pub execute_pipes-waited_for :
      (c : Command) (cs : List Command) (t : Table)
      → Ends
          (λ run.
            AllClosed (apply_all run.calls t) (made_pipes fds (length cs))
            × (waited_for run.calls ≡ pids_before pid (suc (length cs)))
            × (run.status ≡ 0))
          (execute_pipes pipe_fds open_fd fork_pid waited path_find_command execs
            (record { size = suc (length cs); commands = c ∷ cs }))
  unfolding execute_pipes
  execute_pipes-waited_for c cs t =
      let all_left : 0 + length cs ≡ length cs = omega arith in
      Ends-mono
        (fork_loop pipe_fds open_fd fork_pid waited path_find_command execs (suc (length cs))
          (c ∷ cs) 0 (length cs) [] [])
        (λ run (called, returns, _). (
          rw called (
              subst
                (λ n.
                  AllClosed (apply_all (shell_calls fds pid 0 (length cs)) t) (made_pipes fds n))
                all_left (shell_calls-AllClosed fds pid (length cs) 0 t)),
          rw called (
              shell_calls-waited_for fds pid (length cs) 0
              ∙ ap (λ n. pids_before pid (suc n)) all_left),
          returns,
        ))
        (fork_loop-Forked pipe_fds open_fd fork_pid waited path_find_command execs fds pid
          pipes_made forks (length cs) 0 c cs (omega arith))

  -- In a pipeline of three commands or more, where every pipe is made and every fork succeeds, the
  -- first child closes pipes that are not made yet: it faults.
  pub execute_pipes-fault :
      (c d e : Command) (cs : List Command)
      → Ends
          (λ run. (rest : List (Outcome Child)) × (run.children ≡ fault ∷ rest))
          (execute_pipes pipe_fds open_fd fork_pid waited path_find_command execs
            (record { size = suc (suc (suc (length cs))); commands = c ∷ d ∷ e ∷ cs }))
  unfolding execute_pipes pipe_child
  execute_pipes-fault c d e cs =
      let n : ℕ = suc (suc (length cs)) in
      let first : pipe_child pipe_fds open_fd fork_pid waited path_find_command execs (made fds 1) 0
            n c
          ≡ fault =
        rw (child_setup-unmade (made_pipes fds 1) 0 n (omega arith) (omega arith)) refl in
      let others =
        children_from pipe_fds open_fd fork_pid waited path_find_command execs fds pid pipes_made
          forks n 1 d (e ∷ cs) in
      Ends-mono
        (fork_loop pipe_fds open_fd fork_pid waited path_find_command execs (suc n) (c ∷ d ∷ e ∷ cs)
          0 n [] [])
        (λ run (_, _, kids). (others, kids ∙ ap (λ x. x ∷ others) first))
        (fork_loop-Forked pipe_fds open_fd fork_pid waited path_find_command execs fds pid
          pipes_made forks n 0 c (d ∷ e ∷ cs) (omega arith))

  -- In a pipeline of two commands with a name each, where every pipe is made, on no standard stream,
  -- and every fork succeeds, as does running the commands, the shell makes the pipe before it forks
  -- twice. Of the descriptors that it has then, the first child has the pipe's end that is written
  -- as its standard output and the second one the end that is read as its standard input; each keeps
  -- its other standard streams, and neither has an end of the pipe open beside.
  pub execute_pipes-Connected :
      (c d : Command) (name name' : Bytes) (args args' : List Bytes) (t : Table)
      → c.argv ≡ name ∷ args
      → d.argv ≡ name' ∷ args'
      → execs (name ∷ args) ≡ true
      → execs (name' ∷ args') ≡ true
      → (2 < (fds 0).0) × (2 < (fds 0).1)
      → Ends
          (λ run.
            (made_first : List Call) × (behind : List Call) × (first second : Outcome Child)
            × (run.calls ≡ made_first ++ fork (pid 0) ∷ fork (pid 1) ∷ behind)
            × (run.children ≡ first ∷ second ∷ [])
            × (apply_all made_first t (fds 0).1 ≡ some (write_end (fds 0).1))
            × Ends
                (λ child.
                  Connected
                    (fds 0 ∷ [])
                    (apply_all made_first t)
                    0
                    (apply_all child.calls (apply_all made_first t)))
                first
            × Ends
                (λ child.
                  Connected
                    (fds 0 ∷ [])
                    (apply_all made_first t)
                    1
                    (apply_all child.calls (apply_all made_first t)))
                second)
          (execute_pipes pipe_fds open_fd fork_pid waited path_find_command execs
            (record { size = 2; commands = c ∷ d ∷ [] }))
  unfolding execute_pipes apply_all apply
  execute_pipes-Connected c d name name' args args' t named named' runs runs' above =
      let call = pipe (fds 0).0 (fds 0).1 in
      Ends-mono
        (fork_loop pipe_fds open_fd fork_pid waited path_find_command execs 2 (c ∷ d ∷ []) 0 1 []
          [])
        (λ run (called, _, kids). (
          call ∷ [],
          closings (fds 0 ∷ []) ++ wait_all (pids_before pid 2),
          pipe_child pipe_fds open_fd fork_pid waited path_find_command execs (made fds 1) 0 1 c,
          pipe_child pipe_fds open_fd fork_pid waited path_find_command execs (made fds 1) 1 1 d,
          called,
          kids,
          set-here (fds 0).1 (some (write_end (fds 0).1))
              (set (fds 0).0 (some (read_end (fds 0).0)) t),
          pipe_child-Connected pipe_fds open_fd fork_pid waited path_find_command execs (fds 0 ∷ [])
              (apply call t) 0 c name args named runs (above, tt) (omega arith),
          pipe_child-Connected pipe_fds open_fd fork_pid waited path_find_command execs (fds 0 ∷ [])
              (apply call t) 1 d name' args' named' runs' (above, tt) (omega arith),
        ))
        (fork_loop-Forked pipe_fds open_fd fork_pid waited path_find_command execs fds pid
          pipes_made forks 1 0 c (d ∷ []) (omega arith))
