-- ===== src/Exec/Forks.antt =====
-- src/exec.c: the loop of `execute_pipes` over the commands of a pipeline, where the system gives it its
-- processes.
use codecrafters_shell_c.Common.{
  Bool, Option-cases, inl, inr, none, ◌≤◌, subst, length-append, ℕ, zero, suc, ◌+◌, ltb, List, [],
  ◌∷◌, ◌++◌, Option, some, ◌≡◌, refl, false, true, arith, ap, sym, ◌∙◌, length,
}
use codecrafters_shell_c.Common.Bytes.{Bytes}
use codecrafters_shell_c.Common.Outcome.{Ends-bind, Outcome, ok, ◌>>=◌, Ends}
use codecrafters_shell_c.Builtins.Table.{BuiltinCmd, find_builtin}
use codecrafters_shell_c.Syntax.{Command}
use codecrafters_shell_c.Exec.Process.{
  PipeArray, run_piped, made_pipe, execvp, Ending, child_setup, exec_builtin, exit_with, Call,
  named_builtin, pipes_after, pipe_calls, pipe, fork, Run, Child, wait_all, pipe_child, fork_loop,
}
use codecrafters_shell_c.Exec.Descriptors.{
  AllAbove, Table, apply, apply_all, waited_for, apply_all-append, AllClosed,
}
use codecrafters_shell_c.Exec.Pipes.{
  all_made, child_setup-Connected, Connected, closings, close_pipes-all, closings-AllClosed,
}

-- Waiting does not change descriptors.
apply_all-wait_all : (pids : List ℕ) (t : Table) → apply_all (wait_all pids) t ≡ t
unfolding apply_all apply wait_all
apply_all-wait_all [] t = refl
apply_all-wait_all (pid ∷ pids) t = apply_all-wait_all pids t

waited_for-closings :
    (ps : List (ℕ × ℕ)) (pids : List ℕ) → waited_for (closings ps ++ wait_all pids) ≡ pids
unfolding waited_for closings wait_all
waited_for-closings [] [] = refl
waited_for-closings [] (pid ∷ pids) = ap (◌∷◌ pid) (waited_for-closings [] pids)
waited_for-closings (p ∷ ps) pids = waited_for-closings ps pids

-- The array and the pipe behind it.
all_made-append :
    (ps : List (ℕ × ℕ)) (p : ℕ × ℕ) → all_made ps ++ some p ∷ [] ≡ all_made (ps ++ p ∷ [])
all_made-append [] p = refl
all_made-append (q ∷ qs) p = ap (◌∷◌ (some q)) (all_made-append qs p)

-- The pipes that the first `n` calls make, and the processes.
abbrev pub made_pipes : (ℕ → ℕ × ℕ) → ℕ → List (ℕ × ℕ)
made_pipes fds zero = []
made_pipes fds (suc n) = made_pipes fds n ++ fds n ∷ []

abbrev pub pids_before : (ℕ → ℕ) → ℕ → List ℕ
pids_before pid zero = []
pids_before pid (suc n) = pids_before pid n ++ pid n ∷ []

abbrev pub made : (ℕ → ℕ × ℕ) → ℕ → PipeArray
made fds n = all_made (made_pipes fds n)

length-made_pipes : (fds : ℕ → ℕ × ℕ) (n : ℕ) → length (made_pipes fds n) ≡ n
length-made_pipes fds zero = refl
length-made_pipes fds (suc n) =
    omega (arith, length-append (made_pipes fds n) (fds n ∷ []), length-made_pipes fds n)

-- The calls of the shell for the commands from the `i`-th on, `left` of them behind it.
abbrev pub shell_calls : (ℕ → ℕ × ℕ) → (ℕ → ℕ) → ℕ → ℕ → List Call
shell_calls fds pid i zero =
    fork (pid i) ∷ (closings (made_pipes fds i) ++ wait_all (pids_before pid (suc i)))
shell_calls fds pid i (suc left) =
    pipe (fds i).0 (fds i).1 ∷ fork (pid i) ∷ shell_calls fds pid (suc i) left

-- These calls close every pipe and wait for every process.
pub shell_calls-AllClosed :
    (fds : ℕ → ℕ × ℕ) (pid : ℕ → ℕ) (left i : ℕ) (t : Table)
    → AllClosed (apply_all (shell_calls fds pid i left) t) (made_pipes fds (i + left))
unfolding apply_all apply
shell_calls-AllClosed fds pid zero i t =
    let all : i + 0 ≡ i = omega arith in
    rw all (
      subst (λ u. AllClosed u (made_pipes fds i))
        (sym (
          apply_all-append (closings (made_pipes fds i)) (wait_all (pids_before pid (suc i))) t
          ∙ apply_all-wait_all (pids_before pid (suc i))
              (apply_all (closings (made_pipes fds i)) t)))
        (closings-AllClosed (made_pipes fds i) t))
shell_calls-AllClosed fds pid (suc left) i t =
    let next : i + suc left ≡ suc i + left = omega arith in
    rw next (shell_calls-AllClosed fds pid left (suc i) (apply (pipe (fds i).0 (fds i).1) t))

pub shell_calls-waited_for :
    (fds : ℕ → ℕ × ℕ) (pid : ℕ → ℕ) (left i : ℕ)
    → waited_for (shell_calls fds pid i left) ≡ pids_before pid (suc (i + left))
unfolding waited_for
shell_calls-waited_for fds pid zero i =
    waited_for-closings (made_pipes fds i) (pids_before pid (suc i))
    ∙ ap (λ n. pids_before pid (suc n)) {x = i} {y = i + 0} (omega arith)
shell_calls-waited_for fds pid (suc left) i =
    shell_calls-waited_for fds pid left (suc i)
    ∙ ap (λ n. pids_before pid (suc n)) {x = suc i + left} {y = i + suc left} (omega arith)

module _ (pipe_fds : ℕ → Option (ℕ × ℕ)) (open_fd : ℕ → Option ℕ) (fork_pid : ℕ → Option ℕ)
    (waited : ℕ → ℕ) (path_find_command : Bytes → Option Bytes) (execs : List Bytes → Bool) where
  run_piped-runs :
      (name : Bytes) (args : List Bytes)
      → execs (name ∷ args) ≡ true
      → (ending : Ending) × (run_piped pipe_fds open_fd fork_pid waited path_find_command execs
            (name ∷ args)
          ≡ ok ending)
  unfolding run_piped
  run_piped-runs name args runs = elim (Option-cases (path_find_command name)) [
    | inl e ↦ (exit_with 127, rw (run_piped, e) refl)
    | inr (found, e) ↦ (execvp (name ∷ args), rw (run_piped, e, runs) refl)
  ]

  pub pipe_child-Connected :
      (pipes : List (ℕ × ℕ)) (t : Table) (i : ℕ) (c : Command) (name : Bytes) (args : List Bytes)
      → c.argv ≡ name ∷ args
      → execs (name ∷ args) ≡ true
      → AllAbove pipes
      → i ≤ length pipes
      → Ends
          (λ child. Connected pipes t i (apply_all child.calls t))
          (pipe_child pipe_fds open_fd fork_pid waited path_find_command execs
            (all_made pipes)
            i
            (length pipes)
            c)
  unfolding pipe_child named_builtin
  pipe_child-Connected pipes t i c name args named runs above le =
      let Q : Child → Type 0 = λ child. Connected pipes t i (apply_all child.calls t) in
      Ends-bind Q (child_setup (all_made pipes) i (length pipes)) _
        (child_setup-Connected pipes t i above le)
        (λ calls h.
          let (ending, found) = run_piped-runs name args runs in
          rw named (
            ended calls h (find_builtin name)
              (run_piped pipe_fds open_fd fork_pid waited path_find_command execs c.argv) ending
              (ap (run_piped pipe_fds open_fd fork_pid waited path_find_command execs) named
                ∙ found)))
    where
      ended :
          (calls : List Call)
          → Connected pipes t i (apply_all calls t)
          → (builtin : Option BuiltinCmd) (file : Outcome Ending) (ending : Ending)
          → file ≡ ok ending
          → Ends
              (λ (child : Child). Connected pipes t i (apply_all child.calls t))
              (elim builtin [ some cmd ↦ ok (exit_with (exec_builtin c cmd)) | none ↦ file ]
                >>= λ ending'. ok (record { calls = calls; ending = ending' }))
      ended calls h none file ending e = rw e h
      ended calls h (some cmd) file ending e = h

  module _ (fds : ℕ → ℕ × ℕ) (pid : ℕ → ℕ) (pipes_made : (i : ℕ) → pipe_fds i ≡ some (fds i))
      (forks : (i : ℕ) → fork_pid i ≡ some (pid i)) where
    pipes_after-more :
        (i n : ℕ)
        → ltb i n ≡ true
        → pipes_after pipe_fds open_fd fork_pid waited path_find_command execs i n (made fds i)
          ≡ made fds (suc i)
    unfolding pipes_after
    pipes_after-more i n more =
        rw (pipes_after, more, pipes_made i) (all_made-append (made_pipes fds i) (fds i))

    pipe_calls-more :
        (i n : ℕ)
        → ltb i n ≡ true
        → pipe_calls pipe_fds open_fd fork_pid waited path_find_command execs i n
          ≡ pipe (fds i).0 (fds i).1 ∷ []
    unfolding pipe_calls made_pipe
    pipe_calls-more i n more = rw (pipe_calls, more, pipes_made i) refl

    -- The children of the commands, from the `i`-th on.
    abbrev pub children_from : ℕ → ℕ → Command → List Command → List (Outcome Child)
    children_from num_pipes i c [] =
        pipe_child pipe_fds open_fd fork_pid waited path_find_command execs (made fds i) i num_pipes
          c
        ∷ []
    children_from num_pipes i c (d ∷ cs) =
        pipe_child pipe_fds open_fd fork_pid waited path_find_command execs (made fds (suc i)) i
          num_pipes c
        ∷ children_from num_pipes (suc i) d cs

    abbrev pub Forked : ℕ → ℕ → Command → List Command → Run → Type 0
    Forked num_pipes i c cs run =
        (run.calls ≡ shell_calls fds pid i (length cs))
        × (run.status ≡ 0)
        × (run.children ≡ children_from num_pipes i c cs)

    fork_loop_step :
        (k : ℕ) (c : Command) (cs : List Command) (i n : ℕ) (pipes : PipeArray) (pids : List ℕ)
        → fork_loop pipe_fds open_fd fork_pid waited path_find_command execs
            (suc k)
            (c ∷ cs)
            i
            n
            pipes
            pids
          ≡ (fork_loop pipe_fds open_fd fork_pid waited path_find_command execs k cs
                (suc i)
                n
                (pipes_after pipe_fds open_fd fork_pid waited path_find_command execs i n pipes)
                (pids ++ pid i ∷ [])
              >>= λ rest. ok (record {
                calls =
                    pipe_calls pipe_fds open_fd fork_pid waited path_find_command execs i n
                    ++ fork (pid i) ∷ rest.calls;
                children =
                    pipe_child pipe_fds open_fd fork_pid waited path_find_command execs
                      (pipes_after pipe_fds open_fd fork_pid waited path_find_command execs i n
                        pipes)
                      i
                      n
                      c
                    ∷ rest.children;
                status = rest.status;
              }))
    unfolding fork_loop
    fork_loop_step k c cs i n pipes pids = rw (fork_loop, forks i) refl

    pub fork_loop-Forked :
        (num_pipes i : ℕ) (c : Command) (cs : List Command)
        → i + length cs ≡ num_pipes
        → Ends (Forked num_pipes i c cs) (
            fork_loop pipe_fds open_fd fork_pid waited path_find_command execs
              (suc (length cs))
              (c ∷ cs)
              i
              num_pipes
              (made fds i)
              (pids_before pid i))
    unfolding fork_loop pipes_after pipe_calls
    fork_loop-Forked num_pipes i c [] e =
        let same : num_pipes ≡ i = omega arith in
        let last : ltb i i ≡ false = ground arith in
        rw same (
          rw
            (
              fork_loop,
              forks i,
              pipes_after,
              pipe_calls,
              last,
              close_pipes-all (made_pipes fds i) i (length-made_pipes fds i),
            )
            (refl, refl, refl))
    fork_loop-Forked num_pipes i c (d ∷ cs) e =
        let more : ltb i num_pipes ≡ true = ground (arith, e) in
        let found = fork_loop-Forked num_pipes (suc i) d cs (omega (arith, e)) in
        rw
          (
            fork_loop_step (suc (length cs)) c (d ∷ cs) i num_pipes (made fds i)
                (pids_before pid i),
            pipes_after-more i num_pipes more,
            pipe_calls-more i num_pipes more,
          )
          (Ends-bind (Forked num_pipes i c (d ∷ cs))
            (fork_loop pipe_fds open_fd fork_pid waited path_find_command execs (suc (length cs))
              (d ∷ cs) (suc i) num_pipes (made fds (suc i)) (pids_before pid (suc i)))
            _ found
            (λ run (called, returns, kids). (
              ap (λ r. pipe (fds i).0 (fds i).1 ∷ fork (pid i) ∷ r) called,
              returns,
              ap
                  (◌∷◌ (
                    pipe_child pipe_fds open_fd fork_pid waited path_find_command execs
                      (made fds (suc i)) i num_pipes c))
                  kids,
            )))
