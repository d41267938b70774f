-- ===== src/Exec/ProcessTests.antt =====
-- src/exec.c with the answers of a small system, and the theorems about its processes there.
use codecrafters_shell_c.Common.{subst}
use codecrafters_shell_c.Common.{zero, suc, none, Bool, true, ◌<◌, ◌++◌}
use codecrafters_shell_c.Exec.Process.{Call, fork}
use codecrafters_shell_c.Exec.Descriptors.{write_end}
use codecrafters_shell_c.Common.{ℕ, ◌+◌, ◌*◌, List, [], ◌∷◌, Option, some, ◌≡◌, refl, arith, inl}
use codecrafters_shell_c.Common.Bytes.{Bytes, bytes}
use codecrafters_shell_c.Common.Outcome.{Outcome, ok, fault, Ends}
use codecrafters_shell_c.Syntax.{redir_out, redir_append, Redirect, Command}
use codecrafters_shell_c.Exec.Process.{Child, run_file, execute_pipes, command_child}
use codecrafters_shell_c.Exec.Descriptors.{before, Table, apply_all, waited_for, AllClosed}
use codecrafters_shell_c.Exec.Pipes.{Connected}
use codecrafters_shell_c.Exec.Forks.{made_pipes, pids_before}
use codecrafters_shell_c.Exec.Pipelines.{
  execute_pipes-waited_for, execute_pipes-fault, execute_pipes-Connected,
}
use codecrafters_shell_c.Exec.Redirections.{redirected, command_child-redirected}

abbrev fds : ℕ → ℕ × ℕ
fds n = (3 + 2 * n, 4 + 2 * n)

abbrev made : ℕ → Option (ℕ × ℕ)
made n = some (fds n)

-- The first file opens, and no other one.
abbrev opened : ℕ → Option ℕ
opened zero = some 3
opened (suc n) = none

opened-above : (i fd : ℕ) → opened i ≡ some fd → 2 < fd
opened-above zero fd e = subst (λ o. elim o [ none ↦ Unit {0} | some f ↦ 2 < f ]) e (omega arith)
opened-above (suc i) fd e = absurd cc

abbrev processes : ℕ → Option ℕ
processes n = some (100 + n)

abbrev all_run : List Bytes → Bool
all_run argv = true

abbrev in_bin : Bytes → Option Bytes
in_bin name = some (bytes "/bin/ls")

abbrev command : Bytes → List Redirect → Command
command name redirs = record { argv = name ∷ []; assignment_list = []; redirs = redirs }

abbrev inherited : Table
inherited fd = some (before fd)

execute_pipes-waited_for_example :
    Ends
      (λ run.
        AllClosed (apply_all run.calls inherited) (made_pipes fds 2)
        × (waited_for run.calls ≡ pids_before (λ n. 100 + n) 3)
        × (run.status ≡ 0))
      (execute_pipes made opened processes
        (λ pid. 0)
        in_bin
        all_run
        (record {
          size = 3;
          commands = command (bytes "a") [] ∷ command (bytes "b") [] ∷ command (bytes "c") [] ∷ [];
        }))
execute_pipes-waited_for_example =
    execute_pipes-waited_for made opened processes (λ pid. 0) in_bin all_run fds (λ n. 100 + n)
      (λ i. refl) (λ i. refl) (command (bytes "a") [])
      (command (bytes "b") [] ∷ command (bytes "c") [] ∷ []) inherited

execute_pipes-fault_example :
    Ends
      (λ run. (rest : List (Outcome Child)) × (run.children ≡ fault ∷ rest))
      (execute_pipes made opened processes
        (λ pid. 0)
        in_bin
        all_run
        (record {
          size = 3;
          commands = command (bytes "a") [] ∷ command (bytes "b") [] ∷ command (bytes "c") [] ∷ [];
        }))
execute_pipes-fault_example =
    execute_pipes-fault made opened processes (λ pid. 0) in_bin all_run fds (λ n. 100 + n)
      (λ i. refl) (λ i. refl) (command (bytes "a") []) (command (bytes "b") [])
      (command (bytes "c") []) []

execute_pipes-Connected_example :
    Ends
      (λ run.
        (made_first : List Call) × (behind : List Call) × (first second : Outcome Child)
        × (run.calls ≡ made_first ++ fork 100 ∷ fork 101 ∷ behind)
        × (run.children ≡ first ∷ second ∷ [])
        × (apply_all made_first inherited 4 ≡ some (write_end 4))
        × Ends
            (λ child.
              Connected
                (fds 0 ∷ [])
                (apply_all made_first inherited)
                0
                (apply_all child.calls (apply_all made_first inherited)))
            first
        × Ends
            (λ child.
              Connected
                (fds 0 ∷ [])
                (apply_all made_first inherited)
                1
                (apply_all child.calls (apply_all made_first inherited)))
            second)
      (execute_pipes made opened processes
        (λ pid. 0)
        in_bin
        all_run
        (record { size = 2; commands = command (bytes "a") [] ∷ command (bytes "b") [] ∷ [] }))
execute_pipes-Connected_example =
    execute_pipes-Connected made opened processes (λ pid. 0) in_bin all_run fds (λ n. 100 + n)
      (λ i. refl) (λ i. refl) (command (bytes "a") []) (command (bytes "b") []) (bytes "a")
      (bytes "b") [] [] inherited refl refl refl refl (omega arith, omega arith)

abbrev to_file : Redirect
to_file = record { fd = 1; mode = redir_out; target = bytes "f" }

abbrev appended : Redirect
appended = record { fd = 1; mode = redir_append; target = bytes "g" }

command_child-redirected_example :
    Ends
      (λ child.
        (apply_all child.calls inherited 1
          ≡ redirected opened (to_file ∷ appended ∷ []) 0 1 (inherited 1))
        × (run_file made opened processes (λ pid. 0) in_bin all_run (bytes "ls" ∷ [])
            ≡ ok child.ending))
      (command_child made opened processes
        (λ pid. 0)
        in_bin
        all_run
        (command (bytes "ls") (to_file ∷ appended ∷ [])))
command_child-redirected_example =
    command_child-redirected made opened processes (λ pid. 0) in_bin all_run opened-above
      (command (bytes "ls") (to_file ∷ appended ∷ [])) (bytes "ls") [] 1 inherited refl
      (inl refl, (inl refl, tt)) (omega arith)
