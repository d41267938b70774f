-- ===== src/Exec/Process.antt =====
-- src/exec.c: `execute_pipes`, `execute_command`, `execute_pipeline` and what they call, as the
-- system calls that the shell and its children make, in their order. The answers of the system are
-- parameters: the descriptors that the n-th `pipe` and the n-th `open` give, the process that the
-- n-th `fork` makes, each of which may fail, what `waitpid` says of it, the file that
-- `path_find_command` finds, and whether `execvp` succeeds.
use codecrafters_shell_c.Common.{
  ℕ, zero, suc, ◌+◌, ◌-◌, ◌/◌, ◌%◌, ◌^◌, Bool, true, false, List, [], ◌∷◌, ◌++◌, ◌==◌, ltb, Option,
  none, some, if◌then◌else◌,
}
use codecrafters_shell_c.Common.Bytes.{Bytes}
use codecrafters_shell_c.Common.Outcome.{Outcome, ok, fault, ◌>>=◌}
use codecrafters_shell_c.Syntax.{
  RedirMode, redir_in, redir_out, redir_append, redir_heredoc, redir_err, Redirect, Command,
  Pipeline,
}
use codecrafters_shell_c.Builtins.Table.{BuiltinCmd, BuiltinE, find_builtin}

-- The flags that a file is opened with.
pub data OpenFlags : Type 0 where
  o_append o_trunc o_rdonly : OpenFlags

pub data Call : Type 0 where
  pipe : ℕ → ℕ → Call
  open_file : OpenFlags → Bytes → ℕ → Call
  dup2 : ℕ → ℕ → Call
  close : ℕ → Call
  fork : ℕ → Call
  waitpid : ℕ → Call

-- How a child ends its part: with a status, or as another program.
pub data Ending : Type 0 where
  exit_with : ℕ → Ending
  execvp : List Bytes → Ending

pub record Child : Type 0 where
  pub calls : List Call
  pub ending : Ending

pub record Run : Type 0 where
  pub calls : List Call
  pub children : List (Outcome Child)
  pub status : ℕ

-- What a pipeline comes to: a built-in command with its status, processes, or the end of the shell.
pub data Ran : Type 0 where
  in_shell : ℕ → Ran
  forked : Run → Ran
  shell_exited : ℕ → Ran

unfoldable pub count_command_args : List Bytes → ℕ
count_command_args [] = 0
count_command_args (arg ∷ argv) = suc (count_command_args argv)

-- It returns before it runs the command.
unfoldable pub exec_builtin : Command → BuiltinCmd → ℕ
exec_builtin command cmd = 0

-- The array of the pipes so far: `none` where `pipe` failed, which leaves the entry without a value.
abbrev pub PipeArray : Type 0
PipeArray = List (Option (ℕ × ℕ))

-- A pipe of the array that was not made has no value.
unfoldable pub pipe_at : PipeArray → ℕ → Outcome (ℕ × ℕ)
pipe_at [] i = fault
pipe_at (none ∷ pipes) zero = fault
pipe_at (some p ∷ pipes) zero = ok p
pipe_at (_ ∷ pipes) (suc i) = pipe_at pipes i

unfoldable pub close_pipes : PipeArray → ℕ → Outcome (List Call)
close_pipes pipes zero = ok []
close_pipes [] (suc n) = fault
close_pipes (none ∷ pipes) (suc n) = fault
close_pipes (some p ∷ pipes) (suc n) = do
  rest ← close_pipes pipes n
  ok (close p.0 ∷ close p.1 ∷ rest)

-- The end of the pipe before the `i`-th child, as its standard input.
unfoldable pub take_input : PipeArray → ℕ → Outcome (List Call)
unfolding pipe_at
take_input pipes zero = ok []
take_input pipes (suc i) = do p ← pipe_at pipes i; ok (dup2 p.0 0 ∷ [])

-- The end of the pipe behind it, as its standard output.
unfoldable pub take_output : PipeArray → ℕ → ℕ → Outcome (List Call)
unfolding pipe_at
take_output pipes i num_pipes = elim (ltb i num_pipes) [
  | true ↦ do p ← pipe_at pipes i; ok (dup2 p.1 1 ∷ [])
  | false ↦ ok []
]

-- What the `i`-th child does with its descriptors.
unfoldable pub child_setup : PipeArray → ℕ → ℕ → Outcome (List Call)
unfolding take_input take_output close_pipes
child_setup pipes i num_pipes = do
  from ← take_input pipes i
  to ← take_output pipes i num_pipes
  closes ← close_pipes pipes num_pipes
  ok (from ++ to ++ closes)

unfoldable pub wait_all : List ℕ → List Call
wait_all [] = []
wait_all (pid ∷ pids) = waitpid pid ∷ wait_all pids

-- The status that `waitpid` stores, read by the macros of <sys/wait.h>.
unfoldable pub wait_status : ℕ → ℕ
wait_status status =
    if status % 128 == 0
    then status / 256 % 256
    else if status % 128 == 127
    then status
    else 128 + status % 128

unfoldable pub check_command : Command → Bool
check_command command = elim command.argv [ [] ↦ false | _ ↦ true ]

-- The name of a command without words is a null pointer, which `strcmp` reads.
unfoldable pub named_builtin : List Bytes → Outcome (Option BuiltinCmd)
named_builtin [] = fault
named_builtin (name ∷ _) = ok (find_builtin name)

unfoldable pub is_builtin : Command → Outcome Bool
unfolding named_builtin
is_builtin command = do
  cmd ← named_builtin command.argv
  ok (elim cmd [ none ↦ false | some _ ↦ true ])

module _ (pipe_fds : ℕ → Option (ℕ × ℕ)) (open_fd : ℕ → Option ℕ) (fork_pid : ℕ → Option ℕ)
    (waited : ℕ → ℕ) (path_find_command : Bytes → Option Bytes) (execs : List Bytes → Bool) where
  -- A command that is not found, or that cannot be run, ends with 127.
  unfoldable pub run_file : List Bytes → Outcome Ending
  run_file [] = fault
  run_file (name ∷ args) = ok (elim (path_find_command name) [
    | none ↦ exit_with 127
    | some file ↦ if execs (name ∷ args) then execvp (name ∷ args) else exit_with 127
  ])

  -- In a pipeline an `execvp` that fails returns into the loop of the child, which at its end reads the
  -- process of its own command, an entry of the array that has no value there: a fault.
  unfoldable pub run_piped : List Bytes → Outcome Ending
  run_piped [] = fault
  run_piped (name ∷ args) = elim (path_find_command name) [
    | none ↦ ok (exit_with 127)
    | some file ↦ if execs (name ∷ args) then ok (execvp (name ∷ args)) else fault
  ]

  unfoldable pub pipe_child : PipeArray → ℕ → ℕ → Command → Outcome Child
  unfolding child_setup named_builtin exec_builtin run_piped
  pipe_child pipes i num_pipes command = do
    calls ← child_setup pipes i num_pipes
    builtin ← named_builtin command.argv
    ending ← elim builtin [
      | some cmd ↦ ok (exit_with (exec_builtin command cmd))
      | none ↦ run_piped command.argv
    ]
    ok (record { calls = calls; ending = ending })

  -- The call that makes a pipe; one that fails changes nothing.
  unfoldable pub made_pipe : Option (ℕ × ℕ) → List Call
  made_pipe none = []
  made_pipe (some p) = pipe p.0 p.1 ∷ []

  -- Every command but the last has a pipe made, whose result is not tested.
  unfoldable pub pipes_after : ℕ → ℕ → PipeArray → PipeArray
  pipes_after i num_pipes pipes = if ltb i num_pipes then pipes ++ pipe_fds i ∷ [] else pipes

  unfoldable pub pipe_calls : ℕ → ℕ → List Call
  unfolding made_pipe
  pipe_calls i num_pipes = if ltb i num_pipes then made_pipe (pipe_fds i) else []

  -- The loop over the commands that are left, from the `i`-th on, and behind it the closing and
  -- waiting of the shell.
  unfoldable pub fork_loop : ℕ → List Command → ℕ → ℕ → PipeArray → List ℕ → Outcome Run
  unfolding wait_all close_pipes
  fork_loop zero commands i num_pipes pipes pids = do
    closes ← close_pipes pipes num_pipes
    ok (record { calls = closes ++ wait_all pids; children = []; status = 0 })
  fork_loop (suc k) [] i num_pipes pipes pids = fault
  fork_loop (suc k) (command ∷ commands) i num_pipes pipes pids =
      let pipes' = pipes_after i num_pipes pipes in
      elim (fork_pid i) [
        | none ↦ ok (record { calls = pipe_calls i num_pipes; children = []; status = 2 ^ 32 - 1 })
        | some pid ↦ do
          rest ← fork_loop k commands (suc i) num_pipes pipes' (pids ++ pid ∷ [])
          ok (record {
            calls = pipe_calls i num_pipes ++ fork pid ∷ rest.calls;
            children = pipe_child pipes' i num_pipes command ∷ rest.children;
            status = rest.status;
          })
      ]

  -- An array of `size - 1` pipes has no size for no command.
  unfoldable pub execute_pipes : Pipeline → Outcome Run
  unfolding fork_loop
  execute_pipes pipeline = elim pipeline.size [
    | zero ↦ fault
    | suc m ↦ fork_loop (suc m) pipeline.commands 0 m [] []
  ]

  -- A file that is opened in place of descriptor 1 or 2; for another one it stays open. The result of
  -- `open` is not tested: without a file `dup2` and `close` fail on -1, and change nothing.
  unfoldable pub redirect_output : OpenFlags → Redirect → ℕ → List Call
  redirect_output flags r i = elim (open_fd i) [
    | none ↦ []
    | some fd ↦
        open_file flags r.target fd
        ∷ (if r.fd == 1
            then dup2 fd 1 ∷ close fd ∷ []
            else if r.fd == 2
            then dup2 fd 2 ∷ close fd ∷ []
            else [])
  ]

  unfoldable pub redirect_input : Redirect → ℕ → List Call
  redirect_input r i = elim (open_fd i) [
    | none ↦ []
    | some fd ↦
        open_file o_rdonly r.target fd ∷ (if r.fd == 0 then dup2 fd 0 ∷ close fd ∷ [] else [])
  ]

  -- The switch on the mode of the `i`-th redirection, in front of the calls for those behind it;
  -- `false` where the child exits with 1.
  unfoldable pub redirect_round : RedirMode → Redirect → ℕ → List Call × Bool → List Call × Bool
  unfolding redirect_output redirect_input
  redirect_round redir_append r i rest = (redirect_output o_append r i ++ rest.0, rest.1)
  redirect_round redir_out r i rest = (redirect_output o_trunc r i ++ rest.0, rest.1)
  redirect_round redir_in r i rest =
      if r.fd == 0 then (redirect_input r i ++ rest.0, rest.1) else (redirect_input r i, false)
  redirect_round redir_heredoc r i rest = ([], false)
  redirect_round redir_err r i rest = ([], false)

  unfoldable pub redirect_loop : List Redirect → ℕ → List Call × Bool
  unfolding redirect_round
  redirect_loop [] i = ([], true)
  redirect_loop (r ∷ rs) i = redirect_round r.mode r i (redirect_loop rs (suc i))

  unfoldable pub command_child : Command → Outcome Child
  unfolding redirect_loop run_file
  command_child command =
      let (calls, goes_on) = redirect_loop command.redirs 0 in
      elim goes_on [
        | false ↦ ok (record { calls = calls; ending = exit_with 1 })
        | true ↦ do ending ← run_file command.argv; ok (record { calls = calls; ending = ending })
      ]

  -- Where it cannot fork the shell itself exits: no status then.
  unfoldable pub execute_command : Command → Option Run
  unfolding command_child wait_status
  execute_command command = elim (fork_pid 0) [
    | none ↦ none
    | some pid ↦ some (record {
      calls = fork pid ∷ waitpid pid ∷ [];
      children = command_child command ∷ [];
      status = wait_status (waited pid);
    })
  ]

  module _ (run_builtin : BuiltinE → ℕ → List Bytes → ℕ) where
    unfoldable pub execute_builtin : Command → Outcome ℕ
    unfolding count_command_args
    execute_builtin command = do
      becmd ← named_builtin command.argv
      ok (elim becmd [
        | none ↦ 2 ^ 32 - 1
        | some cmd ↦ run_builtin cmd.builtin (count_command_args command.argv) command.argv
      ])

    unfoldable pub execute_single : Command → Outcome Ran
    unfolding execute_builtin execute_command check_command is_builtin
    execute_single command = elim (check_command command) [
      | false ↦ ok (in_shell 0)
      | true ↦ do
        builtin ← is_builtin command
        elim builtin [
          | true ↦ do status ← execute_builtin command; ok (in_shell status)
          | false ↦
              ok
                (elim (execute_command command) [ none ↦ shell_exited 127 | some run ↦ forked run ])
        ]
    ]

    unfoldable pub execute_pipeline : Pipeline → Outcome Ran
    unfolding execute_single execute_pipes
    execute_pipeline pipeline = elim (pipeline.size == 1) [
      | true ↦ elim pipeline.commands [ [] ↦ fault | command ∷ _ ↦ execute_single command ]
      | false ↦ do run ← execute_pipes pipeline; ok (forked run)
    ]
