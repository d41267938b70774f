-- ===== src/Exec/Redirections.antt =====
-- src/exec.c: where the redirections of a command lead, and the status of a child that was waited for.
use codecrafters_shell_c.Common.{
  Bool, ℕ, suc, ◌+◌, ◌*◌, ◌==◌, ◌<◌, List, [], ◌∷◌, ◌++◌, Option, none, some, ◌≡◌, refl, true,
  arith, ap, ◌∙◌, ◌⊎◌, inl, inr, Bool-cases, if◌then◌else◌,
}
use codecrafters_shell_c.Common.Bytes.{Bytes}
use codecrafters_shell_c.Common.Outcome.{ok, Ends}
use codecrafters_shell_c.Syntax.{
  RedirMode, redir_in, redir_out, redir_append, redir_heredoc, redir_err, Redirect, Command,
}
use codecrafters_shell_c.Exec.Process.{
  redirect_input, redirect_round, OpenFlags, o_append, o_trunc, o_rdonly, Call, open_file, dup2,
  close, redirect_output, redirect_loop, run_file, command_child, wait_status,
}
use codecrafters_shell_c.Exec.Descriptors.{
  Description, file, Table, set, apply, apply_all, apply_all-append, set-here, set-apart,
}

-- The redirections that the shell carries out: `<` of descriptor 0, `>` and `>>` of 1 and 2.
abbrev pub Works : RedirMode → ℕ → Type 0
Works redir_in fd = fd ≡ 0
Works redir_out fd = (fd ≡ 1) ⊎ (fd ≡ 2)
Works redir_append fd = (fd ≡ 1) ⊎ (fd ≡ 2)
Works redir_heredoc fd = ⊥
Works redir_err fd = ⊥

abbrev pub AllWork : List Redirect → Type 0
AllWork [] = Unit {0}
AllWork (r ∷ rs) = Works r.mode r.fd × AllWork rs

abbrev pub flags_of : RedirMode → OpenFlags
flags_of redir_in = o_rdonly
flags_of redir_append = o_append
flags_of _ = o_trunc

-- What a descriptor is to stand for: the file of the last redirection of it whose file opens, or what
-- it had. The redirections are numbered from `i` on.
abbrev pub redirected :
    (ℕ → Option ℕ) → List Redirect → ℕ → ℕ → Option Description → Option Description
redirected open_fd [] i fd d = d
redirected open_fd (r ∷ rs) i fd d = redirected open_fd rs (suc i) fd (elim (open_fd i) [
  | none ↦ d
  | some f ↦ if fd == r.fd then some (file (flags_of r.mode) r.target) else d
])

-- A file is opened behind the standard streams, put in the place of one of them, and closed.
placed :
    (flags : OpenFlags) (target : Bytes) (f k fd : ℕ) (t : Table)
    → 2 < f
    → fd < 3
    → apply_all (open_file flags target f ∷ dup2 f k ∷ close f ∷ []) t fd
      ≡ (if fd == k then some (file flags target) else t fd)
unfolding apply_all apply
placed flags target f k fd t high low =
    let t1 : Table = set f (some (file flags target)) t in
    set-apart f fd none (set k (t1 f) t1) (omega arith) ∙ elim (Bool-cases (fd == k)) [
      | inl same ↦ rw (set, same) (set-here f (some (file flags target)) t)
      | inr apart ↦ rw (set, apart) (set-apart f fd (some (file flags target)) t (omega arith))
    ]

-- The calls for a redirection that is carried out, by what `open` gives.
abbrev placing : OpenFlags → Redirect → Option ℕ → List Call
placing flags r none = []
placing flags r (some f) = open_file flags r.target f ∷ dup2 f r.fd ∷ close f ∷ []

placing-placed :
    (flags : OpenFlags) (r : Redirect) (o : Option ℕ) (fd : ℕ) (t : Table)
    → ((f : ℕ) → o ≡ some f → 2 < f)
    → fd < 3
    → apply_all (placing flags r o) t fd
      ≡ elim o [ none ↦ t fd | some f ↦ if fd == r.fd then some (file flags r.target) else t fd ]
unfolding apply_all
placing-placed flags r none fd t above low = refl
placing-placed flags r (some f) fd t above low =
    placed flags r.target f r.fd fd t (above f refl) low

module _ (pipe_fds : ℕ → Option (ℕ × ℕ)) (open_fd : ℕ → Option ℕ) (fork_pid : ℕ → Option ℕ)
    (waited : ℕ → ℕ) (path_find_command : Bytes → Option Bytes) (execs : List Bytes → Bool)
    (above : (i fd : ℕ) → open_fd i ≡ some fd → 2 < fd) where
  redirect_output-placing :
      (flags : OpenFlags) (r : Redirect) (i : ℕ)
      → (r.fd ≡ 1) ⊎ (r.fd ≡ 2)
      → redirect_output pipe_fds open_fd fork_pid waited path_find_command execs flags r i
        ≡ placing flags r (open_fd i)
  unfolding redirect_output
  redirect_output-placing flags r i works = by_answer works (open_fd i)
    where
      by_answer :
          (r.fd ≡ 1) ⊎ (r.fd ≡ 2)
          → (o : Option ℕ)
          → elim o [
            | none ↦ []
            | some fd ↦
                open_file flags r.target fd
                ∷ (if r.fd == 1
                    then dup2 fd 1 ∷ close fd ∷ []
                    else if r.fd == 2
                    then dup2 fd 2 ∷ close fd ∷ []
                    else [])
          ]
            ≡ placing flags r o
      by_answer works none = refl
      by_answer (inl e) (some f) = rw e refl
      by_answer (inr e) (some f) = rw e refl

  redirect_input-placing :
      (r : Redirect) (i : ℕ)
      → r.fd ≡ 0
      → redirect_input pipe_fds open_fd fork_pid waited path_find_command execs r i
        ≡ placing o_rdonly r (open_fd i)
  unfolding redirect_input
  redirect_input-placing r i e = by_answer (open_fd i)
    where
      by_answer :
          (o : Option ℕ)
          → elim o [
            | none ↦ []
            | some fd ↦
                open_file o_rdonly r.target fd
                ∷ (if r.fd == 0 then dup2 fd 0 ∷ close fd ∷ [] else [])
          ]
            ≡ placing o_rdonly r o
      by_answer none = refl
      by_answer (some f) = rw e refl

  redirect_round-placed :
      (mode : RedirMode) (r : Redirect) (i : ℕ) (rest : List Call × Bool)
      → Works mode r.fd
      → redirect_round pipe_fds open_fd fork_pid waited path_find_command execs mode r i rest
        ≡ (placing (flags_of mode) r (open_fd i) ++ rest.0, rest.1)
  unfolding redirect_round
  redirect_round-placed redir_in r i rest e =
      let standard : (r.fd == 0) ≡ true = ground (arith, e) in
      rw (redirect_round, standard)
        (ap (λ calls. (calls ++ rest.0, rest.1)) (redirect_input-placing r i e))
  redirect_round-placed redir_out r i rest works =
      ap (λ calls. (calls ++ rest.0, rest.1)) (redirect_output-placing o_trunc r i works)
  redirect_round-placed redir_append r i rest works =
      ap (λ calls. (calls ++ rest.0, rest.1)) (redirect_output-placing o_append r i works)
  redirect_round-placed redir_heredoc r i rest h = absurd h
  redirect_round-placed redir_err r i rest h = absurd h

  redirect_loop-redirected :
      (rs : List Redirect) (i fd : ℕ) (t : Table)
      → AllWork rs
      → fd < 3
      → ((redirect_loop pipe_fds open_fd fork_pid waited path_find_command execs rs i).1 ≡ true)
        × (apply_all
              (redirect_loop pipe_fds open_fd fork_pid waited path_find_command execs rs i).0
              t
              fd
            ≡ redirected open_fd rs i fd (t fd))
  unfolding redirect_loop apply_all
  redirect_loop-redirected [] i fd t h low = (refl, refl)
  redirect_loop-redirected (r ∷ rs) i fd t (h, hs) low =
      let rest : List Call × Bool =
        redirect_loop pipe_fds open_fd fork_pid waited path_find_command execs rs (suc i) in
      let (goes_on, at) =
        redirect_loop-redirected rs (suc i) fd
          (apply_all (placing (flags_of r.mode) r (open_fd i)) t) hs low in
      rw (redirect_round-placed r.mode r i rest h) (
        goes_on,
        ap (λ u. u fd) (apply_all-append (placing (flags_of r.mode) r (open_fd i)) rest.0 t)
            ∙ at
            ∙ ap (redirected open_fd rs (suc i) fd)
                (placing-placed (flags_of r.mode) r (open_fd i) fd t (above i) low),
      )

  -- Where the redirections of a named command are `<` of descriptor 0, and `>` and `>>` of 1 and 2, and
  -- files are opened on no standard stream, the child goes on to the command, whether or not the files
  -- open: each of its standard streams is the file of the last redirection of it whose file opens, or
  -- else what the shell has there.
  pub command_child-redirected :
      (c : Command) (name : Bytes) (args : List Bytes) (fd : ℕ) (t : Table)
      → c.argv ≡ name ∷ args
      → AllWork c.redirs
      → fd < 3
      → Ends
          (λ child.
            (apply_all child.calls t fd ≡ redirected open_fd c.redirs 0 fd (t fd))
            × (run_file pipe_fds open_fd fork_pid waited path_find_command execs c.argv
                ≡ ok child.ending))
          (command_child pipe_fds open_fd fork_pid waited path_find_command execs c)
  unfolding command_child run_file
  command_child-redirected c name args fd t named works low =
      let (goes_on, at) = redirect_loop-redirected c.redirs 0 fd t works low in
      rw (command_child, goes_on, named) (at, refl)

-- The status that `waitpid` stores for a child that exits with `code`, or that a signal ends.
abbrev pub exited : ℕ → ℕ
exited code = code * 256

-- A child that exits gives its own status, and one that a signal ends 128 and the number of the
-- signal; both are below 256.
pub wait_status-bounds :
    (code signal : ℕ)
    → code < 256
    → 0 < signal
    → signal < 127
    → (wait_status (exited code) ≡ code)
      × (wait_status signal ≡ 128 + signal)
      × (wait_status signal < 256)
unfolding wait_status
wait_status-bounds code signal small some_signal known = (ground arith, ground arith, ground arith)
