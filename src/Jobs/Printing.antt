-- ===== src/Jobs/Printing.antt =====
-- src/jobs.c: how a job is printed, `print_jobs`, and the reaping of `report_and_reap_jobs` but for what
-- it does to the line of readline. `done` says whether `waitpid` without waiting gives back a process,
-- and `reaped` are the processes that it gives one after the other where it is asked for any.
use codecrafters_shell_c.Common.{
  ℕ, zero, suc, ◌-◌, Bool, true, false, List, [], ◌∷◌, ◌++◌, ◌==◌, Option, none, some, length, drop,
}
use codecrafters_shell_c.Common.Bytes.{Bytes, bytes}
use codecrafters_shell_c.Common.Outcome.{Outcome, ok, fault, out_of_fuel, ◌>>=◌}
use codecrafters_shell_c.StringBuilder.Buffer.{digits, filled}
use codecrafters_shell_c.Jobs.JobTable.{Job, JobList, remove_node, find_job, or_new}

-- The loop of `print_job_with_status` behind its first node, `prev` the process of the node before.
unfoldable pub symbol_from : ℕ → List Job → ℕ → Bytes
symbol_from prev [] pid = bytes " "
symbol_from prev (j ∷ []) pid = elim (j.pid == pid) [
  | true ↦ bytes "+"
  | false ↦ elim (prev == pid) [ true ↦ bytes "-" | false ↦ bytes " " ]
]
symbol_from prev (j ∷ k ∷ ks) pid = symbol_from j.pid (k ∷ ks) pid

-- At the only node of a list `prev` is a null pointer.
unfoldable pub status_symbol : List Job → ℕ → Outcome Bytes
unfolding symbol_from
status_symbol [] pid = ok (bytes " ")
status_symbol (j ∷ []) pid = elim (j.pid == pid) [ true ↦ ok (bytes "+") | false ↦ fault ]
status_symbol (j ∷ k ∷ ks) pid = ok (symbol_from j.pid (k ∷ ks) pid)

-- `%-20s`
unfoldable pub padded : Bytes → Bytes
unfolding filled
padded text = text ++ filled (20 - length text) b' '

unfoldable pub print_job_with_status : List Job → Job → Bytes → Outcome Bytes
unfolding status_symbol padded digits
print_job_with_status jobs job status = do
  symbol ← status_symbol jobs job.pid
  ok (
      bytes "["
      ++ digits job.job_number
      ++ bytes "]"
      ++ symbol
      ++ bytes "  "
      ++ padded status
      ++ bytes " "
      ++ job.cmdline
      ++ bytes "\n")

module _ (done : ℕ → Bool) where
  unfoldable pub check_and_print_job : List Job → Job → Outcome (Bool × Bytes)
  unfolding print_job_with_status
  check_and_print_job jobs job = elim (done job.pid) [
    | true ↦ do text ← print_job_with_status jobs job (bytes "Done"); ok (true, text)
    | false ↦ do text ← print_job_with_status jobs job (bytes "Running"); ok (false, text)
  ]

  -- `iter` is the node behind the first `i`.
  unfoldable pub print_loop : ℕ → List Job → ℕ → Bytes → Outcome (List Job × Bytes)
  unfolding check_and_print_job
  print_loop zero jobs i out = out_of_fuel
  print_loop (suc f) jobs i out = elim (drop i jobs) [
    | [] ↦ ok (jobs, out)
    | job ∷ behind ↦ do
      checked ← check_and_print_job jobs job
      elim checked.0 [
        | true ↦ print_loop f (remove_node jobs job.pid) i (out ++ checked.1)
        | false ↦ print_loop f jobs (suc i) (out ++ checked.1)
      ]
  ]

-- The loop of `report_and_reap_jobs`.
unfoldable pub reap_loop : List ℕ → List Job → Bytes → Outcome (List Job × Bytes)
unfolding print_job_with_status
reap_loop [] jobs out = ok (jobs, out)
reap_loop (pid ∷ pids) jobs out = elim (find_job jobs pid) [
  | none ↦ reap_loop pids jobs out
  | some job ↦ do
    text ← print_job_with_status jobs job (bytes "Done")
    reap_loop pids (remove_node jobs pid) (out ++ text)
]

unfoldable pub check_background_jobs : Bool → List ℕ → List Job → Bytes → Outcome (List Job × Bytes)
unfolding reap_loop
check_background_jobs child_exited_flag reaped jobs out = elim child_exited_flag [
  | true ↦ reap_loop reaped jobs out
  | false ↦ ok (jobs, out)
]

-- Each round removes a job or moves on: one round more than there are jobs.
unfoldable pub print_jobs : (ℕ → Bool) → Bool → List ℕ → Option JobList → Outcome (JobList × Bytes)
unfolding print_loop check_background_jobs or_new
print_jobs done child_exited_flag reaped job_list =
    let list = or_new job_list in
    do
      printed ← print_loop done (suc (length list.jobs)) list.jobs 0 []
      left ← check_background_jobs child_exited_flag reaped printed.0 printed.1
      ok (record list { jobs = left.0 }, left.1)
