-- ===== src/Jobs/JobTable.antt =====
-- src/jobs.c: `JobList` and the operations on it. A chain of `JobNode` is the list of its jobs. The
-- global `job_list` is a state that is passed on, `none` the null pointer; a `pid_t` is its 32-bit
-- pattern. What `register_job` prints has no counterpart.
use codecrafters_shell_c.Common.{
  ℕ, zero, suc, ◌+◌, Bool, true, false, List, [], ◌∷◌, ◌++◌, ◌==◌, Option, none, some, length,
}
use codecrafters_shell_c.Common.Bytes.{Bytes}
use codecrafters_shell_c.Common.Outcome.{Outcome, ok, out_of_fuel, ◌>>=◌}

pub record Job : Type 0 where
  pub pid : ℕ
  pub job_number : ℕ
  pub cmdline : Bytes

unfoldable pub job_new : ℕ → ℕ → Bytes → Job
job_new pid job_number cmdline = record { pid = pid; job_number = job_number; cmdline = cmdline }

pub record JobList : Type 0 where
  pub size : ℕ
  pub jobs : List Job

unfoldable pub jl_new : JobList
jl_new = record { size = 0; jobs = [] }

unfoldable pub append_job : List Job → ℕ → Job → JobList
append_job [] size job = record { size = 1; jobs = job ∷ [] }
append_job (j ∷ js) size job = record { size = size + 1; jobs = (j ∷ js) ++ job ∷ [] }

unfoldable pub jl_append : JobList → Job → JobList
unfolding append_job
jl_append list job = append_job list.jobs list.size job

-- The first job with the number of a process is taken out.
unfoldable pub remove_node : List Job → ℕ → List Job
remove_node [] pid = []
remove_node (j ∷ js) pid = elim (j.pid == pid) [ true ↦ js | false ↦ j ∷ remove_node js pid ]

-- The size is left as it is.
unfoldable pub jl_remove : JobList → ℕ → JobList
unfolding remove_node
jl_remove list pid = record list { jobs = remove_node list.jobs pid }

unfoldable pub find_job : List Job → ℕ → Option Job
find_job [] pid = none
find_job (j ∷ js) pid = elim (j.pid == pid) [ true ↦ some j | false ↦ find_job js pid ]

unfoldable pub get_job_by_pid : JobList → ℕ → Option Job
unfolding find_job
get_job_by_pid list pid = find_job list.jobs pid

unfoldable pub or_new : Option JobList → JobList
unfolding jl_new
or_new none = jl_new
or_new (some list) = list

-- The inner loop of `get_next_job_number`.
unfoldable pub number_found : List Job → ℕ → Bool
number_found [] candidate = false
number_found (j ∷ js) candidate = elim (j.job_number == candidate) [
  | true ↦ true
  | false ↦ number_found js candidate
]

unfoldable pub number_loop : ℕ → List Job → ℕ → Outcome ℕ
unfolding number_found
number_loop zero jobs candidate = out_of_fuel
number_loop (suc f) jobs candidate = elim (number_found jobs candidate) [
  | true ↦ number_loop f jobs (candidate + 1)
  | false ↦ ok candidate
]

unfoldable pub get_next_job_number : Option JobList → Outcome ℕ
unfolding number_loop or_new
get_next_job_number list = number_loop (suc (length (or_new list).jobs)) (or_new list).jobs 1

-- The result is the stored size before.
unfoldable pub register_job : Option JobList → ℕ → Bytes → Outcome (ℕ × JobList)
unfolding get_next_job_number jl_append job_new or_new
register_job list pid cmdline = do
  job_num ← get_next_job_number list
  ok ((or_new list).size, jl_append (or_new list) (job_new pid job_num cmdline))
