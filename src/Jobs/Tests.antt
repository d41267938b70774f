-- ===== src/Jobs/Tests.antt =====
-- src/jobs.c: the theorems at a list of three jobs.
use codecrafters_shell_c.Common.{refl, [], ◌∷◌, some}
use codecrafters_shell_c.Common.Bytes.{bytes}
use codecrafters_shell_c.Common.Outcome.{Ends}
use codecrafters_shell_c.Jobs.JobTable.{JobList, or_new, number_found, register_job, jl_remove}
use codecrafters_shell_c.Common.{true, ◌==◌, ◌≡◌, if◌then◌else◌}
use codecrafters_shell_c.Common.Outcome.{ok, fault}
use codecrafters_shell_c.Jobs.Printing.{print_jobs, status_symbol, symbol_from}
use codecrafters_shell_c.Jobs.Listing.{running, left_by, print_jobs-running}
use codecrafters_shell_c.Jobs.Numbers.{Distinct, register_job-Distinct}

abbrev three_jobs : JobList
three_jobs = record {
  size = 3;
  jobs =
      record { pid = 40; job_number = 1; cmdline = bytes "a" }
      ∷ record { pid = 41; job_number = 4; cmdline = bytes "b" }
      ∷ record { pid = 42; job_number = 2; cmdline = bytes "c" }
      ∷ [];
}

three_jobs-Distinct : Distinct (or_new (some three_jobs)).jobs
unfolding or_new number_found
three_jobs-Distinct = (refl, (refl, (refl, tt)))

register_job-Distinct_example :
    Ends (λ (ret, list'). Distinct list'.jobs) (register_job (some three_jobs) 43 (bytes "d"))
    × Distinct (jl_remove (or_new (some three_jobs)) 43).jobs
register_job-Distinct_example =
    register_job-Distinct (some three_jobs) 43 (bytes "d") three_jobs-Distinct

print_jobs-running_example :
    Ends
      (λ printed.
        printed.0.jobs
        ≡ left_by (if true then 40 ∷ [] else []) (running (λ pid. pid == 41) three_jobs.jobs))
      (print_jobs (λ pid. pid == 41) true (40 ∷ []) (some three_jobs))
print_jobs-running_example = print_jobs-running (λ pid. pid == 41) true (40 ∷ []) three_jobs

-- The status of the last two jobs, and a fault for a job that is not the only one of the list.
last_job : status_symbol three_jobs.jobs 42 ≡ ok (bytes "+")
unfolding status_symbol symbol_from
last_job = refl

not_in_list :
    status_symbol (record { pid = 40; job_number = 1; cmdline = bytes "a" } ∷ []) 41 ≡ fault
unfolding status_symbol
not_in_list = refl
