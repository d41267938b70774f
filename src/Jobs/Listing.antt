-- ===== src/Jobs/Listing.antt =====
-- src/jobs.c: which jobs are left when they have been printed.
use codecrafters_shell_c.Common.{
  if◌then◌else◌, ℕ, zero, suc, ◌<◌, ◌≡◌, refl, sym, ap, subst, ◌∙◌, Bool, true, false, List, [],
  ◌∷◌, ◌++◌, ◌==◌, Option, none, some, length, drop, length-append, append_assoc, arith, ◌⊎◌, inl,
  inr, Bool-cases, Option-cases, ==_iff,
}
use codecrafters_shell_c.Common.Bytes.{Bytes, bytes}
use codecrafters_shell_c.Common.Outcome.{ok, ◌>>=◌, Ends, Ends-bind, Ends-mono}
use codecrafters_shell_c.Jobs.JobTable.{Job, JobList, remove_node, find_job, or_new}
use codecrafters_shell_c.Jobs.Printing.{
  status_symbol, print_job_with_status, check_and_print_job, print_loop, reap_loop,
  check_background_jobs, print_jobs,
}

-- The jobs whose processes are not done, in their order.
abbrev pub running : (ℕ → Bool) → List Job → List Job
running done [] = []
running done (j ∷ js) = elim (done j.pid) [ true ↦ running done js | false ↦ j ∷ running done js ]

-- What is left of the jobs when some processes are reaped.
abbrev pub left_by : List ℕ → List Job → List Job
left_by [] jobs = jobs
left_by (pid ∷ pids) jobs = left_by pids (remove_node jobs pid)

abbrev HasPid : List Job → ℕ → Type 0
HasPid [] pid = ⊥
HasPid (j ∷ js) pid = (j.pid ≡ pid) ⊎ HasPid js pid

abbrev AllRunning : (ℕ → Bool) → List Job → Type 0
AllRunning done [] = Unit {0}
AllRunning done (j ∷ js) = (done j.pid ≡ false) × AllRunning done js

-- The symbol of a job that is in the list is found without a fault.
status_symbol-Ends :
    (jobs : List Job) (pid : ℕ) → HasPid jobs pid → Ends (λ _. Unit {0}) (status_symbol jobs pid)
unfolding status_symbol
status_symbol-Ends [] pid h = absurd h
status_symbol-Ends (j ∷ []) pid (inl e) =
    let same : (j.pid == pid) ≡ true = ground (arith, e) in rw (status_symbol, same) tt
status_symbol-Ends (j ∷ []) pid (inr h) = absurd h
status_symbol-Ends (j ∷ k ∷ ks) pid h = tt

print_job_with_status-Ends :
    (jobs : List Job) (job : Job) (status : Bytes)
    → HasPid jobs job.pid
    → Ends (λ _. Unit {0}) (print_job_with_status jobs job status)
unfolding print_job_with_status
print_job_with_status-Ends jobs job status h =
    Ends-bind (λ _. Unit {0}) (status_symbol jobs job.pid) _ (status_symbol-Ends jobs job.pid h)
      (λ symbol k. tt)

check_and_print_job-Ends :
    (done : ℕ → Bool) (jobs : List Job) (job : Job)
    → HasPid jobs job.pid
    → Ends (λ checked. checked.0 ≡ done job.pid) (check_and_print_job done jobs job)
unfolding check_and_print_job
check_and_print_job-Ends done jobs job h = elim (Bool-cases (done job.pid)) [
  | inl e ↦
      rw (check_and_print_job, e)
        (Ends-bind (λ checked. checked.0 ≡ true) (print_job_with_status jobs job (bytes "Done")) _
          (print_job_with_status-Ends jobs job (bytes "Done") h) (λ text k. refl))
  | inr e ↦
      rw (check_and_print_job, e)
        (Ends-bind (λ checked. checked.0 ≡ false) (print_job_with_status jobs job (bytes "Running"))
          _ (print_job_with_status-Ends jobs job (bytes "Running") h) (λ text k. refl))
]

HasPid-append : (kept js : List Job) (j : Job) → HasPid (kept ++ j ∷ js) j.pid
HasPid-append [] js j = inl refl
HasPid-append (k ∷ kept) js j = inr (HasPid-append kept js j)

drop-append : (kept rest : List Job) → drop (length kept) (kept ++ rest) ≡ rest
drop-append [] rest = refl
drop-append (k ∷ kept) rest = drop-append kept rest

-- Of the jobs that are running and one that is done, the one is removed.
remove_node-append :
    (done : ℕ → Bool) (kept js : List Job) (j : Job)
    → AllRunning done kept
    → done j.pid ≡ true
    → remove_node (kept ++ j ∷ js) j.pid ≡ kept ++ js
unfolding remove_node
remove_node-append done [] js j h e =
    let same : (j.pid == j.pid) ≡ true = ground arith in rw (remove_node, same) refl
remove_node-append done (k ∷ kept) js j (h, hs) e = elim (Bool-cases (k.pid == j.pid)) [
  | inl same ↦ absurd (apart (sym h ∙ ap done ((==_iff k.pid j.pid).0 same) ∙ e))
  | inr other ↦ rw (remove_node, other, remove_node-append done kept js j hs e) refl
]
  where
    apart : false ≡ true → ⊥
    apart e' = cc

AllRunning-append :
    (done : ℕ → Bool) (kept : List Job) (j : Job)
    → AllRunning done kept
    → done j.pid ≡ false
    → AllRunning done (kept ++ j ∷ [])
AllRunning-append done [] j h e = (e, tt)
AllRunning-append done (k ∷ kept) j (h, hs) e = (h, AllRunning-append done kept j hs e)

running_done :
    (done : ℕ → Bool) (j : Job) (js : List Job)
    → done j.pid ≡ true
    → running done (j ∷ js) ≡ running done js
running_done done j js d =
    ap (λ b. elim b [ true ↦ running done js | false ↦ j ∷ running done js ]) d

running_on :
    (done : ℕ → Bool) (j : Job) (js : List Job)
    → done j.pid ≡ false
    → running done (j ∷ js) ≡ j ∷ running done js
running_on done j js d = ap (λ b. elim b [ true ↦ running done js | false ↦ j ∷ running done js ]) d

print_loop-running :
    (done : ℕ → Bool) (f : ℕ) (kept rest : List Job) (out : Bytes)
    → AllRunning done kept
    → length rest < f
    → Ends
        (λ printed. printed.0 ≡ kept ++ running done rest)
        (print_loop done f (kept ++ rest) (length kept) out)
unfolding print_loop
print_loop-running done zero kept rest out h less = absurd (omega arith)
print_loop-running done (suc f) kept [] out h less = rw (print_loop, drop-append kept []) refl
print_loop-running done (suc f) kept (j ∷ js) out h less =
    rw (print_loop, drop-append kept (j ∷ js))
      (Ends-bind (λ printed. printed.0 ≡ kept ++ running done (j ∷ js))
        (check_and_print_job done (kept ++ j ∷ js) j) _
        (check_and_print_job-Ends done (kept ++ j ∷ js) j (HasPid-append kept js j))
        (λ checked e. elim (Bool-cases (done j.pid)) [
          | inl d ↦
              rw (e ∙ d, remove_node-append done kept js j h d, running_done done j js d)
                (print_loop-running done f kept js (out ++ checked.1) h (omega arith))
          | inr d ↦
              let wider : kept ++ j ∷ js ≡ (kept ++ j ∷ []) ++ js =
                sym (append_assoc kept (j ∷ []) js) in
              let longer : suc (length kept) ≡ length (kept ++ j ∷ []) =
                omega (arith, length-append kept (j ∷ [])) in
              rw (e ∙ d, running_on done j js d, longer, wider)
                (Ends-mono
                  (print_loop done f ((kept ++ j ∷ []) ++ js) (length (kept ++ j ∷ []))
                    (out ++ checked.1))
                  (λ printed left. left ∙ append_assoc kept (j ∷ []) (running done js))
                  (print_loop-running done f (kept ++ j ∷ []) js (out ++ checked.1)
                    (AllRunning-append done kept j h d) (omega arith)))
        ]))

-- A job that is found by its process is in the list; without one there is nothing to remove.
abbrev Found : List Job → ℕ → Option Job → Type 0
Found jobs pid none = remove_node jobs pid ≡ jobs
Found jobs pid (some job) = (job.pid ≡ pid) × HasPid jobs pid

find_job-Found : (jobs : List Job) (pid : ℕ) → Found jobs pid (find_job jobs pid)
unfolding find_job remove_node
find_job-Found [] pid = refl
find_job-Found (j ∷ js) pid = elim (Bool-cases (j.pid == pid)) [
  | inl same ↦ let e = (==_iff j.pid pid).0 same in rw (find_job, same) (e, inl e)
  | inr other ↦ rw (find_job, other) (under other (find_job js pid) (find_job-Found js pid))
]
  where
    under : (j.pid == pid) ≡ false → (o : Option Job) → Found js pid o → Found (j ∷ js) pid o
    under other none h = rw (remove_node, other, h) refl
    under other (some job) (e, h) = (e, inr h)

reap_loop-left_by :
    (pids : List ℕ) (jobs : List Job) (out : Bytes)
    → Ends (λ left. left.0 ≡ left_by pids jobs) (reap_loop pids jobs out)
unfolding reap_loop
reap_loop-left_by [] jobs out = refl
reap_loop-left_by (pid ∷ pids) jobs out = elim (Option-cases (find_job jobs pid)) [
  | inl e ↦
      let gone : remove_node jobs pid ≡ jobs = subst (Found jobs pid) e (find_job-Found jobs pid) in
      rw (reap_loop, e)
        (Ends-mono (reap_loop pids jobs out) (λ left h. h ∙ ap (left_by pids) (sym gone))
          (reap_loop-left_by pids jobs out))
  | inr (job, e) ↦
      let (same, there) = subst (Found jobs pid) e (find_job-Found jobs pid) in
      rw (reap_loop, e)
        (Ends-bind (λ left. left.0 ≡ left_by (pid ∷ pids) jobs)
          (print_job_with_status jobs job (bytes "Done")) _
          (print_job_with_status-Ends jobs job (bytes "Done")
            (subst (HasPid jobs) (sym same) there))
          (λ text k. reap_loop-left_by pids (remove_node jobs pid) (out ++ text)))
]

-- `print_jobs` comes to its end without a fault, and leaves the jobs whose processes are not done, in
-- their order; and where the shell was told that a child has ended, less those that are reaped.
pub print_jobs-running :
    (done : ℕ → Bool) (child_exited_flag : Bool) (reaped : List ℕ) (list : JobList)
    → Ends
        (λ printed.
          printed.0.jobs
          ≡ left_by (if child_exited_flag then reaped else []) (running done list.jobs))
        (print_jobs done child_exited_flag reaped (some list))
unfolding print_jobs check_background_jobs or_new
print_jobs-running done child_exited_flag reaped list =
    Ends-bind _ (print_loop done (suc (length list.jobs)) list.jobs 0 []) _
      (print_loop-running done (suc (length list.jobs)) [] list.jobs [] tt (omega arith))
      (λ printed e. reaped_after child_exited_flag printed e)
  where
    reaped_after :
        (flag : Bool) (printed : List Job × Bytes)
        → printed.0 ≡ running done list.jobs
        → Ends
            (λ (end : JobList × Bytes).
              end.0.jobs ≡ left_by (if flag then reaped else []) (running done list.jobs))
            (check_background_jobs flag reaped printed.0 printed.1 >>= λ left.
              ok (record list { jobs = left.0 }, left.1))
    reaped_after false printed e = e
    reaped_after true printed e =
        Ends-bind _ (reap_loop reaped printed.0 printed.1) _
          (reap_loop-left_by reaped printed.0 printed.1) (λ left h. h ∙ ap (left_by reaped) e)
