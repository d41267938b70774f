-- ===== src/Jobs/Numbers.antt =====
-- src/jobs.c: the numbers that jobs are given.
use codecrafters_shell_c.Common.{
  ℕ, zero, suc, ◌+◌, ◌<◌, ◌≤◌, ◌≡◌, refl, true, false, List, [], ◌∷◌, ◌++◌, ◌==◌, leb,
  if◌then◌else◌, Option, length, arith, inl, inr, Bool-cases,
}
use codecrafters_shell_c.Common.Bytes.{Bytes}
use codecrafters_shell_c.Common.Outcome.{Ends, Ends-bind, Ends-mono}
use codecrafters_shell_c.Jobs.JobTable.{
  Job, job_new, JobList, append_job, jl_append, jl_remove, remove_node, or_new, number_found,
  number_loop, get_next_job_number, register_job,
}

-- The number of jobs whose number is at least `c`.
count_above : List Job → ℕ → ℕ
count_above [] c = 0
count_above (j ∷ js) c = (if leb c j.job_number then 1 else 0) + count_above js c

count_above-le : (js : List Job) (c : ℕ) → count_above js (c + 1) ≤ count_above js c
unfolding count_above
count_above-le [] c = omega arith
count_above-le (j ∷ js) c = ground (arith, count_above-le js c)

count_above-lt :
    (js : List Job) (c : ℕ) → number_found js c ≡ true → count_above js (c + 1) < count_above js c
unfolding count_above number_found
count_above-lt [] c h = cc
count_above-lt (j ∷ js) c h = ground (arith, count_above-lt js c, count_above-le js c)

count_above-length : (js : List Job) (c : ℕ) → count_above js c ≤ length js
unfolding count_above
count_above-length [] c = omega arith
count_above-length (j ∷ js) c = ground (arith, count_above-length js c)

-- The least number from `c` on that no job has.
abbrev pub IsNext : List Job → ℕ → ℕ → Type 0
IsNext js c n =
    (c ≤ n) × (number_found js n ≡ false) × ((m : ℕ) → c ≤ m → m < n → number_found js m ≡ true)

number_loop-Ends :
    (f : ℕ) (js : List Job) (c : ℕ) → count_above js c < f → Ends (IsNext js c) (number_loop f js c)
unfolding number_loop
number_loop-Ends zero js c h = absurd (omega arith)
number_loop-Ends (suc f) js c h = elim (Bool-cases (number_found js c)) [
  | inl taken ↦
      rw (number_loop, taken)
        (Ends-mono (number_loop f js (c + 1))
          (λ n (le, free, all). (omega arith, free, up n taken all))
          (number_loop-Ends f js (c + 1) (omega (arith, count_above-lt js c taken))))
  | inr free ↦ rw (number_loop, free) (omega arith, free, λ m a b. absurd (omega arith))
]
  where
    up :
        (n : ℕ)
        → number_found js c ≡ true
        → ((m : ℕ) → c + 1 ≤ m → m < n → number_found js m ≡ true)
        → (m : ℕ) → c ≤ m
        → m < n
        → number_found js m ≡ true
    up n taken all m le lt = elim (Bool-cases (m == c)) [
      | inl same ↦ let e : m ≡ c = ground arith in rw e taken
      | inr other ↦ all m (ground arith) lt
    ]

-- `get_next_job_number` returns, and gives the least number from 1 on that no job has.
pub get_next_job_number-IsNext :
    (list : Option JobList) → Ends (IsNext (or_new list).jobs 1) (get_next_job_number list)
unfolding get_next_job_number
get_next_job_number-IsNext list =
    let js = (or_new list).jobs in
    number_loop-Ends (suc (length js)) js 1 (omega (arith, count_above-length js 1))

-- No two jobs have the same number.
abbrev pub Distinct : List Job → Type 0
Distinct [] = Unit {0}
Distinct (j ∷ js) = (number_found js j.job_number ≡ false) × Distinct js

number_found-append :
    (js : List Job) (k : Job) (n : ℕ)
    → number_found js n ≡ false
    → (k.job_number == n) ≡ false
    → number_found (js ++ k ∷ []) n ≡ false
unfolding number_found
number_found-append [] k n h d = rw (number_found, d) refl
number_found-append (j ∷ js) k n h d = ground (arith, number_found-append js k n)

Distinct-append :
    (js : List Job) (k : Job)
    → Distinct js
    → number_found js k.job_number ≡ false
    → Distinct (js ++ k ∷ [])
unfolding number_found
Distinct-append [] k d h = (refl, tt)
Distinct-append (j ∷ js) k d h = (
  number_found-append js k j.job_number d.0 (ground arith),
  Distinct-append js k d.1 (ground arith),
)

append_job-Distinct :
    (js : List Job) (size : ℕ) (k : Job)
    → Distinct js
    → number_found js k.job_number ≡ false
    → Distinct (append_job js size k).jobs
unfolding append_job number_found
append_job-Distinct [] size k d h = (refl, tt)
append_job-Distinct (j ∷ js) size k d h = Distinct-append (j ∷ js) k d h

number_found-remove_node :
    (js : List Job) (pid n : ℕ)
    → number_found js n ≡ false
    → number_found (remove_node js pid) n ≡ false
unfolding number_found remove_node
number_found-remove_node [] pid n h = refl
number_found-remove_node (j ∷ js) pid n h = ground (arith, number_found-remove_node js pid n)

remove_node-Distinct : (js : List Job) (pid : ℕ) → Distinct js → Distinct (remove_node js pid)
unfolding remove_node
remove_node-Distinct [] pid d = tt
remove_node-Distinct (j ∷ js) pid d = elim (Bool-cases (j.pid == pid)) [
  | inl same ↦ rw (remove_node, same) d.1
  | inr other ↦
      rw (remove_node, other)
        (number_found-remove_node js pid j.job_number d.0, remove_node-Distinct js pid d.1)
]

-- Where no two jobs have the same number, `register_job` returns, and it and `jl_remove` leave a
-- list in which no two have.
pub register_job-Distinct :
    (list : Option JobList) (pid : ℕ) (cmdline : Bytes)
    → Distinct (or_new list).jobs
    → Ends (λ (ret, list'). Distinct list'.jobs) (register_job list pid cmdline)
      × Distinct (jl_remove (or_new list) pid).jobs
unfolding register_job jl_append jl_remove job_new
register_job-Distinct list pid cmdline d = (
  Ends-bind (λ (ret, list'). Distinct list'.jobs) (get_next_job_number list) _
      (get_next_job_number-IsNext list)
      (λ n k.
        append_job-Distinct (or_new list).jobs (or_new list).size
          (record { pid = pid; job_number = n; cmdline = cmdline }) d k.1),
  remove_node-Distinct (or_new list).jobs pid d,
)
