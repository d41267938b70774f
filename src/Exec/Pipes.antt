-- ===== src/Exec/Pipes.antt =====
-- src/exec.c: the descriptors that `execute_pipes` leaves to its children and to the shell.
use codecrafters_shell_c.Common.{
  subst, ℕ, zero, suc, ◌==◌, ltb, ◌<◌, ◌≤◌, List, [], ◌∷◌, ◌++◌, Option, none, some, ◌≡◌, ◌≢◌, refl,
  true, arith, ap, sym, ◌∙◌, length, get_elem?, inl, inr, Bool-cases, Option-cases,
}
use codecrafters_shell_c.Common.Outcome.{Ends-bind, ok, fault, Ends}
use codecrafters_shell_c.Exec.Process.{
  PipeArray, take_output, take_input, Call, dup2, close, close_pipes, child_setup, pipe_at,
}
use codecrafters_shell_c.Exec.Descriptors.{
  Description, Table, set, apply, apply_all, apply_all-append, set-here, set-apart, AllClosed,
  AllAbove,
}

-- The array where every pipe is made.
abbrev pub all_made : List (ℕ × ℕ) → PipeArray
all_made [] = []
all_made (p ∷ ps) = some p ∷ all_made ps

-- The calls that close every pipe.
unfoldable pub closings : List (ℕ × ℕ) → List Call
closings [] = []
closings (p ∷ ps) = close p.0 ∷ close p.1 ∷ closings ps

pub close_pipes-all :
    (pipes : List (ℕ × ℕ)) (n : ℕ)
    → length pipes ≡ n
    → close_pipes (all_made pipes) n ≡ ok (closings pipes)
unfolding close_pipes closings
close_pipes-all [] zero h = refl
close_pipes-all [] (suc n) h = absurd (omega arith)
close_pipes-all (p ∷ ps) zero h = absurd (omega arith)
close_pipes-all (p ∷ ps) (suc n) h = rw (close_pipes-all ps n (omega arith)) refl

close_pipes-unmade :
    (pipes : List (ℕ × ℕ)) (n : ℕ) → length pipes < n → close_pipes (all_made pipes) n ≡ fault
unfolding close_pipes
close_pipes-unmade pipes zero h = absurd (omega arith)
close_pipes-unmade [] (suc n) h = refl
close_pipes-unmade (p ∷ ps) (suc n) h = rw (close_pipes-unmade ps n (omega arith)) refl

set_closed : (a fd : ℕ) (t : Table) → t fd ≡ none → set a none t fd ≡ none
unfolding set
set_closed a fd t e = elim (Bool-cases (fd == a)) [
  | inl same ↦ rw (set, same) refl
  | inr apart ↦ rw (set, apart) e
]

-- A descriptor that is closed stays so.
closed_stays :
    (ps : List (ℕ × ℕ)) (t : Table) (fd : ℕ) → t fd ≡ none → apply_all (closings ps) t fd ≡ none
unfolding closings apply_all apply
closed_stays [] t fd h = h
closed_stays (p ∷ ps) t fd h =
    closed_stays ps (set p.1 none (set p.0 none t)) fd
      (set_closed p.1 fd (set p.0 none t) (set_closed p.0 fd t h))

pub closings-AllClosed : (ps : List (ℕ × ℕ)) (t : Table) → AllClosed (apply_all (closings ps) t) ps
unfolding closings apply_all apply
closings-AllClosed [] t = tt
closings-AllClosed (p ∷ ps) t =
    let t' = set p.1 none (set p.0 none t) in
    (
      (
        closed_stays ps t' p.0 (set_closed p.1 p.0 (set p.0 none t) (set-here p.0 none t)),
        closed_stays ps t' p.1 (set-here p.1 none (set p.0 none t)),
      ),
      closings-AllClosed ps t',
    )

-- The standard streams are left.
closings-standard :
    (ps : List (ℕ × ℕ)) (t : Table) (fd : ℕ)
    → AllAbove ps
    → fd < 3
    → apply_all (closings ps) t fd ≡ t fd
unfolding closings apply_all apply
closings-standard [] t fd h k = refl
closings-standard (p ∷ ps) t fd h k =
    closings-standard ps (set p.1 none (set p.0 none t)) fd h.1 k
    ∙ set-apart p.1 fd none (set p.0 none t) (omega (arith, h.0))
    ∙ set-apart p.0 fd none t (omega (arith, h.0))

-- What the standard input and output of the `i`-th child are to be.
abbrev pub stdin_of : List (ℕ × ℕ) → Table → ℕ → Option Description
stdin_of pipes t zero = t 0
stdin_of pipes t (suc i) = elim (get_elem? pipes i) [ none ↦ none | some p ↦ t p.0 ]

abbrev pub stdout_of : List (ℕ × ℕ) → Table → ℕ → Option Description
stdout_of pipes t i = elim (get_elem? pipes i) [ none ↦ t 1 | some p ↦ t p.1 ]

abbrev pub Connected : List (ℕ × ℕ) → Table → ℕ → Table → Type 0
Connected pipes t i t' =
    (t' 0 ≡ stdin_of pipes t i) × (t' 1 ≡ stdout_of pipes t i) × (t' 2 ≡ t 2) × AllClosed t' pipes

get_elem?-some :
    (pipes : List (ℕ × ℕ)) (i : ℕ) → i < length pipes → (p : ℕ × ℕ) × (get_elem? pipes i ≡ some p)
get_elem?-some [] i h = absurd (omega arith)
get_elem?-some (p ∷ ps) zero h = (p, refl)
get_elem?-some (p ∷ ps) (suc i) h = get_elem?-some ps i (omega arith)

get_elem?-none : (pipes : List (ℕ × ℕ)) (i : ℕ) → length pipes ≤ i → get_elem? pipes i ≡ none
get_elem?-none [] i h = refl
get_elem?-none (p ∷ ps) zero h = absurd (omega arith)
get_elem?-none (p ∷ ps) (suc i) h = get_elem?-none ps i (omega arith)

get_elem?-AllAbove :
    (pipes : List (ℕ × ℕ)) (i : ℕ) (p : ℕ × ℕ)
    → AllAbove pipes
    → get_elem? pipes i ≡ some p
    → (2 < p.0) × (2 < p.1)
get_elem?-AllAbove [] i p h e = absurd cc
get_elem?-AllAbove (q ∷ qs) zero p h e =
    subst (λ o. elim o [ none ↦ Unit {0} | some x ↦ (2 < x.0) × (2 < x.1) ]) e h.0
get_elem?-AllAbove (q ∷ qs) (suc i) p h e = get_elem?-AllAbove qs i p h.1 e

pipe_at-some :
    (pipes : List (ℕ × ℕ)) (i : ℕ) (p : ℕ × ℕ)
    → get_elem? pipes i ≡ some p
    → pipe_at (all_made pipes) i ≡ ok p
unfolding pipe_at
pipe_at-some [] i p at = absurd cc
pipe_at-some (q ∷ qs) zero p at = cc
pipe_at-some (q ∷ qs) (suc i) p at = pipe_at-some qs i p at

-- One call, or none, puts a descriptor in place, and leaves the other ones.
abbrev Puts : ℕ → Option Description → Table → List Call → Type 0
Puts fd d t calls =
    (apply_all calls t fd ≡ d) × ((fd' : ℕ) → fd' ≢ fd → apply_all calls t fd' ≡ t fd')

dup2-Puts : (a b : ℕ) (d : Option Description) (t : Table) → t a ≡ d → Puts b d t (dup2 a b ∷ [])
unfolding apply_all apply
dup2-Puts a b d t e = (set-here b (t a) t ∙ e, λ fd h. set-apart b fd (t a) t h)

nothing-Puts : (b : ℕ) (d : Option Description) (t : Table) → t b ≡ d → Puts b d t []
unfolding apply_all
nothing-Puts b d t e = (e, λ fd h. refl)

take_input-Puts :
    (pipes : List (ℕ × ℕ)) (t : Table) (i : ℕ)
    → i ≤ length pipes
    → Ends (Puts 0 (stdin_of pipes t i) t) (take_input (all_made pipes) i)
unfolding take_input
take_input-Puts pipes t zero le = nothing-Puts 0 (t 0) t refl
take_input-Puts pipes t (suc i) le =
    let (p, at) = get_elem?-some pipes i (omega arith) in
    rw (pipe_at-some pipes i p at) (
      dup2-Puts p.0 0 (stdin_of pipes t (suc i)) t
        (sym (ap (λ o. elim o [ none ↦ none | some q ↦ t q.0 ]) at)))

take_output-Puts :
    (pipes : List (ℕ × ℕ)) (t : Table) (i : ℕ)
    → Ends (Puts 1 (stdout_of pipes t i) t) (take_output (all_made pipes) i (length pipes))
unfolding take_output
take_output-Puts pipes t i = elim (Bool-cases (ltb i (length pipes))) [
  | inl more ↦
      let (p, at) = get_elem?-some pipes i (ground (arith, more)) in
      rw (take_output, more, pipe_at-some pipes i p at)
        (dup2-Puts p.1 1 (stdout_of pipes t i) t
          (sym (ap (λ o. elim o [ none ↦ t 1 | some q ↦ t q.1 ]) at)))
  | inr last ↦
      rw (take_output, last)
        (nothing-Puts 1 (stdout_of pipes t i) t (
          sym (
            ap (λ o. elim o [ none ↦ t 1 | some q ↦ t q.1 ])
              (get_elem?-none pipes i (ground (arith, last))))))
]

stdout_of-apart :
    (pipes : List (ℕ × ℕ)) (t t' : Table) (i : ℕ)
    → AllAbove pipes
    → ((fd : ℕ) → fd ≢ 0 → t' fd ≡ t fd)
    → stdout_of pipes t' i ≡ stdout_of pipes t i
stdout_of-apart pipes t t' i above same = elim (Option-cases (get_elem? pipes i)) [
  | inl e ↦ rw (stdout_of, e) (same 1 (omega arith))
  | inr (p, e) ↦
      let high = get_elem?-AllAbove pipes i p above e in
      rw (stdout_of, e) (same p.1 (omega (arith, high.1)))
]

-- The child of a command sets up its descriptors where all the pipes are made, none of them on a
-- standard stream: its standard input is the end of the pipe before it that is read, its standard
-- output the end of the pipe behind it that is written, those of the first and of the last child
-- are left, and no end of a pipe stays open.
pub child_setup-Connected :
    (pipes : List (ℕ × ℕ)) (t : Table) (i : ℕ)
    → AllAbove pipes
    → i ≤ length pipes
    → Ends
        (λ calls. Connected pipes t i (apply_all calls t))
        (child_setup (all_made pipes) i (length pipes))
unfolding child_setup
child_setup-Connected pipes t i above le =
    let Q : List Call → Type 0 = λ calls. Connected pipes t i (apply_all calls t) in
    Ends-bind Q (take_input (all_made pipes) i) _ (take_input-Puts pipes t i le)
      (λ from (input, kept).
        let t1 : Table = apply_all from t in
        Ends-bind Q (take_output (all_made pipes) i (length pipes)) _ (take_output-Puts pipes t1 i)
          (λ to (output, kept').
            let t2 : Table = apply_all to t1 in
            let all : apply_all (from ++ to ++ closings pipes) t ≡ apply_all (closings pipes) t2 =
              apply_all-append (from ++ to) (closings pipes) t
              ∙ ap (apply_all (closings pipes)) (apply_all-append from to t) in
            rw (close_pipes-all pipes (length pipes) refl) (
              subst (Connected pipes t i) (sym all) (
                closings-standard pipes t2 0 above (omega arith) ∙ kept' 0 (omega arith) ∙ input,
                closings-standard pipes t2 1 above (omega arith)
                    ∙ output
                    ∙ stdout_of-apart pipes t t1 i above kept,
                closings-standard pipes t2 2 above (omega arith)
                    ∙ kept' 2 (omega arith)
                    ∙ kept 2 (omega arith),
                closings-AllClosed pipes t2,
              ))))

-- A child that finds the pipes at its own ends, and not all the others made, faults.
pub child_setup-unmade :
    (pipes : List (ℕ × ℕ)) (i num_pipes : ℕ)
    → i < length pipes
    → length pipes < num_pipes
    → child_setup (all_made pipes) i num_pipes ≡ fault
unfolding child_setup take_input take_output
child_setup-unmade pipes i num_pipes less short =
    let (p, at) = get_elem?-some pipes i less in
    let (from, took) = took_input i less in
    let more : ltb i num_pipes ≡ true = ground arith in
    let given : take_output (all_made pipes) i num_pipes ≡ ok (dup2 p.1 1 ∷ []) =
      rw (take_output, more, pipe_at-some pipes i p at) refl in
    rw (child_setup, took, given, close_pipes-unmade pipes num_pipes short) refl
  where
    took_input :
        (j : ℕ) → j < length pipes → (from : List Call) × (take_input (all_made pipes) j ≡ ok from)
    took_input zero h = ([], refl)
    took_input (suc j) h =
        let (q, at) = get_elem?-some pipes j (omega arith) in
        (dup2 q.0 0 ∷ [], rw (pipe_at-some pipes j q at) refl)
