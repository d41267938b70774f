-- ===== src/Completion/Offers.antt =====
-- src/completion.c: what the calls of a generator give, one after the other.
use codecrafters_shell_c.Common.{
  take, ◌&&◌, subst, ℕ, ◌≡◌, ◌⊎◌, inl, inr, refl, Bool, List, [], ◌∷◌, ◌++◌, Option, none, some,
  length, Bool-cases,
}
use codecrafters_shell_c.Common.Bytes.{Bytes}
use codecrafters_shell_c.Common.Outcome.{Outcome, ok, Ends}
use codecrafters_shell_c.Completion.Paths.{
  strn_eq-begins_with, full_path, begins_with, PathWalk, is_match, read_entries, open_token,
  walk_dirs, path_generator, strtok_from, programs_in, names_of, programs,
}

-- The calls of a generator, first with `state` and then with 1, give these matches and then a null
-- pointer.
abbrev pub Calls : {S : Type 0} → (ℕ → S → Outcome (Option Bytes × S)) → ℕ → S → List Bytes → Type 0
Calls generator state s [] = Ends (λ r. r.0 ≡ none) (generator state s)
Calls generator state s (m ∷ ms) =
    Ends (λ r. (r.0 ≡ some m) × Calls generator 1 r.1 ms) (generator state s)

module _ (opendir : Bytes → Option (List Bytes)) (is_program : Bytes → Bool) (text : Bytes) where
  -- What the walk has before it.
  abbrev ahead : List Bytes → Option (List Bytes) → List Bytes
  ahead [] current = []
  ahead (dir ∷ dirs) current =
      programs_in opendir is_program text dir (names_of current)
      ++ programs opendir is_program text dirs

  -- The result of a walk that has these matches before it.
  abbrev Gives : Option Bytes × PathWalk → List Bytes → Type 0
  Gives r [] = r.0 ≡ none
  Gives r (m ∷ ms) =
      (r.0 ≡ some m) × (r.1.len ≡ length text) × (ahead r.1.dirs r.1.current_dir ≡ ms)

  is_match-begins_with :
      (dir name : Bytes)
      → is_match opendir is_program (length text) text dir name
        ≡ (begins_with text name && is_program (take 4095 (dir ++ b'/' ∷ name)))
  unfolding is_match full_path
  is_match-begins_with dir name = rw (strn_eq-begins_with text name) refl

  read_entries-cases :
      (dir : Bytes) (names : List Bytes)
      → ((programs_in opendir is_program text dir names ≡ [])
          × (read_entries opendir is_program (length text) text dir names ≡ (none, [])))
        ⊎ ((name : Bytes) × (rest : List Bytes) × (programs_in opendir is_program text dir names
              ≡ name ∷ programs_in opendir is_program text dir rest)
            × (read_entries opendir is_program (length text) text dir names ≡ (some name, rest)))
  unfolding programs_in read_entries
  read_entries-cases dir [] = inl (refl, refl)
  read_entries-cases dir (name ∷ names) =
      let same = is_match-begins_with dir name in
      elim (Bool-cases (begins_with text name && is_program (take 4095 (dir ++ b'/' ∷ name)))) [
        | inl e ↦ inr (name, names, rw e refl, rw (read_entries, same, e) refl)
        | inr e ↦ rw (programs_in, read_entries, same, e) (read_entries-cases dir names)
      ]

  ahead_opened :
      (dirs : List Bytes)
      → ahead dirs (open_token opendir is_program dirs) ≡ programs opendir is_program text dirs
  unfolding programs open_token
  ahead_opened [] = refl
  ahead_opened (dir ∷ dirs) = refl

  walk_dirs-Gives :
      (dirs : List Bytes) (current : Option (List Bytes))
      → Gives (walk_dirs opendir is_program (length text) text dirs current) (ahead dirs current)
  unfolding walk_dirs programs_in
  walk_dirs-Gives [] current = refl
  walk_dirs-Gives (dir ∷ dirs) none =
      subst
        (Gives (
          walk_dirs opendir is_program (length text) text dirs
            (open_token opendir is_program dirs)))
        (ahead_opened dirs) (walk_dirs-Gives dirs (open_token opendir is_program dirs))
  walk_dirs-Gives (dir ∷ dirs) (some names) = elim (read_entries-cases dir names) [
    | inl (here, run) ↦
        rw (here, walk_dirs, run)
          (subst
            (Gives (
              walk_dirs opendir is_program (length text) text dirs
                (open_token opendir is_program dirs)))
            (ahead_opened dirs) (walk_dirs-Gives dirs (open_token opendir is_program dirs)))
    | inr (name, rest, here, run) ↦ rw (here, walk_dirs, run) (refl, refl, rw run refl)
  ]

  on-Gives :
      (s : PathWalk) (ms : List Bytes)
      → s.len ≡ length text
      → ahead s.dirs s.current_dir ≡ ms
      → Gives (walk_dirs opendir is_program s.len text s.dirs s.current_dir) ms
  on-Gives s ms len left = rw len (
      subst (Gives (walk_dirs opendir is_program (length text) text s.dirs s.current_dir)) left
        (walk_dirs-Gives s.dirs s.current_dir))

  Calls-Gives :
      (path : Option Bytes) (state : ℕ) (s : PathWalk) (ms : List Bytes)
      → Gives (path_generator opendir is_program path text state s) ms
      → Calls (λ st t. ok (path_generator opendir is_program path text st t)) state s ms
  unfolding path_generator
  Calls-Gives path state s [] h = h
  Calls-Gives path state s (m ∷ ms) (found, len, left) = (
    found,
    Calls-Gives path 1 (path_generator opendir is_program path text state s).1 ms
        (on-Gives (path_generator opendir is_program path text state s).1 ms len left),
  )

  -- Whatever state an earlier completion left, the calls of `path_generator` for a text give the
  -- programs of the directories of PATH that begin with the text, in their order, and then a null
  -- pointer.
  pub path_generator-Calls :
      (path : Bytes) (s : PathWalk)
      → Calls
          (λ st t. ok (path_generator opendir is_program (some path) text st t))
          0
          s
          (programs opendir is_program text (strtok_from path []))
  unfolding path_generator
  path_generator-Calls path s = Calls-Gives (some path) 0 s _ (
      subst
        (Gives (
          walk_dirs opendir is_program (length text) text (strtok_from path [])
            (open_token opendir is_program (strtok_from path []))))
        (ahead_opened (strtok_from path []))
        (walk_dirs-Gives (strtok_from path [])
          (open_token opendir is_program (strtok_from path []))))
