-- ===== src/Path/Laws.antt =====
-- src/path.c: how PATH is split, and what the search for a command finds.
use codecrafters_shell_c.Common.{
  ℕ, ◌≡◌, ◌≢◌, refl, sym, ap, ◌∙◌, Bool, true, false, List, [], ◌∷◌, ◌++◌, ◌==◌, Option, none, some,
  map, append_assoc, append-nil, arith, inl, inr, Bool-cases,
}
use codecrafters_shell_c.Common.Bytes.{str_eq, Bytes}
use codecrafters_shell_c.Path.Words.{
  WordList, wordlist_new_empty, wordlist_append, wordlist_from_words, copy_words, wordlist_copyof,
  wordlist_copyof-wordlist_from_words,
}
use codecrafters_shell_c.Path.Search.{
  split_from, path_split, path_join, has_path_components, search, path_find_command, path_get_dirs,
}

abbrev pub NoColon : Bytes → Type 0
NoColon [] = Unit {0}
NoColon (c ∷ cs) = (c ≢ b':') × NoColon cs

abbrev pub NoColons : List Bytes → Type 0
NoColons [] = Unit {0}
NoColons (d ∷ ds) = NoColon d × NoColons ds

-- The value of PATH with these directories, and one last.
abbrev pub path_text : List Bytes → Bytes → Bytes
path_text [] last = last
path_text (d ∷ ds) last = d ++ b':' ∷ path_text ds last

-- An empty component at the end is not kept.
abbrev pub kept : Bytes → List Bytes
kept [] = []
kept (c ∷ cs) = (c ∷ cs) ∷ []

-- The words behind a component.
after : Bytes → WordList → WordList
after [] result = result
after (c ∷ cs) result = split_from (c ∷ cs) [] result

split_from-colon :
    (cs word : Bytes) (result : WordList)
    → split_from (b':' ∷ cs) word result ≡ after cs (wordlist_append result word)
unfolding split_from after
split_from-colon [] word result = refl
split_from-colon (c ∷ cs) word result = refl

split_from-other :
    (c : ℕ) (cs word : Bytes) (result : WordList)
    → c ≢ b':'
    → split_from (c ∷ cs) word result ≡ split_from cs (word ++ c ∷ []) result
unfolding split_from
split_from-other c [] word result h =
    let differs : (c == b':') ≡ false = ground arith in rw (split_from, differs) refl
split_from-other c (d ∷ cs) word result h =
    let differs : (c == b':') ≡ false = ground arith in rw (split_from, differs) refl

split_from-component :
    (d rest word : Bytes) (result : WordList)
    → NoColon d
    → split_from (d ++ rest) word result ≡ split_from rest (word ++ d) result
split_from-component [] rest word result h = rw (append-nil word) refl
split_from-component (c ∷ d) rest word result h =
    split_from-other c (d ++ rest) word result h.0
    ∙ split_from-component d rest (word ++ c ∷ []) result h.1
    ∙ ap (λ w. split_from rest w result) (append_assoc word (c ∷ []) d)

after-append :
    (d : Bytes) (c : ℕ) (cs : Bytes) (result : WordList)
    → after (d ++ c ∷ cs) result ≡ split_from (d ++ c ∷ cs) [] result
unfolding after
after-append [] c cs result = refl
after-append (x ∷ d) c cs result = refl

after-last :
    (last : Bytes) (result : WordList)
    → NoColon last
    → after last result ≡ copy_words (kept last) result
unfolding after copy_words split_from wordlist_append
after-last [] result h = refl
after-last (c ∷ cs) result h =
    ap (λ xs. split_from xs [] result) (sym (append-nil (c ∷ cs)))
    ∙ split_from-component (c ∷ cs) [] [] result h

after-path_text :
    (ds : List Bytes) (last : Bytes) (result : WordList)
    → NoColons ds
    → NoColon last
    → after (path_text ds last) result ≡ copy_words (ds ++ kept last) result
unfolding copy_words wordlist_append
after-path_text [] last result h k = after-last last result k
after-path_text (d ∷ ds) last result h k =
    after-append d b':' (path_text ds last) result
    ∙ split_from-component d (b':' ∷ path_text ds last) [] result h.0
    ∙ split_from-colon (path_text ds last) d result
    ∙ after-path_text ds last (wordlist_append result d) h.1 k

path_split-after : (text : Bytes) → path_split text ≡ after text wordlist_new_empty
unfolding path_split after
path_split-after [] = refl
path_split-after (c ∷ cs) = refl

-- Directories with no colon in them, joined by colons, are split into the same directories: the
-- list is the one that `wordlist_from_words` makes of them, but for an empty directory at the end,
-- which is lost.
pub path_split-path_text :
    (ds : List Bytes) (last : Bytes)
    → NoColons ds
    → NoColon last
    → path_split (path_text ds last) ≡ wordlist_from_words (ds ++ kept last)
unfolding wordlist_copyof
path_split-path_text ds last h k =
    path_split-after (path_text ds last)
    ∙ after-path_text ds last wordlist_new_empty h k
    ∙ wordlist_copyof-wordlist_from_words (record { size = 0; words = ds ++ kept last })

-- The file of this name in a directory; the empty one is the current directory.
abbrev pub file_in : Bytes → Bytes → Bytes
file_in [] name = b'.' ∷ b'/' ∷ name
file_in (c ∷ cs) name = (c ∷ cs) ++ b'/' ∷ name

path_join-file_in : (dir name : Bytes) → path_join dir name ≡ file_in dir name
unfolding path_join str_eq
path_join-file_in [] name = refl
path_join-file_in (c ∷ cs) name = refl

module _ (is_executable_file : Bytes → Bool) where
  abbrev pub NoneOf : List Bytes → Type 0
  NoneOf [] = Unit {0}
  NoneOf (p ∷ ps) = (is_executable_file p ≡ false) × NoneOf ps

  -- The first executable file among the candidates, or nothing where there is none.
  abbrev pub IsFirst : List Bytes → Option Bytes → Type 0
  IsFirst ps none = NoneOf ps
  IsFirst ps (some p) =
      (before : List Bytes) × (behind : List Bytes) × (ps ≡ before ++ p ∷ behind)
      × NoneOf before
      × (is_executable_file p ≡ true)

  IsFirst-later :
      (p : Bytes) (ps : List Bytes) (found : Option Bytes)
      → is_executable_file p ≡ false
      → IsFirst ps found
      → IsFirst (p ∷ ps) found
  IsFirst-later p ps none h k = (h, k)
  IsFirst-later p ps (some r) h (before, behind, e, not_before, runs) =
      (p ∷ before, behind, ap (◌∷◌ p) e, (h, not_before), runs)

  search_step :
      (d : Bytes) (ds : List Bytes) (command : Bytes)
      → search is_executable_file (d ∷ ds) command ≡ elim (is_executable_file (file_in d command)) [
        | true ↦ some (file_in d command)
        | false ↦ search is_executable_file ds command
      ]
  unfolding search
  search_step d ds command =
      ap
        (λ p. elim (is_executable_file p) [
          | true ↦ some p
          | false ↦ search is_executable_file ds command
        ])
        (path_join-file_in d command)

  search-IsFirst :
      (dirs : List Bytes) (command : Bytes)
      → IsFirst (map (λ d. file_in d command) dirs) (search is_executable_file dirs command)
  unfolding search
  search-IsFirst [] command = tt
  search-IsFirst (d ∷ ds) command = elim (Bool-cases (is_executable_file (file_in d command))) [
    | inl runs ↦
        rw (search_step d ds command, runs) ([], map (λ d. file_in d command) ds, refl, tt, runs)
    | inr not ↦
        rw (search_step d ds command, not)
          (IsFirst-later (file_in d command) (map (λ d. file_in d command) ds)
            (search is_executable_file ds command) not (search-IsFirst ds command))
  ]

  -- For a command with no slash, and a PATH of directories with no colon in them, the search gives
  -- the first executable file among DIRECTORY/command, in the order of the directories and with `.`
  -- for an empty one, and nothing only where there is none. An empty directory at the end of PATH
  -- is not searched.
  pub path_find_command-IsFirst :
      (ds : List Bytes) (last command : Bytes)
      → has_path_components command ≡ false
      → NoColons ds
      → NoColon last
      → IsFirst
          (map (λ d. file_in d command) (ds ++ kept last))
          (path_find_command is_executable_file (some (path_text ds last)) command)
  unfolding path_find_command path_get_dirs wordlist_from_words
  path_find_command-IsFirst ds last command bare h k =
      rw (path_find_command, bare, path_get_dirs, path_split-path_text ds last h k)
        (search-IsFirst (ds ++ kept last) command)
