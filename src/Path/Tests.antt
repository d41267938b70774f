-- ===== src/Path/Tests.antt =====
-- src/path.c on small values of PATH, and the theorems at them.
use codecrafters_shell_c.Common.{◌≡◌, refl, Bool, false, List, [], ◌∷◌, ◌++◌, map, some, arith}
use codecrafters_shell_c.Common.Bytes.{Bytes, bytes, str_eq}
use codecrafters_shell_c.Path.Words.{
  WordList, wordlist_from_words, wordlist_append, wordlist_append_word, wordlist_new_empty,
}
use codecrafters_shell_c.Path.Search.{
  has_path_components, path_split, split_from, path_find_command,
}
use codecrafters_shell_c.Path.Laws.{
  path_text, kept, file_in, IsFirst, path_split-path_text, path_find_command-IsFirst,
}

abbrev dirs : List Bytes
dirs = bytes "/bin" ∷ bytes "" ∷ []

-- A colon at the end adds no directory.
trailing_colon :
    path_split (bytes "/a::/b:")
    ≡ record { size = 3; words = bytes "/a" ∷ bytes "" ∷ bytes "/b" ∷ [] }
unfolding path_split split_from wordlist_append wordlist_append_word wordlist_new_empty
trailing_colon = refl

path_split-path_text_example :
    path_split (path_text dirs (bytes "/b")) ≡ wordlist_from_words (dirs ++ kept (bytes "/b"))
path_split-path_text_example =
    path_split-path_text dirs (bytes "/b")
      ((omega arith, (omega arith, (omega arith, (omega arith, tt)))), (tt, tt))
      (omega arith, (omega arith, tt))

-- The only executable file.
abbrev is_ls : Bytes → Bool
is_ls path = str_eq path (bytes "./ls")

ls-bare : has_path_components (bytes "ls") ≡ false
unfolding has_path_components
ls-bare = refl

path_find_command-IsFirst_example :
    IsFirst is_ls
      (map (λ d. file_in d (bytes "ls")) (dirs ++ kept (bytes "/b")))
      (path_find_command is_ls (some (path_text dirs (bytes "/b"))) (bytes "ls"))
path_find_command-IsFirst_example =
    path_find_command-IsFirst is_ls dirs (bytes "/b") (bytes "ls") ls-bare
      ((omega arith, (omega arith, (omega arith, (omega arith, tt)))), (tt, tt))
      (omega arith, (omega arith, tt))

abbrev miscounted : WordList
miscounted = record { size = 7; words = dirs }
