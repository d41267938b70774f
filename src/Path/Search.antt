-- ===== src/Path/Search.antt =====
-- src/path.c: the directories of PATH, and the search for a command in them. The test of a file is
-- a parameter: `stat` and `access` are calls of the system, and `path_is_executable_file` makes
-- nothing else. `getenv` is one too.
use codecrafters_shell_c.Common.{
  Bool, true, false, List, [], ◌∷◌, ◌++◌, ◌==◌, if◌then◌else◌, Option, none, some,
}
use codecrafters_shell_c.Common.Bytes.{Bytes, str_eq}
use codecrafters_shell_c.Path.Words.{WordList, wordlist_new_empty, wordlist_append}

unfoldable pub has_path_components : Bytes → Bool
has_path_components [] = false
has_path_components (c ∷ cs) = elim (c == b'/') [ true ↦ true | false ↦ has_path_components cs ]

-- The two loops of `path_split` from inside a component, of which `word` has been read. The outer
-- loop starts on a component only where there is text left.
unfoldable pub split_from : Bytes → Bytes → WordList → WordList
split_from [] word result = wordlist_append result word
split_from (c ∷ []) word result = elim (c == b':') [
  | true ↦ wordlist_append result word
  | false ↦ wordlist_append result (word ++ c ∷ [])
]
split_from (c ∷ d ∷ cs) word result = elim (c == b':') [
  | true ↦ split_from (d ∷ cs) [] (wordlist_append result word)
  | false ↦ split_from (d ∷ cs) (word ++ c ∷ []) result
]

unfoldable pub path_split : Bytes → WordList
unfolding split_from
path_split [] = wordlist_new_empty
path_split (c ∷ cs) = split_from (c ∷ cs) [] wordlist_new_empty

unfoldable pub path_join : Bytes → Bytes → Bytes
path_join dir name = (if str_eq dir [] then b'.' ∷ [] else dir) ++ b'/' ∷ name

-- `none` is the null pointer of a PATH that is not set.
unfoldable pub path_get_dirs : Option Bytes → WordList
unfolding path_split
path_get_dirs none = wordlist_new_empty
path_get_dirs (some path) = path_split path

module _ (is_executable_file : Bytes → Bool) where
  unfoldable pub search : List Bytes → Bytes → Option Bytes
  unfolding path_join
  search [] command = none
  search (dir ∷ dirs) command = elim (is_executable_file (path_join dir command)) [
    | true ↦ some (path_join dir command)
    | false ↦ search dirs command
  ]

  unfoldable pub path_find_command : Option Bytes → Bytes → Option Bytes
  unfolding search path_get_dirs has_path_components
  path_find_command path command = elim (has_path_components command) [
    | true ↦ if is_executable_file command then some command else none
    | false ↦ search (path_get_dirs path).words command
  ]
