-- ===== src/Completion/Paths.antt =====
-- src/completion.c: `path_generator`, which gives the programs of PATH one at a time. Directories
-- and files are parameters: `opendir` gives the names that `readdir` will give, or `none` for a null
-- pointer, and `is_program` is the test of `stat`'s result, of a regular file its owner may execute.
use codecrafters_shell_c.Common.{
  refl, ◌≡◌, arith, arith, ◌≡◌, ◌-◌, ℕ, Bool, true, false, ◌&&◌, ◌==◌, List, [], ◌∷◌, ◌++◌, Option,
  none, some, length, take, if◌then◌else◌,
}
use codecrafters_shell_c.Common.Bytes.{Bytes}
use codecrafters_shell_c.Hashtable.Table.{strn_eq}

abbrev pub path_max : ℕ
path_max = 4096

-- The tokens that `strtok` gives for the delimiter `:`: what stands between the colons, and is not
-- empty. `word` is what has been read of one.
unfoldable pub strtok_from : Bytes → Bytes → List Bytes
strtok_from [] [] = []
strtok_from [] (w ∷ ws) = (w ∷ ws) ∷ []
strtok_from (c ∷ cs) word =
    let here = strtok_from cs [] in
    let on = strtok_from cs (word ++ c ∷ []) in
    if c == b':' then elim word [ [] ↦ here | w ∷ ws ↦ (w ∷ ws) ∷ here ] else on

-- The static variables: `dir_token` and the tokens that `strtok` has left behind it, which are all
-- gone where it is null; what is left of `current_dir`, `none` for a null pointer; and `len`.
pub record PathWalk : Type 0 where
  pub dirs : List Bytes
  pub current_dir : Option (List Bytes)
  pub len : ℕ

-- Whether a name is the text and something behind it.
unfoldable pub begins_with : Bytes → Bytes → Bool
begins_with [] name = true
begins_with (t ∷ ts) [] = false
begins_with (t ∷ ts) (c ∷ name) = t == c && begins_with ts name

==-comm : (a b : ℕ) → (a == b) ≡ (b == a)
==-comm a b = ground arith

-- `strncmp` over the length of the text tests that.
pub strn_eq-begins_with :
    (text name : Bytes) → strn_eq name text (length text) ≡ begins_with text name
unfolding strn_eq begins_with
strn_eq-begins_with [] name = refl
strn_eq-begins_with (t ∷ ts) [] = refl
strn_eq-begins_with (t ∷ ts) (c ∷ name) = rw (==-comm c t, strn_eq-begins_with ts name) refl

-- What `readdir` gives of a directory, and nothing of one that does not open.
abbrev pub names_of : Option (List Bytes) → List Bytes
names_of none = []
names_of (some names) = names

module _ (opendir : Bytes → Option (List Bytes)) (is_program : Bytes → Bool) where
  -- What `snprintf` writes into `full_path`.
  unfoldable pub full_path : Bytes → Bytes → Bytes
  full_path dir name = take (path_max - 1) (dir ++ b'/' ∷ name)

  unfoldable pub is_match : ℕ → Bytes → Bytes → Bytes → Bool
  unfolding full_path strn_eq
  is_match len text dir name = strn_eq name text len && is_program (full_path dir name)

  -- The loop over the entries of a directory: a match, and the entries behind it.
  unfoldable pub read_entries : ℕ → Bytes → Bytes → List Bytes → Option Bytes × List Bytes
  unfolding is_match
  read_entries len text dir [] = (none, [])
  read_entries len text dir (name ∷ names) = elim (is_match len text dir name) [
    | true ↦ (some name, names)
    | false ↦ read_entries len text dir names
  ]

  -- `if (dir_token) current_dir = opendir(dir_token);` behind a null `current_dir`.
  unfoldable pub open_token : List Bytes → Option (List Bytes)
  open_token [] = none
  open_token (dir ∷ dirs) = opendir dir

  -- The loop over the tokens of PATH.
  unfoldable pub walk_dirs : ℕ → Bytes → List Bytes → Option (List Bytes) → Option Bytes × PathWalk
  unfolding read_entries open_token
  walk_dirs len text [] current = (none, record { dirs = []; current_dir = current; len = len })
  walk_dirs len text (dir ∷ dirs) none = walk_dirs len text dirs (open_token dirs)
  walk_dirs len text (dir ∷ dirs) (some names) =
      let (entry, rest) = read_entries len text dir names in
      elim entry [
        | none ↦ walk_dirs len text dirs (open_token dirs)
        | some name ↦ (some name, record { dirs = dir ∷ dirs; current_dir = some rest; len = len })
      ]

  -- `path` is the value of PATH, and `state` is 0 at the first call for a text.
  unfoldable pub path_generator : Option Bytes → Bytes → ℕ → PathWalk → Option Bytes × PathWalk
  unfolding walk_dirs strtok_from
  path_generator path text state s =
      if state == 0
      then elim path [
        | none ↦ (none, record s { current_dir = none })
        | some p ↦
            let dirs = strtok_from p [] in walk_dirs (length text) text dirs (open_token dirs)
      ]
      else walk_dirs s.len text s.dirs s.current_dir

  -- Independently of the walk: the programs of a directory that begin with the text, and of all. The
  -- test is of DIRECTORY/name, of which 4095 bytes are kept.
  unfoldable pub programs_in : Bytes → Bytes → List Bytes → List Bytes
  unfolding begins_with
  programs_in text dir [] = []
  programs_in text dir (name ∷ names) =
      if begins_with text name && is_program (take 4095 (dir ++ b'/' ∷ name))
      then name ∷ programs_in text dir names
      else programs_in text dir names

  unfoldable pub programs : Bytes → List Bytes → List Bytes
  unfolding programs_in
  programs text [] = []
  programs text (dir ∷ dirs) = programs_in text dir (names_of (opendir dir)) ++ programs text dirs
