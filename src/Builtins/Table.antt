-- ===== src/Builtins/Table.antt =====
-- src/builtins.c: the array `builtins` with its entries in order, `pstrcmp`, and `find_builtin` of
-- src/exec.c, which gives it to `bsearch` of <stdlib.h>. A function pointer is the enumerator of its
-- command in src/builtins.h.
use codecrafters_shell_c.Common.{
  true, false, ℕ, zero, suc, ◌+◌, ◌/◌, List, [], ◌∷◌, Option, none, some, length, ltb,
  if◌then◌else◌, get_elem?,
}
use codecrafters_shell_c.Common.Bytes.{Bytes, bytes}

pub data BuiltinE : Type 0 where
  cd complete declare echo exit history jobs pwd type : BuiltinE

pub record BuiltinCmd : Type 0 where
  pub name : Bytes
  pub builtin : BuiltinE

unfoldable pub builtins : List BuiltinCmd
builtins =
    record { name = bytes "cd"; builtin = cd }
    ∷ record { name = bytes "complete"; builtin = complete }
    ∷ record { name = bytes "declare"; builtin = declare }
    ∷ record { name = bytes "echo"; builtin = echo }
    ∷ record { name = bytes "exit"; builtin = exit }
    ∷ record { name = bytes "history"; builtin = history }
    ∷ record { name = bytes "jobs"; builtin = jobs }
    ∷ record { name = bytes "pwd"; builtin = pwd }
    ∷ record { name = bytes "type"; builtin = type }
    ∷ []

-- The sign of `strcmp`.
pub data Sign : Type 0 where
  negative null positive : Sign

unfoldable pub strcmp : Bytes → Bytes → Sign
strcmp [] [] = null
strcmp [] (b ∷ bs) = negative
strcmp (a ∷ as') [] = positive
strcmp (a ∷ as') (b ∷ bs) =
    let rest = strcmp as' bs in if ltb a b then negative else if ltb b a then positive else rest

unfoldable pub pstrcmp : Bytes → BuiltinCmd → Sign
unfolding strcmp
pstrcmp key cmd = strcmp key cmd.name

-- The search for a key from index `lo` on and below `hi`, by halves.
unfoldable pub bsearch : ℕ → Bytes → ℕ → ℕ → Option BuiltinCmd
unfolding pstrcmp builtins
bsearch zero key lo hi = none
bsearch (suc f) key lo hi =
    let mid = (lo + hi) / 2 in
    elim (ltb lo hi) [
      | false ↦ none
      | true ↦ elim (get_elem? builtins mid) [
        | none ↦ none
        | some cmd ↦ elim (pstrcmp key cmd) [
          | negative ↦ bsearch f key lo mid
          | null ↦ some cmd
          | positive ↦ bsearch f key (mid + 1) hi
        ]
      ]
    ]

-- Each round halves the entries that are left, so that there are at most as many rounds as entries.
unfoldable pub find_builtin : Bytes → Option BuiltinCmd
unfolding bsearch
find_builtin name = bsearch (length builtins) name 0 (length builtins)
