-- ===== src/Builtins/Names.antt =====
-- src/builtins.c: `valid_variable_start` and `valid_variable_name`, with the classes of characters of
-- <ctype.h> in the C locale.
use codecrafters_shell_c.Common.{ℕ, Bool, true, false, [], ◌∷◌, ◌==◌, leb, ◌&&◌, ◌||◌}
use codecrafters_shell_c.Common.Bytes.{Bytes, isdigit}

unfoldable pub isalpha : ℕ → Bool
isalpha c = (leb 65 c && leb c 90) || (leb 97 c && leb c 122)

unfoldable pub isalnum : ℕ → Bool
unfolding isalpha isdigit
isalnum c = isalpha c || isdigit c

-- Of an empty name the closing NUL is read.
unfoldable pub valid_variable_start : Bytes → Bool
unfolding isalpha
valid_variable_start [] = false
valid_variable_start (c ∷ cs) = isalpha c || c == b'_'

unfoldable pub valid_rest : Bytes → Bool
unfolding isalnum
valid_rest [] = true
valid_rest (c ∷ cs) = elim (isalnum c || c == b'_') [ true ↦ valid_rest cs | false ↦ false ]

unfoldable pub valid_variable_name : Bytes → Bool
unfolding valid_variable_start valid_rest
valid_variable_name [] = false
valid_variable_name (c ∷ cs) = elim (valid_variable_start (c ∷ cs)) [
  | true ↦ valid_rest cs
  | false ↦ false
]
