-- ===== src/Expand/Strings.antt =====
-- src/expand.c: `expand_string` and `expand_home`, which nothing calls. A `StringBuilder` is the text
-- that it holds; `home` is what `getenv` gives for HOME.
use codecrafters_shell_c.Common.{
  ℕ, zero, suc, ◌+◌, true, false, ◌==◌, [], ◌∷◌, ◌++◌, Option, none, some, length, take,
}
use codecrafters_shell_c.Common.Bytes.{Bytes}
use codecrafters_shell_c.Common.Outcome.{Outcome, ok, fault, out_of_fuel, ◌>>=◌}
use codecrafters_shell_c.Lexer.Stream.{backslash}
use codecrafters_shell_c.StringBuilder.Buffer.{write_at, write_all, find_nul}
use codecrafters_shell_c.Vars.Store.{Vars, var_lookup}
use codecrafters_shell_c.Expand.Word.{until}

module _ (vars : Vars) where
  -- The loop over the beginnings of a text, of `n` bytes: once the whole text is no variable's name it
  -- goes on with the whole text for ever.
  unfoldable pub prefix_loop : ℕ → ℕ → Bytes → Outcome Bytes
  prefix_loop zero n text = out_of_fuel
  prefix_loop (suc f) n text = do
    result ← var_lookup vars (take n text)
    elim result.0 [ some value ↦ ok value | none ↦ prefix_loop f (n + 1) text ]

  -- What is appended for a `$`: the name begins with the `$`. A null pointer is given to `sb_appends`.
  unfoldable pub string_variable : Bytes → Outcome Bytes
  unfolding prefix_loop until
  string_variable (c ∷ d ∷ cs) = elim (d == b'{') [
    | true ↦ do
      result ← var_lookup vars (c ∷ (until b'}' (d ∷ cs)).0)
      elim result.0 [ none ↦ fault | some value ↦ ok value ]
    | false ↦ prefix_loop (suc (length (c ∷ d ∷ cs))) 1 (c ∷ d ∷ cs)
  ]
  string_variable text = prefix_loop (suc (length text)) 1 text

  unfoldable pub string_loop : Bytes → Bytes → Outcome Bytes
  unfolding string_variable
  string_loop [] sb = ok sb
  string_loop (c ∷ []) sb = elim (c == backslash) [
    | true ↦ ok sb
    | false ↦ elim (c == b'$') [
      | true ↦ do value ← string_variable (c ∷ []); ok (sb ++ value)
      | false ↦ ok (sb ++ c ∷ [])
    ]
  ]
  string_loop (c ∷ d ∷ cs) sb = elim (c == backslash) [
    | true ↦ elim (d == b'$') [ true ↦ string_loop cs sb | false ↦ string_loop (d ∷ cs) sb ]
    | false ↦ elim (c == b'$') [
      | true ↦ do value ← string_variable (c ∷ d ∷ cs); string_loop (d ∷ cs) (sb ++ value)
      | false ↦ string_loop (d ∷ cs) (sb ++ c ∷ [])
    ]
  ]

  unfoldable pub expand_string : Bytes → Outcome Bytes
  unfolding string_loop
  expand_string src = string_loop src []

-- `buf` is a block of memory. `strncat` goes to the first NUL behind the slash before it appends.
unfoldable pub expand_home : Bytes → Option Bytes → Bytes → Outcome Bytes
unfolding write_all write_at find_nul
expand_home buf none path = fault
expand_home buf (some homepath) [] = fault
expand_home buf (some homepath) (c ∷ path) = do
  moved ← write_all buf 0 homepath
  slashed ← write_at moved (length homepath) b'/'
  end ← find_nul slashed (length homepath + 1) 0
  write_all slashed end (path ++ 0 ∷ [])
