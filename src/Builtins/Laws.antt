-- ===== src/Builtins/Laws.antt =====
-- src/builtins.c: which names are valid, what `declare` keeps and prints, and what `complete` answers.
use codecrafters_shell_c.Common.{
  suc, ◌≤◌, ℕ, ◌*◌, ◌<◌, ◌≡◌, ◌≢◌, ◌↔◌, ◌⊎◌, refl, sym, ap, ◌∙◌, true, false, [], ◌∷◌, ◌++◌, ◌==◌,
  ◌||◌, length, some, inl, inr, Bool-cases, arith,
}
use codecrafters_shell_c.Common.Bytes.{Bytes, bytes, str_eq, isdigit}
use codecrafters_shell_c.Common.Outcome.{ok, fault}
use codecrafters_shell_c.Hashtable.Table.{ht_contains, is_some, strn_eq}
use codecrafters_shell_c.Hashtable.Lookup.{ht_get-ht_put}
use codecrafters_shell_c.Completion.Registry.{max_completions, register_completion}
use codecrafters_shell_c.Completion.Laws.{register_completion_lem}
use codecrafters_shell_c.Vars.Laws.{NoEquals, split_at_equals-some, split_at_equals-none}
use codecrafters_shell_c.Builtins.Names.{
  isalpha, isalnum, valid_variable_start, valid_rest, valid_variable_name,
}
use codecrafters_shell_c.Builtins.Commands.{
  Shell, minus_one, fprintf_out, fprintf_err, table_of, declare_variable, print_variable,
  builtin_declare, builtin_complete, complete_print, complete_register,
}

-- The letters, digits and underscore of a name.
abbrev pub IsLetter : ℕ → Type 0
IsLetter c = ((b'A' ≤ c) × (c ≤ b'Z')) ⊎ (((b'a' ≤ c) × (c ≤ b'z')) ⊎ (c ≡ b'_'))

abbrev pub IsWordChar : ℕ → Type 0
IsWordChar c = IsLetter c ⊎ ((b'0' ≤ c) × (c ≤ b'9'))

abbrev pub AllWordChars : Bytes → Type 0
AllWordChars [] = Unit {0}
AllWordChars (c ∷ cs) = IsWordChar c × AllWordChars cs

-- What POSIX calls a name.
abbrev pub IsName : Bytes → Type 0
IsName [] = ⊥
IsName (c ∷ cs) = IsLetter c × AllWordChars cs

start_iff : (c : ℕ) → ((isalpha c || c == b'_') ≡ true) ↔ IsLetter c
unfolding isalpha
start_iff c = ground arith

word_iff : (c : ℕ) → ((isalnum c || c == b'_') ≡ true) ↔ IsWordChar c
unfolding isalnum isalpha isdigit
word_iff c = ground arith

rest_iff : (cs : Bytes) → (valid_rest cs ≡ true) ↔ AllWordChars cs
unfolding valid_rest
rest_iff [] = (λ _. tt, λ _. refl)
rest_iff (c ∷ cs) = elim (Bool-cases (isalnum c || c == b'_')) [
  | inl passes ↦
      rw (valid_rest, passes)
        (λ h. ((word_iff c).0 passes, (rest_iff cs).0 h), λ h. (rest_iff cs).1 h.1)
  | inr fails ↦
      rw (valid_rest, fails) (λ h. absurd cc, λ h. absurd (apart (sym fails ∙ (word_iff c).1 h.0)))
]
  where
    apart : false ≡ true → ⊥
    apart e = cc

-- A name is valid where it is a name in the sense of POSIX: letters, digits and underscores, of which
-- the first is not a digit.
pub valid_variable_name-IsName : (name : Bytes) → (valid_variable_name name ≡ true) ↔ IsName name
unfolding valid_variable_name valid_variable_start
valid_variable_name-IsName [] = (λ h. absurd cc, λ h. absurd h)
valid_variable_name-IsName (c ∷ cs) = elim (Bool-cases (isalpha c || c == b'_')) [
  | inl passes ↦
      rw (valid_variable_name, valid_variable_start, passes)
        (λ h. ((start_iff c).0 passes, (rest_iff cs).0 h), λ h. (rest_iff cs).1 h.1)
  | inr fails ↦
      rw (valid_variable_name, valid_variable_start, fails)
        (λ h. absurd cc, λ h. absurd (apart (sym fails ∙ (start_iff c).1 h.0)))
]
  where
    apart : false ≡ true → ⊥
    apart e = cc

AllWordChars-NoEquals : (cs : Bytes) → AllWordChars cs → NoEquals cs
AllWordChars-NoEquals [] h = tt
AllWordChars-NoEquals (c ∷ cs) (h, hs) = (ground (arith, h), AllWordChars-NoEquals cs hs)

IsName-NoEquals : (name : Bytes) → IsName name → NoEquals name
IsName-NoEquals [] h = absurd h
IsName-NoEquals (c ∷ cs) (h, hs) = (ground (arith, h), AllWordChars-NoEquals cs hs)

-- Where the table that `declare` works on has room, `declare NAME=VALUE` of a valid name succeeds and
-- prints nothing, and `declare -p NAME` then prints the declaration.
pub builtin_declare-print :
    (sh : Shell) (name value : Bytes)
    → IsName name
    → length (table_of sh.variable_table).buckets ≡ (table_of sh.variable_table).capacity
    → 4 * (table_of sh.variable_table).size < 3 * (table_of sh.variable_table).capacity
    → (sh' : Shell) × (builtin_declare (bytes "declare" ∷ (name ++ b'=' ∷ value) ∷ []) sh
        ≡ ok (0, sh'))
      × (sh'.out ≡ sh.out)
      × (sh'.err ≡ sh.err)
      × (builtin_declare (bytes "declare" ∷ bytes "-p" ∷ name ∷ []) sh'
          ≡ ok (
            0,
            fprintf_out sh' (bytes "declare -- " ++ name ++ bytes "=\"" ++ value ++ bytes "\"\n"),
          ))
unfolding builtin_declare declare_variable print_variable strn_eq table_of ht_contains is_some
builtin_declare-print sh name value valid sized room =
    let (t', put, got, _) =
      ht_get-ht_put (table_of sh.variable_table) name value false sized room in
    let cut = split_at_equals-some name value (IsName-NoEquals name valid) in
    let good = (valid_variable_name-IsName name).1 valid in
    (
      record sh { variable_table = some t' },
      rw (builtin_declare, cut, good, put) refl,
      refl,
      refl,
      rw got refl,
    )

-- `declare` of any text that has no `=` in it reads memory that is freed. Of a text that has one,
-- where what stands before it is not a name, it fails and changes nothing but for the message.
pub builtin_declare-refused :
    (sh : Shell) (text name value : Bytes)
    → NoEquals text
    → NoEquals name
    → ¬ IsName name
    → (builtin_declare (bytes "declare" ∷ text ∷ []) sh ≡ fault)
      × (builtin_declare (bytes "declare" ∷ (name ++ b'=' ∷ value) ∷ []) sh
          ≡ ok (
            minus_one,
            fprintf_err sh (
                bytes "declare: `"
                ++ name
                ++ bytes "="
                ++ value
                ++ bytes "': not a valid identifier\n"),
          ))
unfolding builtin_declare declare_variable
builtin_declare-refused sh text name value plain clean invalid =
    let cut = split_at_equals-some name value clean in
    let uncut = split_at_equals-none text plain in
    let bad : valid_variable_name name ≡ false = elim (Bool-cases (valid_variable_name name)) [
      | inl passes ↦ absurd (invalid ((valid_variable_name-IsName name).0 passes))
      | inr fails ↦ fails
    ] in
    (rw (builtin_declare, uncut) refl, rw (builtin_declare, cut, bad) refl)

longer : (c : Bytes) → c ≢ 0 ∷ c
longer c e = absurd (apart (length c) (ap length e))
  where
    apart : (n : ℕ) → n ≡ suc n → ⊥
    apart n h = omega arith

-- Where the registry has room, `complete -C SCRIPT COMMAND` succeeds, and `complete -p COMMAND` then
-- prints the script.
pub builtin_complete-print :
    (sh : Shell) (script command : Bytes)
    → length sh.completion_registry < max_completions
    → (sh' : Shell) × (builtin_complete (bytes "complete" ∷ bytes "-C" ∷ script ∷ command ∷ []) sh
        ≡ (0, sh'))
      × (builtin_complete (bytes "complete" ∷ bytes "-p" ∷ command ∷ []) sh' ≡ (
        0,
        fprintf_out sh' (bytes "complete -C '" ++ script ++ bytes "' " ++ command ++ bytes "\n"),
      ))
unfolding builtin_complete complete_print complete_register str_eq
builtin_complete-print sh script command room =
    let (found, _, _) =
      register_completion_lem sh.completion_registry command script (0 ∷ command) room
        (longer command) in
    (
      record sh { completion_registry = register_completion sh.completion_registry command script },
      refl,
      rw (builtin_complete, complete_print, found) refl,
    )
