-- ===== src/Builtins/Tests.antt =====
-- src/builtins.c on short command lines, and the theorems about it at such lines.
use codecrafters_shell_c.Common.{true, false, none, ◌-◌, take, ◌++◌, arith}
use codecrafters_shell_c.Common.Bytes.{Bytes, isdigit}
use codecrafters_shell_c.StringBuilder.Buffer.{digits, digits_from, filled}
use codecrafters_shell_c.Builtins.History.{
  History, appends, strtol_any, strtol_digits, digit_value, numbered, print_entries, display,
  history_number, begins_with_digit, builtin_history,
}
use codecrafters_shell_c.Builtins.Listed.{builtin_history-last, builtin_history-append}
use codecrafters_shell_c.Common.{◌≡◌, ◌↔◌, refl, true, [], ◌∷◌, none, some, inl, inr, arith}
use codecrafters_shell_c.Common.Bytes.{bytes}
use codecrafters_shell_c.Common.Outcome.{ok, fault}
use codecrafters_shell_c.Builtins.Table.{echo, find_builtin, bsearch, builtins, pstrcmp, strcmp}
use codecrafters_shell_c.Builtins.Names.{valid_variable_name}
use codecrafters_shell_c.Builtins.Commands.{
  Shell, minus_one, fprintf_out, fprintf_err, table_of, builtin_declare, builtin_echo, echo_loop,
}
use codecrafters_shell_c.Builtins.Search.{name_of, find_builtin-name_of}
use codecrafters_shell_c.Builtins.Laws.{
  IsName, valid_variable_name-IsName, builtin_declare-print, builtin_declare-refused,
}

abbrev new_shell : Shell
new_shell = record { variable_table = none; completion_registry = []; out = []; err = [] }

find_builtin-name_of_example :
    (find_builtin (bytes "echo") ≡ some (record { name = name_of echo; builtin = echo }))
    ↔ (bytes "echo" ≡ name_of echo)
find_builtin-name_of_example = find_builtin-name_of (bytes "echo") echo

not_found : find_builtin (bytes "ls") ≡ none
unfolding find_builtin bsearch builtins pstrcmp strcmp
not_found = refl

echo_words :
    builtin_echo (bytes "echo" ∷ bytes "a" ∷ bytes "b" ∷ []) new_shell
    ≡ (0, fprintf_out new_shell (bytes "a b\n"))
unfolding builtin_echo echo_loop fprintf_out
echo_words = refl

-- Without a word, not even the end of the line is printed.
echo_nothing : builtin_echo (bytes "echo" ∷ []) new_shell ≡ (0, new_shell)
unfolding builtin_echo echo_loop fprintf_out
echo_nothing = refl

valid_variable_name-IsName_example :
    (valid_variable_name (bytes "_a1") ≡ true) ↔ IsName (bytes "_a1")
valid_variable_name-IsName_example = valid_variable_name-IsName (bytes "_a1")

builtin_declare-print_example :
    (sh' : Shell) × (builtin_declare (bytes "declare" ∷ bytes "A=x y" ∷ []) new_shell ≡ ok (0, sh'))
    × (sh'.out ≡ [])
    × (sh'.err ≡ [])
    × (builtin_declare (bytes "declare" ∷ bytes "-p" ∷ bytes "A" ∷ []) sh'
        ≡ ok (0, fprintf_out sh' (bytes "declare -- A=\"x y\"\n")))
unfolding table_of
builtin_declare-print_example =
    builtin_declare-print new_shell (bytes "A") (bytes "x y") (inl (omega arith, omega arith), tt)
      refl (omega arith)

digit_first : ¬ IsName (bytes "1a")
digit_first (inl h, _) = absurd (omega (arith, h))
digit_first (inr (inl h), _) = absurd (omega (arith, h))
digit_first (inr (inr h), _) = absurd (omega (arith, h))

builtin_declare-refused_example :
    (builtin_declare (bytes "declare" ∷ bytes "FOO" ∷ []) new_shell ≡ fault)
    × (builtin_declare (bytes "declare" ∷ bytes "1a=b" ∷ []) new_shell
        ≡ ok (minus_one, fprintf_err new_shell (bytes "declare: `1a=b': not a valid identifier\n")))
builtin_declare-refused_example =
    builtin_declare-refused new_shell (bytes "FOO") (bytes "1a") (bytes "b")
      (omega arith, (omega arith, (omega arith, tt))) (omega arith, (omega arith, tt)) digit_first

abbrev three_lines : History
three_lines = record {
  entries = bytes "ls" ∷ bytes "cd /" ∷ bytes "history 2" ∷ [];
  entries_appended = 1;
  calls = [];
  out = [];
  err = [];
}

builtin_history-last_example :
    (listing : Bytes) × (builtin_history
        (λ f. none)
        (λ f ls. false)
        (λ f ls. true)
        (bytes "history" ∷ bytes "2" ∷ [])
        three_lines
      ≡ ok (0, record three_lines { out = listing }))
    × (builtin_history (λ f. none) (λ f ls. false) (λ f ls. true) (bytes "history" ∷ []) three_lines
        ≡ ok (
          0,
          record three_lines {
            out =
                print_entries 1 (take (3 - strtol_any (bytes "2")) three_lines.entries) ++ listing;
          },
        ))
unfolding begins_with_digit strtol_any isdigit
builtin_history-last_example =
    builtin_history-last (λ f. none) (λ f ls. false) (λ f ls. true) (bytes "history") (bytes "2")
      three_lines refl (omega arith) (omega arith)

builtin_history-append_example :
    (h' h'' : History) × (builtin_history
        (λ f. none)
        (λ f ls. false)
        (λ f ls. true)
        (bytes "history" ∷ bytes "-a" ∷ bytes "log" ∷ [])
        three_lines
      ≡ ok (0, h'))
    × (builtin_history
          (λ f. none)
          (λ f ls. false)
          (λ f ls. true)
          (bytes "history" ∷ bytes "-a" ∷ bytes "log" ∷ [])
          (record h' { entries = h'.entries ++ bytes "exit" ∷ [] })
        ≡ ok (0, h''))
    × (h''.entries ≡ three_lines.entries ++ bytes "exit" ∷ [])
    × (h''.calls
        ≡ appends (bytes "log") (bytes "cd /" ∷ bytes "history 2" ∷ [])
          ∷ appends (bytes "log") (bytes "exit" ∷ [])
          ∷ [])
builtin_history-append_example =
    builtin_history-append (λ f. none) (λ f ls. false) (λ f ls. true) (bytes "history")
      (bytes "log") three_lines (bytes "exit" ∷ []) (omega arith) (λ ls. refl)

-- The listing, and a number that is read in base 8.
listed :
    builtin_history
      (λ f. none)
      (λ f ls. false)
      (λ f ls. true)
      (bytes "history" ∷ bytes "02" ∷ [])
      three_lines
    ≡ ok (0, record three_lines { out = bytes "\t2  cd /\n\t3  history 2\n" })
unfolding builtin_history begins_with_digit history_number strtol_any strtol_digits digit_value
    isdigit display print_entries numbered digits digits_from filled
listed = refl
