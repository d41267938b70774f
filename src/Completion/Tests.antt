-- ===== src/Completion/Tests.antt =====
-- src/completion.c: the theorem at a registry of two entries.
use codecrafters_shell_c.Common.{List, ◌++◌, ◌∷◌, Option, Bool, not, true, if◌then◌else◌}
use codecrafters_shell_c.Common.Bytes.{Bytes}
use codecrafters_shell_c.Completion.Paths.{begins_with, strtok_from, programs_in, programs}
use codecrafters_shell_c.Completion.Offers.{Calls}
use codecrafters_shell_c.Completion.FirstWord.{
  FirstWord, first_word_generator, commands_in, first_word_generator-Calls,
}
use codecrafters_shell_c.Completion.Complete.{
  text_of, AreLines, until_nul, external_completer, scripted, is_relative,
  shell_completion_function, fgets_from, External, give, copied, script_of, run_completer,
  external_completer_generator, external_completer_generator-Calls,
}
use codecrafters_shell_c.Common.{◌≡◌, refl, [], ◌∷◌, some, arith}
use codecrafters_shell_c.Common.Bytes.{bytes, str_eq}
use codecrafters_shell_c.Common.{◌≡◌, refl, some, none, []}
use codecrafters_shell_c.Common.Bytes.{bytes}
use codecrafters_shell_c.Common.Outcome.{ok, out_of_fuel}
use codecrafters_shell_c.Hashtable.Table.{strn_eq}
use codecrafters_shell_c.Builtins.Table.{builtins}
use codecrafters_shell_c.Completion.Words.{
  skipws, word_end, get_previous_word, previous_loop, get_command_word, find_current_word,
  current_loop, builtin_generator, generator_loop,
}
use codecrafters_shell_c.Completion.Registry.{Registry, lookup_completion}

abbrev two_entries : Registry
two_entries =
    record { command = bytes "git"; script_path = bytes "/g" }
    ∷ record { command = bytes "ls"; script_path = bytes "/l" }
    ∷ []

previous_word : get_previous_word (some (bytes " git add f")) 1 ≡ ok (some (bytes "add"))
unfolding get_previous_word previous_loop skipws word_end
previous_word = refl

command_word : get_command_word (some (bytes "  git add")) ≡ some (bytes "git")
unfolding get_command_word skipws word_end
command_word = refl

-- A text that no word of the line begins with is looked for without an end.
no_such_word : find_current_word (some (bytes "git add")) (bytes "x") ≡ out_of_fuel
unfolding find_current_word current_loop skipws word_end strn_eq
no_such_word = refl

-- The last built-in command is not compared with the text.
never_type : builtin_generator (bytes "ty") 0 0 ≡ ok (none, 9)
unfolding builtin_generator generator_loop builtins strn_eq
never_type = refl

next_match : builtin_generator (bytes "e") 1 4 ≡ ok (some (bytes "exit"), 5)
unfolding builtin_generator generator_loop builtins strn_eq
next_match = refl

-- Two directories that open and one that does not; the files are the programs but for `notes`.
opendir : Bytes → Option (List Bytes)
unfolding str_eq
opendir dir =
    if str_eq dir (bytes "/bin")
    then some (bytes "echo" ∷ bytes "notes" ∷ bytes "env" ∷ [])
    else if str_eq dir (bytes "/b")
    then some (bytes "ed" ∷ [])
    else none

is_program : Bytes → Bool
unfolding str_eq
is_program path = not (str_eq path (bytes "/bin/notes"))

abbrev idle : FirstWord
idle = record {
  phase = 1;
  list_index = 3;
  walk = record { dirs = []; current_dir = none; len = 7 };
}

-- The built-in commands `echo` and `exit`, and the programs.
first_words :
    commands_in (bytes "e") builtins
      ++ programs opendir is_program (bytes "e") (strtok_from (bytes "/bin::/no:/b") [])
    ≡ bytes "echo" ∷ bytes "exit" ∷ bytes "echo" ∷ bytes "env" ∷ bytes "ed" ∷ []
unfolding commands_in builtins begins_with programs programs_in strtok_from opendir is_program
    str_eq
first_words = refl

first_word_generator-Calls_example :
    Calls
      (first_word_generator opendir is_program (some (bytes "/bin::/no:/b")) (bytes "e"))
      0
      idle
      (commands_in (bytes "e") builtins
        ++ programs opendir is_program (bytes "e") (strtok_from (bytes "/bin::/no:/b") []))
first_word_generator-Calls_example =
    first_word_generator-Calls opendir is_program (bytes "/bin::/no:/b") (bytes "e") idle

run_script : Bytes → Bytes → Option Bytes → Bytes → Option Bytes
run_script script cmd current prev = some (text_of (bytes "fetch" ∷ bytes "fsck" ∷ []))

abbrev nothing_yet : External
nothing_yet = record { completions = none; cmp_idx = 0; cmp_len = 0 }

two_lines : AreLines (bytes "fetch" ∷ bytes "fsck" ∷ [])
two_lines = (
  (
    omega arith,
    omega arith,
    (
      omega arith,
      omega arith,
      (omega arith, omega arith, (omega arith, omega arith, (omega arith, omega arith, tt))),
    ),
  ),
  omega arith,
  (
    (
      omega arith,
      omega arith,
      (omega arith, omega arith, (omega arith, omega arith, (omega arith, omega arith, tt))),
    ),
    omega arith,
    tt,
  ),
)

external_completer_generator-Calls_example :
    Calls
      (external_completer_generator run_script two_entries (some (bytes "git f")) (bytes "f"))
      0
      nothing_yet
      (bytes "fetch" ∷ bytes "fsck" ∷ [])
unfolding get_command_word skipws word_end str_eq find_current_word current_loop strn_eq
    get_previous_word previous_loop run_script lookup_completion
external_completer_generator-Calls_example =
    external_completer_generator-Calls run_script two_entries (some (bytes "git f")) (bytes "f")
      nothing_yet (bytes "git") (bytes "/g") (bytes "f") (some (bytes "git"))
      (bytes "fetch" ∷ bytes "fsck" ∷ []) refl refl (omega arith) refl refl refl (omega arith) refl
      two_lines

-- A completion that was left in the middle goes on at its index with the next one's words.
left_in_the_middle :
    external_completer_generator run_script two_entries
      (some (bytes "git f"))
      (bytes "f")
      0
      (record { completions = some (bytes "a" ∷ bytes "b" ∷ []); cmp_idx = 1; cmp_len = 2 })
    ≡ ok (
      some (bytes "fsck"),
      record { completions = some (bytes "fetch" ∷ bytes "fsck" ∷ []); cmp_idx = 2; cmp_len = 2 },
    )
unfolding external_completer_generator run_completer copied script_of give fgets_from
    get_command_word skipws word_end str_eq find_current_word current_loop strn_eq get_previous_word
    previous_loop run_script lookup_completion until_nul
left_in_the_middle = refl

-- Behind a command word with a script, readline is given the external completer.
scripted_word :
    shell_completion_function two_entries (some (bytes "git f")) 4 ≡ (external_completer, true)
unfolding shell_completion_function is_relative scripted strn_eq get_command_word skipws word_end
    lookup_completion str_eq
scripted_word = refl
