-- ===== src/Completion/Words.antt =====
-- src/completion.c: the words of the line that is edited, and the generator of built-in commands. A
-- pointer into `rl_line_buffer`, which is `none` for a null pointer, is the text from there on.
use codecrafters_shell_c.Common.{
  ℕ, zero, suc, true, false, [], ◌∷◌, ◌==◌, Option, none, some, length, get_elem?, if◌then◌else◌,
}
use codecrafters_shell_c.Common.Bytes.{Bytes}
use codecrafters_shell_c.Common.Outcome.{Outcome, ok, fault, out_of_fuel, ◌>>=◌}
use codecrafters_shell_c.Hashtable.Table.{strn_eq}
use codecrafters_shell_c.Builtins.Table.{builtins}

unfoldable pub skipws : Bytes → Bytes
skipws [] = []
skipws (c ∷ cs) = elim (c == b' ') [ true ↦ skipws cs | false ↦ c ∷ cs ]

-- The text before the next space, and the text from there on.
unfoldable pub word_end : Bytes → Bytes × Bytes
word_end [] = ([], [])
word_end (c ∷ cs) = elim (c == b' ') [
  | true ↦ ([], c ∷ cs)
  | false ↦ let (word, rest) = word_end cs in (c ∷ word, rest)
]

-- The loop ends at a place where the text begins; at the end of the line it stays where it is.
unfoldable pub current_loop : ℕ → Bytes → Bytes → Outcome Bytes
unfolding skipws word_end strn_eq
current_loop zero p text = out_of_fuel
current_loop (suc f) p text = elim (strn_eq p text (length text)) [
  | true ↦ ok p
  | false ↦ current_loop f (skipws (word_end p).1) text
]

unfoldable pub find_current_word : Option Bytes → Bytes → Outcome (Option Bytes)
unfolding current_loop
find_current_word none text = ok none
find_current_word (some line) text = do
  p ← current_loop (suc (length line)) (skipws line) text
  ok (some p)

-- Where no space stands behind the word there is no next one.
unfoldable pub goto_next_word : Bytes → Option Bytes
unfolding skipws word_end
goto_next_word [] = none
goto_next_word (d ∷ ds) =
    let (word, rest) = word_end (skipws (d ∷ ds)) in
    elim word [ [] ↦ none | _ ↦ elim rest [ [] ↦ none | c ∷ cs ↦ some (skipws (c ∷ cs)) ] ]

-- `current` is the length of the line from the current word on, and `prev` the word before `p`.
unfoldable pub previous_loop : ℕ → Bytes → ℕ → Bytes → Outcome Bytes
unfolding skipws word_end
previous_loop zero p current prev = out_of_fuel
previous_loop (suc f) p current prev = elim (length p == current) [
  | true ↦ ok prev
  | false ↦ previous_loop f (skipws (word_end p).1) current (word_end p).0
]

unfoldable pub get_previous_word : Option Bytes → ℕ → Outcome (Option Bytes)
unfolding previous_loop
get_previous_word none current = ok none
get_previous_word (some line) current = elim (length (skipws line) == current) [
  | true ↦ ok none
  | false ↦ do prev ← previous_loop (suc (length line)) (skipws line) current []; ok (some prev)
]

unfoldable pub get_command_word : Option Bytes → Option Bytes
unfolding skipws word_end
get_command_word none = none
get_command_word (some line) = elim (word_end (skipws line)).0 [
  | [] ↦ none
  | c ∷ cs ↦ some (c ∷ cs)
]

-- The match for the text from the index on, and the index to go on from; the index is stepped on
-- before it is compared with the number of commands.
unfoldable pub generator_loop : ℕ → ℕ → Bytes → Outcome (Option Bytes × ℕ)
unfolding builtins strn_eq
generator_loop zero list_index text = out_of_fuel
generator_loop (suc f) list_index text = elim (get_elem? builtins list_index) [
  | none ↦ fault
  | some cmd ↦ elim (suc list_index == length builtins) [
    | true ↦ ok (none, suc list_index)
    | false ↦ elim (strn_eq cmd.name text (length text)) [
      | true ↦ ok (some cmd.name, suc list_index)
      | false ↦ generator_loop f (suc list_index) text
    ]
  ]
]

-- `state` is 0 at the first call for a text.
unfoldable pub builtin_generator : Bytes → ℕ → ℕ → Outcome (Option Bytes × ℕ)
unfolding generator_loop
builtin_generator text state list_index =
    let first = if state == 0 then 0 else list_index in generator_loop (length builtins) first text
