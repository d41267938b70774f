-- ===== src/Builtins/History.antt =====
-- src/builtins.c: `history`, `jobs` and `exit`. The history of readline is the list of its entries;
-- `read_history`, `write_history` and `append_history` are parameters, and what is given to the last
-- two is kept as a call. A status is the 32-bit pattern of an `int`.
use codecrafters_shell_c.Common.{
  ℕ, ◌+◌, ◌-◌, ◌*◌, ◌^◌, Bool, false, ◌&&◌, ◌||◌, ◌==◌, leb, ltb, if◌then◌else◌, List, [], ◌∷◌,
  ◌++◌, Option, none, some, length, drop,
}
use codecrafters_shell_c.Common.Bytes.{Bytes, bytes, isdigit}
use codecrafters_shell_c.Common.Outcome.{Outcome, ok, fault, ◌>>=◌}
use codecrafters_shell_c.Hashtable.Table.{strn_eq}
use codecrafters_shell_c.StringBuilder.Buffer.{digits, filled}
use codecrafters_shell_c.Lexer.Tokenize.{int_max}
use codecrafters_shell_c.Builtins.Commands.{minus_one}
use codecrafters_shell_c.Jobs.JobTable.{JobList}
use codecrafters_shell_c.Jobs.Printing.{print_jobs}

pub data FileCall : Type 0 where
  writes appends : Bytes → List Bytes → FileCall

-- The history, the static `entries_appended`, the files that were written, and what was printed.
pub record History : Type 0 where
  pub entries : List Bytes
  pub entries_appended : ℕ
  pub calls : List FileCall
  pub out : Bytes
  pub err : Bytes

-- The value of a digit in a base of at most 16; 16 of what is none.
unfoldable pub digit_value : ℕ → ℕ
unfolding isdigit
digit_value c =
    if isdigit c
    then c - 48
    else if leb b'a' c && leb c b'f'
    then c - 87
    else if leb b'A' c && leb c b'F'
    then c - 55
    else 16

unfoldable pub strtol_digits : ℕ → Bytes → ℕ → ℕ
unfolding digit_value
strtol_digits base [] n = n
strtol_digits base (c ∷ cs) n =
    let on = strtol_digits base cs (n * base + digit_value c) in
    if ltb (digit_value c) base then on else n

-- `strtol` of the C standard of 2023 for base 0, of a text that begins with a digit: 0x and a digit begin a number of
-- base 16, 0b and a binary digit one of base 2, and 0 one of base 8.
unfoldable pub strtol_any : Bytes → ℕ
unfolding strtol_digits digit_value
strtol_any (c ∷ x ∷ d ∷ cs) =
    if c == b'0'
    then if (x == b'x' || x == b'X') && ltb (digit_value d) 16
      then strtol_digits 16 (d ∷ cs) 0
      else if (x == b'b' || x == b'B') && ltb (digit_value d) 2
      then strtol_digits 2 (d ∷ cs) 0
      else strtol_digits 8 (c ∷ x ∷ d ∷ cs) 0
    else strtol_digits 10 (c ∷ x ∷ d ∷ cs) 0
strtol_any (c ∷ cs) = if c == b'0' then strtol_digits 8 (c ∷ cs) 0 else strtol_digits 10 (c ∷ cs) 0
strtol_any [] = 0

-- `%-3d` of a number that is not negative.
unfoldable pub numbered : ℕ → Bytes
unfolding digits filled
numbered n = digits n ++ filled (3 - length (digits n)) b' '

-- The loop that prints, from the entry of this number on.
unfoldable pub print_entries : ℕ → List Bytes → Bytes
unfolding numbered
print_entries n [] = []
print_entries n (line ∷ lines) =
    bytes "\t" ++ (numbered n ++ (line ++ (bytes "\n" ++ print_entries (n + 1) lines)))

-- The end of the function. Where more is to be displayed than there is, the loop begins before the
-- first entry of the array.
unfoldable pub display : ℕ → History → Outcome (ℕ × History)
unfolding print_entries
display max_display h =
    let offset = length h.entries - max_display in
    if ltb (length h.entries) max_display
    then fault
    else ok (0, record h { out = h.out ++ print_entries (offset + 1) (drop offset h.entries) })

unfoldable pub refuse : Bytes → History → Outcome (ℕ × History)
refuse message h = ok (minus_one, record h { err = h.err ++ message })

-- `history N`
unfoldable pub history_number : Bytes → History → Outcome (ℕ × History)
unfolding display strtol_any refuse
history_number arg h =
    let tmp = strtol_any arg in
    if leb (2 ^ 63) tmp
    then refuse
        (bytes "Passed invalid arg "
          ++ arg
          ++ bytes " to history builtin. Expecting a positive integer.\n")
        h
    else if ltb tmp int_max
    then display tmp h
    else refuse
        (bytes "Passed invalid integer "
          ++ digits tmp
          ++ bytes " to history builtin, expecting a value lower than "
          ++ digits int_max
          ++ bytes "(INT_MAX)\n")
        h

unfoldable pub begins_with_digit : Bytes → Bool
unfolding isdigit
begins_with_digit [] = false
begins_with_digit (c ∷ cs) = isdigit c

module _ (read_history : Bytes → Option (List Bytes)) (write_history : Bytes → List Bytes → Bool)
    (append_history : Bytes → List Bytes → Bool) where
  -- `history -r FILE`, `-w FILE` and `-a FILE`; nothing is displayed behind them.
  unfoldable pub history_read : Bytes → History → Outcome (ℕ × History)
  unfolding display refuse
  history_read file h = elim (read_history file) [
    | none ↦ refuse (bytes "Failed to read history from file " ++ file ++ bytes "\n") h
    | some lines ↦ ok (0, record h { entries = h.entries ++ lines })
  ]

  unfoldable pub history_write : Bytes → History → Outcome (ℕ × History)
  unfolding refuse
  history_write file h =
      if write_history file h.entries
      then ok (0, record h { calls = h.calls ++ writes file h.entries ∷ [] })
      else refuse (bytes "Failed to write history to file " ++ file ++ bytes "\n") h

  -- `append_history` takes a number of entries, and appends the last ones.
  unfoldable pub history_append : Bytes → History → Outcome (ℕ × History)
  unfolding refuse
  history_append file h =
      let entries = length h.entries - h.entries_appended in
      let fresh = drop (length h.entries - entries) h.entries in
      if append_history file fresh
      then ok (
        0,
        record h {
          calls = h.calls ++ appends file fresh ∷ [];
          entries_appended = h.entries_appended + entries;
        },
      )
      else refuse (bytes "Failed to append history to file " ++ file ++ bytes "\n") h

  unfoldable pub builtin_history : List Bytes → History → Outcome (ℕ × History)
  unfolding history_number history_read history_write history_append display begins_with_digit
      strn_eq
  builtin_history (_ ∷ arg ∷ []) h =
      if begins_with_digit arg then history_number arg h else display 0 h
  builtin_history (_ ∷ flag ∷ file ∷ []) h =
      if strn_eq flag (bytes "-r") (length flag)
      then history_read file h
      else if strn_eq flag (bytes "-w") (length flag)
      then history_write file h
      else if strn_eq flag (bytes "-a") (length flag)
      then history_append file h
      else display 0 h
  builtin_history (_ ∷ _ ∷ _ ∷ _ ∷ _) h = display 0 h
  builtin_history _ h = display (length h.entries) h

-- `jobs`, with what `print_jobs` takes.
unfoldable pub builtin_jobs :
    (ℕ → Bool) → Bool → List ℕ → List Bytes → Option JobList → Outcome (ℕ × Option JobList × Bytes)
unfolding print_jobs
builtin_jobs done child_exited_flag reaped (_ ∷ []) job_list = do
  (jobs, text) ← print_jobs done child_exited_flag reaped job_list
  ok (0, some jobs, text)
builtin_jobs done child_exited_flag reaped _ job_list = ok (0, job_list, [])

-- The status that the process ends with, whatever the words behind `exit` are.
unfoldable pub builtin_exit : List Bytes → ℕ
builtin_exit argv = 0
