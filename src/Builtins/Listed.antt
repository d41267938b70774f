-- ===== src/Builtins/Listed.antt =====
-- src/builtins.c: what `history` lists, and what it appends to a file.
use codecrafters_shell_c.Common.{
  ◌^◌, ℕ, zero, suc, ◌+◌, ◌-◌, ◌<◌, ◌≤◌, ◌≡◌, refl, sym, ◌∙◌, ap, Bool, true, false, leb, ltb, List,
  [], ◌∷◌, ◌++◌, Option, length, length-append, take, drop, append_assoc, arith,
}
use codecrafters_shell_c.Common.Bytes.{Bytes, bytes}
use codecrafters_shell_c.Common.Outcome.{ok, fault}
use codecrafters_shell_c.Hashtable.Table.{strn_eq}
use codecrafters_shell_c.Lexer.Tokenize.{int_max}
use codecrafters_shell_c.Builtins.History.{
  numbered, History, appends, strtol_any, print_entries, display, history_number, history_append,
  begins_with_digit, builtin_history,
}

take-drop : (n : ℕ) (xs : List Bytes) → take n xs ++ drop n xs ≡ xs
take-drop zero xs = refl
take-drop (suc n) [] = refl
take-drop (suc n) (x ∷ xs) = ap (◌∷◌ x) (take-drop n xs)

length-take_le : (n : ℕ) (xs : List Bytes) → n ≤ length xs → length (take n xs) ≡ n
length-take_le zero xs h = refl
length-take_le (suc n) [] h = omega arith
length-take_le (suc n) (x ∷ xs) h = omega (arith, length-take_le n xs)

drop-append_le : (n : ℕ) (xs ys : List Bytes) → n ≡ length xs → drop n (xs ++ ys) ≡ ys
drop-append_le zero [] ys h = refl
drop-append_le zero (x ∷ xs) ys h = absurd (omega arith)
drop-append_le (suc n) [] ys h = absurd (omega arith)
drop-append_le (suc n) (x ∷ xs) ys h = drop-append_le n xs ys (omega arith)

reassoc :
    (number line r s : Bytes)
    → bytes "\t" ++ (number ++ (line ++ (bytes "\n" ++ (r ++ s))))
      ≡ (bytes "\t" ++ (number ++ (line ++ (bytes "\n" ++ r)))) ++ s
reassoc number line r s = simp append_assoc

print_entries-append :
    (n m : ℕ) (xs ys : List Bytes)
    → n + length xs ≡ m
    → print_entries n (xs ++ ys) ≡ print_entries n xs ++ print_entries m ys
unfolding print_entries
print_entries-append n m [] ys e = ap (λ k. print_entries k ys) (omega arith)
print_entries-append n m (x ∷ xs) ys e =
    let rest = print_entries-append (n + 1) m xs ys (omega arith) in
    ap (λ r. bytes "\t" ++ (numbered n ++ (x ++ (bytes "\n" ++ r)))) rest
    ∙ reassoc (numbered n) x (print_entries (n + 1) xs) (print_entries m ys)

display-print_entries :
    (n : ℕ) (h : History)
    → n ≤ length h.entries
    → display n h
      ≡ ok (
        0,
        record h {
          out =
              h.out
              ++ print_entries (length h.entries - n + 1) (drop (length h.entries - n) h.entries);
        },
      )
unfolding display
display-print_entries n h le =
    let enough : ltb (length h.entries) n ≡ false = ground arith in rw enough refl

history_number-display :
    (arg : Bytes) (h : History)
    → strtol_any arg < int_max
    → history_number arg h ≡ display (strtol_any arg) h
unfolding history_number
history_number-display arg h small =
    let fits : leb (2 ^ 63) (strtol_any arg) ≡ false = ground arith in
    let below : ltb (strtol_any arg) int_max ≡ true = ground arith in rw (fits, below) refl

print_entries-whole :
    (k : ℕ) (xs : List Bytes)
    → k ≤ length xs
    → print_entries 1 xs ≡ print_entries 1 (take k xs) ++ print_entries (k + 1) (drop k xs)
print_entries-whole k xs le =
    ap (print_entries 1) (sym (take-drop k xs))
    ∙ print_entries-append 1 (k + 1) (take k xs) (drop k xs) (omega (arith, length-take_le k xs le))

module _ (read_history : Bytes → Option (List Bytes)) (write_history : Bytes → List Bytes → Bool)
    (append_history : Bytes → List Bytes → Bool) where
  history_append-fresh :
      (file : Bytes) (h : History)
      → h.entries_appended ≤ length h.entries
      → ((lines : List Bytes) → append_history file lines ≡ true)
      → history_append read_history write_history append_history file h
        ≡ ok (
          0,
          record h {
            calls = h.calls ++ appends file (drop h.entries_appended h.entries) ∷ [];
            entries_appended = length h.entries;
          },
        )
  unfolding history_append
  history_append-fresh file h le can =
      let from : length h.entries - (length h.entries - h.entries_appended) ≡ h.entries_appended =
        omega arith in
      let all : h.entries_appended + (length h.entries - h.entries_appended) ≡ length h.entries =
        omega arith in
      rw (from, all, can (drop h.entries_appended h.entries)) refl

  -- Of a number of entries that the history has, below INT_MAX and written with a digit in front,
  -- `history N` lists the last ones: what `history` lists is the list of those before them, and then
  -- the same.
  pub builtin_history-last :
      (self arg : Bytes) (h : History)
      → begins_with_digit arg ≡ true
      → strtol_any arg < int_max
      → strtol_any arg ≤ length h.entries
      → (listing : Bytes) × (builtin_history read_history write_history append_history
            (self ∷ arg ∷ [])
            h
          ≡ ok (0, record h { out = h.out ++ listing }))
        × (builtin_history read_history write_history append_history (self ∷ []) h
            ≡ ok (
              0,
              record h {
                out =
                    h.out
                    ++ (print_entries 1 (take (length h.entries - strtol_any arg) h.entries)
                        ++ listing);
              },
            ))
  unfolding builtin_history
  builtin_history-last self arg h digit small le =
      let n = strtol_any arg in
      let k = length h.entries - n in
      let none_left : length h.entries - length h.entries ≡ 0 = omega arith in
      (
        print_entries (k + 1) (drop k h.entries),
        rw (digit, history_number-display arg h small, display-print_entries n h le) refl,
        rw
            (
              display-print_entries (length h.entries) h (omega arith),
              none_left,
              print_entries-whole k h.entries (omega arith),
            )
            refl,
      )

  -- Of more entries than there are, below INT_MAX and written with a digit in front, `history N`
  -- reads before the array.
  pub builtin_history-fault :
      (self arg : Bytes) (h : History)
      → begins_with_digit arg ≡ true
      → strtol_any arg < int_max
      → length h.entries < strtol_any arg
      → builtin_history read_history write_history append_history (self ∷ arg ∷ []) h ≡ fault
  unfolding builtin_history
  builtin_history-fault self arg h digit small more =
      let few : ltb (length h.entries) (strtol_any arg) ≡ true = ground arith in
      rw (digit, history_number-display arg h small, display, few) refl

  -- Where the file can be appended to and no more entries count as appended than there are, two
  -- runs of `history -a` with entries added between them append each entry that was not appended
  -- before once, in order.
  pub builtin_history-append :
      (self file : Bytes) (h : History) (more : List Bytes)
      → h.entries_appended ≤ length h.entries
      → ((lines : List Bytes) → append_history file lines ≡ true)
      → (h' h'' : History) × (builtin_history read_history write_history append_history
            (self ∷ bytes "-a" ∷ file ∷ [])
            h
          ≡ ok (0, h'))
        × (builtin_history read_history write_history append_history
              (self ∷ bytes "-a" ∷ file ∷ [])
              (record h' { entries = h'.entries ++ more })
            ≡ ok (0, h''))
        × (h''.entries ≡ h.entries ++ more)
        × (h''.calls
            ≡ h.calls ++ appends file (drop h.entries_appended h.entries) ∷ appends file more ∷ [])
  unfolding builtin_history strn_eq
  builtin_history-append self file h more le can =
      let all = length h.entries in
      let h' : History = record h {
        calls = h.calls ++ appends file (drop h.entries_appended h.entries) ∷ [];
        entries_appended = all;
      } in
      let grown : History = record h' { entries = h.entries ++ more } in
      let fits : all ≤ length grown.entries = omega (arith, length-append h.entries more) in
      (
        h',
        _,
        history_append-fresh file h le can,
        history_append-fresh file grown fits can,
        refl,
        rw (drop-append_le all h.entries more refl) (simp append_assoc),
      )
