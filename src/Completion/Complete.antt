-- ===== src/Completion/Complete.antt =====
-- src/completion.c: `shell_completion_function`, and the generator that runs a completion script.
-- The run of a script is a parameter: what it writes to its standard output for a command word, the
-- current word and the previous one, or `none` where the pipe or the process cannot be made.
use codecrafters_shell_c.Common.{
  append_assoc, length-append, append-nil, ◌≢◌, ℕ, suc, ◌+◌, ◌≡◌, ◌<◌, refl, ap, ◌∙◌, Bool, true,
  false, ◌||◌, ◌==◌, leb, List, [], ◌∷◌, ◌++◌, Option, none, some, length, drop, tail, drop-suc,
  get_elem?-drop, length-drop, get_elem?, if◌then◌else◌, arith,
}
use codecrafters_shell_c.Common.Bytes.{Bytes, bytes}
use codecrafters_shell_c.Common.Outcome.{Outcome, ok, fault, ◌>>=◌}
use codecrafters_shell_c.Hashtable.Table.{strn_eq}
use codecrafters_shell_c.Completion.Registry.{Registry, lookup_completion}
use codecrafters_shell_c.Completion.Words.{find_current_word, get_previous_word, get_command_word}
use codecrafters_shell_c.Completion.Offers.{Calls}

-- What readline is told: the generator whose matches it is to take, or a null pointer, and whether
-- its own completion is over.
pub data Completer : Type 0 where
  no_completer first_word_completer external_completer : Completer

unfoldable pub scripted : Registry → Option Bytes → Completer × Bool
scripted registry none = (no_completer, false)
scripted registry (some cmd) = elim (lookup_completion registry cmd) [
  | none ↦ (no_completer, false)
  | some script ↦ (external_completer, true)
]

unfoldable pub is_relative : Option Bytes → Bool
unfolding strn_eq
is_relative none = false
is_relative (some line) = strn_eq line (bytes "./") 2 || strn_eq line (bytes "../") 3

unfoldable pub shell_completion_function : Registry → Option Bytes → ℕ → Completer × Bool
unfolding is_relative scripted
shell_completion_function registry line start =
    if is_relative line
    then (no_completer, false)
    else if start == 0
    then (first_word_completer, true)
    else scripted registry (get_command_word line)

abbrev pub word_buffer : ℕ
word_buffer = 1024

-- The string in a buffer: what stands before the first NUL.
unfoldable pub until_nul : Bytes → Bytes
until_nul [] = []
until_nul (c ∷ cs) = let rest = until_nul cs in if c == 0 then [] else c ∷ rest

-- The lines that `fgets` reads into `line`, up to their newline; a line that fills the buffer is
-- read in parts. `part` is what has been read of one, and `strdup` copies it up to a NUL.
unfoldable pub fgets_from : Bytes → Bytes → List Bytes
unfolding until_nul
fgets_from [] [] = []
fgets_from [] (p ∷ ps) = until_nul (p ∷ ps) ∷ []
fgets_from (c ∷ cs) part =
    let fresh = fgets_from cs [] in
    let on = fgets_from cs (part ++ c ∷ []) in
    if c == 10
    then until_nul part ∷ fresh
    else if length part + 2 == word_buffer
    then until_nul (part ++ c ∷ []) ∷ fresh
    else on

-- A line with no newline and no NUL in it, and the text of such lines, each with its newline.
abbrev pub IsPlain : Bytes → Type 0
IsPlain [] = Unit {0}
IsPlain (c ∷ cs) = (c ≢ 10) × (c ≢ 0) × IsPlain cs

abbrev pub AreLines : List Bytes → Type 0
AreLines [] = Unit {0}
AreLines (l ∷ ls) = IsPlain l × (length l < 1023) × AreLines ls

abbrev pub text_of : List Bytes → Bytes
text_of [] = []
text_of (l ∷ ls) = l ++ 10 ∷ text_of ls

IsPlain-append : (xs ys : Bytes) → IsPlain xs → IsPlain ys → IsPlain (xs ++ ys)
IsPlain-append [] ys h k = k
IsPlain-append (x ∷ xs) ys h k = (h.0, h.1, IsPlain-append xs ys h.2 k)

until_nul-IsPlain : (xs : Bytes) → IsPlain xs → until_nul xs ≡ xs
unfolding until_nul
until_nul-IsPlain [] h = refl
until_nul-IsPlain (x ∷ xs) h =
    let on : (x == 0) ≡ false = ground (arith, h.1) in rw (on, until_nul-IsPlain xs h.2) refl

fgets_from-line :
    (line part rest : Bytes)
    → IsPlain line
    → IsPlain part
    → length part + length line < 1023
    → fgets_from (line ++ 10 ∷ rest) part ≡ (part ++ line) ∷ fgets_from rest []
unfolding fgets_from
fgets_from-line [] part rest h k short = rw (until_nul-IsPlain part k, append-nil part) refl
fgets_from-line (c ∷ cs) part rest h k short =
    let on : (c == 10) ≡ false = ground (arith, h.0) in
    let room : (length part + 2 == word_buffer) ≡ false = ground arith in
    let longer = length-append part (c ∷ []) in
    let part' = IsPlain-append part (c ∷ []) k (h.0, h.1, tt) in
    rw (on, room)
      (fgets_from-line cs (part ++ c ∷ []) rest h.2 part' (omega (arith, longer))
        ∙ ap (λ l. l ∷ fgets_from rest []) (append_assoc part (c ∷ []) cs))

fgets_from-text_of : (ls : List Bytes) → AreLines ls → fgets_from (text_of ls) [] ≡ ls
unfolding fgets_from
fgets_from-text_of [] h = refl
fgets_from-text_of (l ∷ ls) h =
    fgets_from-line l [] (text_of ls) h.0 tt (omega (arith, h.1))
    ∙ ap (◌∷◌ l) (fgets_from-text_of ls h.2)

-- The static variables.
pub record External : Type 0 where
  pub completions : Option (List Bytes)
  pub cmp_idx : ℕ
  pub cmp_len : ℕ

-- The early returns: the completions are freed if there are any.
unfoldable pub forget : External → External
forget s = elim s.completions [
  | none ↦ s
  | some words ↦ record { completions = none; cmp_idx = 0; cmp_len = 0 }
]

-- The end of the function: the next completion.
unfoldable pub give : External → Outcome (Option Bytes × External)
give s = elim s.completions [
  | none ↦ ok (none, s)
  | some words ↦
      if leb s.cmp_len s.cmp_idx
      then ok (none, record { completions = none; cmp_idx = 0; cmp_len = 0 })
      else elim (get_elem? words s.cmp_idx) [
        | none ↦ fault
        | some word ↦ ok (some word, record s { cmp_idx = s.cmp_idx + 1 })
      ]
]

-- The copy of a word into a buffer on the stack, with a NUL behind it.
unfoldable pub copied : Option Bytes → Outcome Bytes
copied none = ok []
copied (some word) = if leb word_buffer (length word) then fault else ok word

unfoldable pub script_of : Registry → Option Bytes → Option Bytes
script_of registry none = none
script_of registry (some cmd) = lookup_completion registry cmd

abbrev pub length_of : Option Bytes → ℕ
length_of none = 0
length_of (some word) = length word

abbrev pub word_of : Option Bytes → Bytes
word_of none = []
word_of (some word) = word

copied-word_of :
    (word : Option Bytes) → length_of word < word_buffer → copied word ≡ ok (word_of word)
unfolding copied
copied-word_of none h = refl
copied-word_of (some word) h =
    let fits : leb word_buffer (length word) ≡ false = ground arith in rw fits refl

module _ (run_script : Bytes → Bytes → Option Bytes → Bytes → Option Bytes) (registry : Registry)
    (line : Option Bytes) (text : Bytes) where
  -- The block for the first call.
  unfoldable pub run_completer : External → Outcome (Option Bytes × External)
  unfolding copied script_of forget give fgets_from
  run_completer s = do
    cmd ← copied (get_command_word line)
    current_word ← find_current_word line text
    prev ← get_previous_word line (length_of current_word)
    prev_word ← copied prev
    elim (script_of registry (get_command_word line)) [
      | none ↦ ok (none, forget s)
      | some script_path ↦ elim (run_script script_path cmd current_word prev_word) [
        | none ↦ ok (none, forget s)
        | some output ↦
            let words = fgets_from output [] in
            give (record s { completions = some words; cmp_len = length words })
      ]
    ]

  unfoldable pub external_completer_generator : ℕ → External → Outcome (Option Bytes × External)
  unfolding run_completer give
  external_completer_generator state s = elim (state == 0) [
    | true ↦ run_completer s
    | false ↦ give s
  ]

  give-end :
      (words : List Bytes) (s : External)
      → s.completions ≡ some words
      → s.cmp_len ≡ length words
      → drop s.cmp_idx words ≡ []
      → give s ≡ ok (none, record { completions = none; cmp_idx = 0; cmp_len = 0 })
  unfolding give
  give-end words s here len left =
      let last : leb s.cmp_len s.cmp_idx ≡ true =
        ground (arith, ap length left, length-drop s.cmp_idx words) in
      rw (here, last) refl

  give-next :
      (words ms : List Bytes) (m : Bytes) (s : External)
      → s.completions ≡ some words
      → s.cmp_len ≡ length words
      → drop s.cmp_idx words ≡ m ∷ ms
      → give s ≡ ok (some m, record s { cmp_idx = s.cmp_idx + 1 })
  unfolding give
  give-next words ms m s here len left =
      let more : leb s.cmp_len s.cmp_idx ≡ false =
        ground (arith, ap length left, length-drop s.cmp_idx words) in
      rw (here, more, get_elem?-drop s.cmp_idx words ms m left) refl

  give-Calls :
      (words ms : List Bytes) (s : External)
      → s.completions ≡ some words
      → s.cmp_len ≡ length words
      → drop s.cmp_idx words ≡ ms
      → (t : External) (state : ℕ) → external_completer_generator state t ≡ give s
      → Calls external_completer_generator state t ms
  unfolding external_completer_generator
  give-Calls words [] s here len left t state run = rw (run ∙ give-end words s here len left) refl
  give-Calls words (m ∷ ms) s here len left t state run =
      let s' : External = record s { cmp_idx = s.cmp_idx + 1 } in
      let on : drop (s.cmp_idx + 1) words ≡ ms =
        ap (λ n. drop n words) {y = suc s.cmp_idx} (omega arith)
        ∙ drop-suc s.cmp_idx words
        ∙ ap tail left in
      rw (run ∙ give-next words ms m s here len left)
        (refl, give-Calls words ms s' here len on s' 1 refl)

  -- Where no earlier completion was left in the middle, the command word has a script, the words
  -- around the cursor are found and fit their buffers, and the script is run and writes lines of
  -- less than 1023 bytes with no NUL in them, each with its newline, the calls of
  -- `external_completer_generator` give those lines in their order, and then a null pointer.
  pub external_completer_generator-Calls :
      (s : External) (cmd script cur : Bytes) (prev : Option Bytes) (lines : List Bytes)
      → s.cmp_idx ≡ 0
      → get_command_word line ≡ some cmd
      → length cmd < word_buffer
      → lookup_completion registry cmd ≡ some script
      → find_current_word line text ≡ ok (some cur)
      → get_previous_word line (length cur) ≡ ok prev
      → length_of prev < word_buffer
      → run_script script cmd (some cur) (word_of prev) ≡ some (text_of lines)
      → AreLines lines
      → Calls external_completer_generator 0 s lines
  unfolding external_completer_generator run_completer
  external_completer_generator-Calls s cmd script cur prev lines idx word short has current previous
        short' run are =
      let the_lines = fgets_from-text_of lines are in
      give-Calls lines lines (record s { completions = some lines; cmp_len = length lines }) refl
        refl (rw idx refl) s 0
        (rw
          (
            word,
            copied-word_of (some cmd) short,
            current,
            previous,
            copied-word_of prev short',
            script_of,
            has,
            run,
          )
          (ap (λ words. give (record s { completions = some words; cmp_len = length words }))
            the_lines))
