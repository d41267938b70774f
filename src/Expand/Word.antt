-- ===== src/Expand/Word.antt =====
-- src/expand.c: `expand_word` and the functions that it calls. The pointer into the word is the text
-- that it points to; the builder is the one of StringBuilder, with its block. The variables do not
-- change, since the table that a lookup makes where there is none is empty. `capture` is what the
-- child process of a command substitution does: the pieces of its output, as `read` gives them one
-- after the other, and `none` where it does not end; there are no pieces where the pipe or the
-- process is not made. `junk` is what `realloc` leaves in a block.
use codecrafters_shell_c.Common.{
  ℕ, zero, suc, Bool, true, false, List, [], ◌∷◌, ◌++◌, ◌==◌, if◌then◌else◌, Option, none, some,
  length,
}
use codecrafters_shell_c.Common.Bytes.{Bytes, bytes}
use codecrafters_shell_c.Common.Outcome.{Outcome, ok, fault, out_of_fuel, ◌>>=◌}
use codecrafters_shell_c.Lexer.Stream.{
  squote, dquote, backslash, QuoteFlag, unquoted, single_quoted, double_quoted,
}
use codecrafters_shell_c.Syntax.{ShellList}
use codecrafters_shell_c.Parser.Parse.{Allocator, lex_and_parse}
use codecrafters_shell_c.Vars.Store.{Vars, var_lookup, var_lookupn}
use codecrafters_shell_c.StringBuilder.Buffer.{
  StringBuilder, sb_new_sized, sb_appends, sb_appendc, sb_takestring, c_text,
}

-- The text before the first byte `c`, and the text from that byte on.
unfoldable pub until : ℕ → Bytes → Bytes × Bytes
until c [] = ([], [])
until c (d ∷ ds) = elim (d == c) [
  | true ↦ ([], d ∷ ds)
  | false ↦ let (before, rest) = until c ds in (d ∷ before, rest)
]

-- A text up to its first NUL.
unfoldable pub c_string : Bytes → Bytes
c_string [] = []
c_string (c ∷ cs) = elim (c == 0) [ true ↦ [] | false ↦ c ∷ c_string cs ]

unfoldable pub strip_newlines : Bytes → Bytes
strip_newlines [] = []
strip_newlines (c ∷ cs) = elim (strip_newlines cs) [
  | [] ↦ if c == 10 then [] else c ∷ []
  | d ∷ ds ↦ c ∷ d ∷ ds
]

-- The loop over `read`.
unfoldable pub append_reads : List Bytes → StringBuilder → Outcome StringBuilder
unfolding c_string
append_reads [] sb = ok sb
append_reads (buf ∷ bufs) sb = do sb' ← sb_appends sb (c_string buf); append_reads bufs sb'

-- `sb_appends` of a value that is not a null pointer.
unfoldable pub append_value : Option Bytes → StringBuilder → Outcome StringBuilder
append_value none sb = ok sb
append_value (some value) sb = sb_appends sb value

module _ ⦃alloc : Allocator⦄ (vars : Vars) (capture : Option ShellList → Option (List Bytes))
    (junk : ℕ) where
  unfoldable pub lookup : Bytes → Outcome (Option Bytes)
  lookup name = do result ← var_lookup vars name; ok result.0

  unfoldable pub lookupn : Bytes → ℕ → Outcome (Option Bytes)
  lookupn name count = do result ← var_lookupn vars name count; ok result.0

  unfoldable pub expand_tilde : StringBuilder → Outcome StringBuilder
  unfolding append_value
  expand_tilde sb = do value ← lookup (bytes "HOME"); append_value value sb

  -- Each of these gives the text that is left, and the builder.
  unfoldable pub expand_braced_variable : Bytes → StringBuilder → Outcome (Bytes × StringBuilder)
  unfolding append_value until
  expand_braced_variable i sb =
      let (varname, rest) = until b'}' i in
      do
        value ← lookup varname
        sb' ← append_value value sb
        ok (elim rest [ [] ↦ [] | c ∷ cs ↦ cs ], sb')

  -- `tmp` is the part of the name that has been read.
  unfoldable pub expand_loose_variable :
      Bytes → Bytes → StringBuilder → Outcome (Bytes × StringBuilder)
  expand_loose_variable [] tmp sb = ok ([], sb)
  expand_loose_variable (c ∷ cs) tmp sb = elim (c == b' ') [
    | true ↦ ok (c ∷ cs, sb)
    | false ↦ lookupn (tmp ++ c ∷ []) (length (tmp ++ c ∷ [])) >>= elim [
      | some value ↦ do sb' ← sb_appends sb value; ok (cs, sb')
      | none ↦ expand_loose_variable cs (tmp ++ c ∷ []) sb
    ]
  ]

  -- From here on the text is what stands behind the `$`.
  unfoldable pub expand_variable : Bytes → StringBuilder → Outcome (Bytes × StringBuilder)
  unfolding expand_loose_variable expand_braced_variable
  expand_variable [] sb = expand_loose_variable [] [] sb
  expand_variable (c ∷ cs) sb = elim (c == b'{') [
    | true ↦ expand_braced_variable cs sb
    | false ↦ expand_loose_variable (c ∷ cs) [] sb
  ]

  -- The block is read as a string, whose newlines at the end are cut off.
  unfoldable pub capture_list_output : Option ShellList → Outcome Bytes
  unfolding strip_newlines append_reads
  capture_list_output body = elim (capture body) [
    | none ↦ out_of_fuel
    | some bufs ↦ do
      sb ← append_reads bufs (sb_new_sized 16)
      result ← c_text (sb_takestring sb).0
      ok (strip_newlines result)
  ]

  -- Without a `)` the rest of the word is dropped.
  unfoldable pub expand_cmdsub : Bytes → StringBuilder → Outcome (Bytes × StringBuilder)
  unfolding until capture_list_output
  expand_cmdsub i sb =
      let (buf, rest) = until b')' i in
      elim rest [
        | [] ↦ ok ([], sb)
        | c ∷ cs ↦ do
          list ← lex_and_parse buf
          result ← capture_list_output list
          sb' ← sb_appends sb result
          ok (cs, sb')
      ]

  unfoldable pub expand_dollarsign : Bytes → StringBuilder → Outcome (Bytes × StringBuilder)
  unfolding expand_cmdsub expand_variable
  expand_dollarsign [] sb = expand_variable [] sb
  expand_dollarsign (c ∷ cs) sb = elim (c == b'(') [
    | true ↦ expand_cmdsub cs sb
    | false ↦ expand_variable (c ∷ cs) sb
  ]

  -- The state of the loop: the flag, the text that is left, and the builder.
  abbrev pub Expanding : Type 0
  Expanding = QuoteFlag × Bytes × StringBuilder

  unfoldable pub dollar : QuoteFlag → Bytes → StringBuilder → Outcome Expanding
  unfolding expand_dollarsign
  dollar flag cs sb = do rest ← expand_dollarsign cs sb; ok (flag, rest.0, rest.1)

  -- `sb_appendc` and the step to the next byte.
  unfoldable pub append_byte : QuoteFlag → ℕ → Bytes → StringBuilder → Outcome Expanding
  append_byte flag c cs sb = do sb' ← sb_appendc junk sb c; ok (flag, cs, sb')

  -- Behind a backslash at the end the NUL is appended, and the loop goes on beyond it.
  unfoldable pub escape : QuoteFlag → Bytes → StringBuilder → Outcome Expanding
  escape flag [] sb = fault
  escape flag (c ∷ cs) sb = append_byte flag c cs sb

  -- One round of the loop at the byte `c`; `start` says that it is the first of the word.
  unfoldable pub word_round : Bool → QuoteFlag → ℕ → Bytes → StringBuilder → Outcome Expanding
  unfolding dollar escape expand_tilde append_byte
  word_round start unquoted c cs sb =
      if c == b'~'
      then if start
        then (do sb' ← expand_tilde sb; ok (unquoted, cs, sb'))
        else append_byte unquoted c cs sb
      else if c == b'$'
      then dollar unquoted cs sb
      else if c == backslash
      then escape unquoted cs sb
      else if c == squote
      then ok (single_quoted, cs, sb)
      else if c == dquote
      then ok (double_quoted, cs, sb)
      else append_byte unquoted c cs sb
  word_round start single_quoted c cs sb =
      if c == squote then ok (unquoted, cs, sb) else append_byte single_quoted c cs sb
  word_round start double_quoted c cs sb =
      if c == dquote
      then ok (unquoted, cs, sb)
      else if c == backslash
      then escape double_quoted cs sb
      else if c == b'$'
      then dollar double_quoted cs sb
      else append_byte double_quoted c cs sb

  unfoldable pub word_loop : ℕ → Bool → QuoteFlag → Bytes → StringBuilder → Outcome StringBuilder
  unfolding word_round
  word_loop zero start flag i sb = out_of_fuel
  word_loop (suc f) start flag [] sb = ok sb
  word_loop (suc f) start flag (c ∷ cs) sb =
      word_round start flag c cs sb >>= λ (flag', cs', sb'). word_loop f false flag' cs' sb'

  -- The block that is given out; whether a NUL stands in it is not tested.
  unfoldable pub expand_word : Bytes → Outcome Bytes
  unfolding word_loop
  expand_word str = do
    sb ← word_loop (suc (length str)) true unquoted str (sb_new_sized (length str))
    ok (sb_takestring sb).0
