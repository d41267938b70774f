-- ===== src/Expand/Older.antt =====
-- src/expand.c: the functions of an earlier expansion, which the shell no longer calls: `exptok` with
-- its buffer of 1024 bytes. The pointer into the word is the text
-- that it points to; the buffer is the text written at its beginning, and zeros behind it. `home` is
-- what `getenv` gives for HOME.
use codecrafters_shell_c.Common.{
  ℕ, zero, suc, ◌+◌, Bool, ◌||◌, ◌==◌, leb, ltb, if◌then◌else◌, [], ◌∷◌, ◌++◌, Option, none, some,
  length, drop, tail,
}
use codecrafters_shell_c.Common.Bytes.{Bytes, bytes}
use codecrafters_shell_c.Common.Outcome.{Outcome, ok, fault, out_of_fuel, ◌>>=◌}
use codecrafters_shell_c.Lexer.Stream.{
  squote, dquote, backslash, QuoteFlag, unquoted, single_quoted, double_quoted,
}
use codecrafters_shell_c.StringBuilder.Buffer.{c_text, write_at}
use codecrafters_shell_c.Vars.Store.{Vars, var_lookup}
use codecrafters_shell_c.Expand.Word.{until}

abbrev pub exptok_size : ℕ
exptok_size = 1024

-- Bytes written into the buffer, from the end of the text on.
unfoldable pub put : Bytes → Bytes → Outcome Bytes
put buf text = if ltb exptok_size (length buf + length text) then fault else ok (buf ++ text)

unfoldable pub exptilde : Option Bytes → QuoteFlag → Bytes → Outcome Bytes
unfolding put
exptilde none unquoted buf = fault
exptilde (some value) unquoted buf = put buf value
exptilde home single_quoted buf = put buf (bytes "~")
exptilde home double_quoted buf = put buf (bytes "~")

-- What `strchr` finds, the NUL at the end of its text not among it.
unfoldable pub is_escapable : ℕ → Bool
is_escapable c = c == backslash || c == b'$' || c == b'`' || c == dquote || c == 10

module _ (vars : Vars) (home : Option Bytes) where
  -- Each gives the text that is left, and the buffer. The copy of the name fills its block, and the
  -- NUL is written behind it.
  unfoldable pub expvar : Bytes → Bytes → Outcome (Bytes × Bytes)
  unfolding put write_at
  expvar word buf = do
    block ← write_at (tail word ++ 0 ∷ []) (length word) 0
    variable_name ← c_text block
    result ← var_lookup vars variable_name
    elim result.0 [
      | none ↦ ok (drop (length variable_name) word, buf)
      | some value ↦ do buf' ← put buf value; ok (drop (length variable_name) word, buf')
    ]

  -- Without a closing brace the word is read beyond its end.
  unfoldable pub expvar_braced : Bytes → Bytes → Outcome (Bytes × Bytes)
  unfolding put until
  expvar_braced word buf =
      let (variable_name, rest) = until b'}' (drop 2 word) in
      elim rest [
        | [] ↦ fault
        | c ∷ cs ↦ do
          result ← var_lookup vars variable_name
          elim result.0 [
            | none ↦ ok (c ∷ cs, buf)
            | some value ↦ do buf' ← put buf value; ok (c ∷ cs, buf')
          ]
      ]

  -- `$` outside quotes, and the step to the next character.
  unfoldable pub exp_dollar : Bytes → Bytes → Outcome (Bytes × Bytes)
  unfolding expvar expvar_braced
  exp_dollar (c ∷ d ∷ cs) buf = do
    (rest, buf') ← (if d == b'{' then expvar_braced (c ∷ d ∷ cs) buf else expvar (c ∷ d ∷ cs) buf)
    elim rest [ [] ↦ fault | e ∷ es ↦ ok (es, buf') ]
  exp_dollar word buf = do
    (rest, buf') ← expvar word buf
    elim rest [ [] ↦ fault | e ∷ es ↦ ok (es, buf') ]

  -- What a round leaves: the text that is left, the quotes, the buffer; `none` behind the `break`.
  abbrev pub Exp : Type 0
  Exp = Option (Bytes × QuoteFlag × Bytes)

  unfoldable pub exp_put : Bytes → QuoteFlag → Bytes → Bytes → Outcome Exp
  unfolding put
  exp_put iter flag buf text = do buf' ← put buf text; ok (some (iter, flag, buf'))

  unfoldable pub exp_tilde : Bytes → QuoteFlag → Bytes → Outcome Exp
  unfolding exptilde
  exp_tilde iter flag buf = do buf' ← exptilde home flag buf; ok (some (iter, flag, buf'))

  -- A backslash outside quotes, or in double ones.
  unfoldable pub exp_escape : QuoteFlag → Bytes → Bytes → Outcome Exp
  unfolding exp_put is_escapable
  exp_escape unquoted [] buf = ok none
  exp_escape unquoted (c ∷ cs) buf = exp_put cs unquoted buf (c ∷ [])
  exp_escape flag [] buf = ok none
  exp_escape flag (c ∷ cs) buf =
      if is_escapable c
      then exp_put cs flag buf (c ∷ [])
      else exp_put (c ∷ cs) flag buf (backslash ∷ [])

  unfoldable pub exp_round : QuoteFlag → ℕ → Bytes → Bytes → Outcome Exp
  unfolding exp_escape exp_tilde exp_dollar exp_put
  exp_round unquoted c cs buf =
      if c == backslash
      then exp_escape unquoted cs buf
      else if c == squote
      then ok (some (cs, single_quoted, buf))
      else if c == dquote
      then ok (some (cs, double_quoted, buf))
      else if c == b'~'
      then exp_tilde cs unquoted buf
      else if c == b'$'
      then (do (rest, buf') ← exp_dollar (c ∷ cs) buf; ok (some (rest, unquoted, buf')))
      else exp_put cs unquoted buf (c ∷ [])
  exp_round single_quoted c cs buf =
      if c == squote
      then ok (some (cs, unquoted, buf))
      else if c == b'~'
      then exp_tilde cs single_quoted buf
      else exp_put cs single_quoted buf (c ∷ [])
  exp_round double_quoted c cs buf =
      if c == backslash
      then exp_escape double_quoted cs buf
      else if c == dquote
      then ok (some (cs, unquoted, buf))
      else if c == b'~'
      then exp_tilde cs double_quoted buf
      else exp_put cs double_quoted buf (c ∷ [])

  unfoldable pub exp_loop : ℕ → QuoteFlag → Bytes → Bytes → Outcome Bytes
  unfolding exp_round
  exp_loop zero flag iter buf = out_of_fuel
  exp_loop (suc f) flag [] buf = ok buf
  exp_loop (suc f) flag (c ∷ cs) buf =
      exp_round flag c cs buf
      >>= elim [ none ↦ ok buf | some (iter', flag', buf') ↦ exp_loop f flag' iter' buf' ]

  -- The copy of the buffer's text, for which a NUL must stand in the buffer.
  unfoldable pub exptok : Bytes → Outcome Bytes
  unfolding exp_loop
  exptok word = do
    buf ← exp_loop (suc (length word)) unquoted word []
    if leb exptok_size (length buf) then fault else ok buf
