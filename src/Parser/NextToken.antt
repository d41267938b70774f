-- ===== src/Parser/NextToken.antt =====
-- src/parser.c: `next_token` and `exppass`, which the shell no longer calls. The pointer into the input is
-- the text that it points to, and `dest` the text that was written; the room in it is not tested.
use codecrafters_shell_c.Common.{
  ℕ, zero, suc, ◌-◌, Bool, true, false, ◌==◌, if◌then◌else◌, List, [], ◌∷◌, ◌++◌, Option, length,
}
use codecrafters_shell_c.Common.Bytes.{Bytes}
use codecrafters_shell_c.Common.Outcome.{Outcome, ok, fault, out_of_fuel, ◌>>=◌}
use codecrafters_shell_c.Lexer.Stream.{
  backslash, QuoteFlag, unquoted, single_quoted, double_quoted, toggle_flag,
}
use codecrafters_shell_c.Tokens.{Token, TokenList}
use codecrafters_shell_c.Vars.Store.{Vars}
use codecrafters_shell_c.Expand.Older.{is_escapable, exptok}

-- The text that is left, the quotes, and what was written; and whether the loop goes on.
abbrev pub Taken : Type 0
Taken = Bool × Bytes × QuoteFlag × Bytes

-- Behind a backslash, outside quotes or in double ones.
unfoldable pub token_escape : QuoteFlag → Bytes → Bytes → Taken
unfolding is_escapable
token_escape flag [] dest = (false, [], flag, dest ++ backslash ∷ [])
token_escape unquoted (c ∷ cs) dest = (true, cs, unquoted, dest ++ backslash ∷ c ∷ [])
token_escape flag (c ∷ cs) dest =
    if is_escapable c
    then (true, cs, flag, dest ++ backslash ∷ c ∷ [])
    else (true, c ∷ cs, flag, dest ++ backslash ∷ backslash ∷ [])

unfoldable pub skip_spaces : Bytes → Bytes
skip_spaces [] = []
skip_spaces (c ∷ cs) = elim (c == b' ') [ true ↦ skip_spaces cs | false ↦ c ∷ cs ]

-- Outside quotes: a space ends the token, and so does a newline, which is left.
unfoldable pub token_round : QuoteFlag → ℕ → Bytes → Bytes → Taken
unfolding token_escape skip_spaces toggle_flag
token_round unquoted c cs dest =
    if c == backslash
    then token_escape unquoted cs dest
    else if c == b' '
    then (false, skip_spaces cs, unquoted, dest)
    else if c == 10
    then (false, c ∷ cs, unquoted, dest)
    else (true, cs, toggle_flag c unquoted, dest ++ c ∷ [])
token_round double_quoted c cs dest =
    if c == backslash
    then token_escape double_quoted cs dest
    else (true, cs, toggle_flag c double_quoted, dest ++ c ∷ [])
token_round single_quoted c cs dest = (true, cs, toggle_flag c single_quoted, dest ++ c ∷ [])

unfoldable pub token_loop : ℕ → QuoteFlag → Bytes → Bytes → Outcome (Bytes × QuoteFlag × Bytes)
unfolding token_round
token_loop zero flag i dest = out_of_fuel
token_loop (suc f) flag [] dest = ok ([], flag, dest)
token_loop (suc f) flag (c ∷ cs) dest =
    let (more, i', flag', dest') = token_round flag c cs dest in
    elim more [ true ↦ token_loop f flag' i' dest' | false ↦ ok (i', flag', dest') ]

-- The number of bytes that were read, 0 where nothing was written; the quotes; and `dest`.
unfoldable pub next_token : Bytes → QuoteFlag → Outcome (ℕ × QuoteFlag × Bytes)
unfolding token_loop
next_token input flag = do
  (i, flag', dest) ← token_loop (suc (length input)) flag input []
  ok (if length dest == 0 then 0 else length input - length i, flag', dest)

module _ (vars : Vars) (home : Option Bytes) where
  -- As many rounds as the stored size, each at the next node.
  unfoldable pub exppass_loop : ℕ → List Token → Outcome (List Token)
  exppass_loop zero tokens = ok tokens
  exppass_loop (suc n) [] = fault
  exppass_loop (suc n) (t ∷ ts) = do
    expanded ← exptok vars home t.value
    ts' ← exppass_loop n ts
    ok (record t { value = expanded } ∷ ts')

  unfoldable pub exppass : TokenList → Outcome TokenList
  unfolding exppass_loop
  exppass list = do
    tokens ← exppass_loop list.size list.tokens
    ok (record list { tokens = tokens })
