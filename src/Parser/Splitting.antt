-- ===== src/Parser/Splitting.antt =====
-- src/parser.c: the older functions that count the operators of a list of tokens and split the list at
-- the first of them. A chain of nodes that is cut is two lists; where a node is on both sides, both
-- lists have it.
use codecrafters_shell_c.Common.{
  ℕ, suc, ◌+◌, ◌-◌, ◌%◌, ◌^◌, ◌≡◌, refl, ap, Bool, true, false, List, [], ◌∷◌, ◌++◌, Option, none,
  some, inl, inr, Bool-cases,
}
use codecrafters_shell_c.Common.Bytes.{bytes, str_eq}
use codecrafters_shell_c.Common.Outcome.{Stops-bind, Stops, Outcome, ok, fault, ◌>>=◌}
use codecrafters_shell_c.Tokens.{
  TokenType, tok_and, tok_or, tok_semi, tok_amp, Token, TokenList, token_count,
}
use codecrafters_shell_c.Syntax.{AndOrOp, and_and, and_or, ListSep, sep_semi, sep_amp}

-- `none` for the -1 that is no enumerator.
unfoldable pub andor_from_tokentype : TokenType → Option AndOrOp
andor_from_tokentype tok_and = some and_and
andor_from_tokentype tok_or = some and_or
andor_from_tokentype _ = none

unfoldable pub sep_from_tokentype : TokenType → Option ListSep
sep_from_tokentype tok_semi = some sep_semi
sep_from_tokentype tok_amp = some sep_amp
sep_from_tokentype _ = none

unfoldable pub is_separator : TokenType → Bool
is_separator tok_semi = true
is_separator tok_amp = true
is_separator _ = false

unfoldable pub is_ao_operator : TokenType → Bool
is_ao_operator tok_and = true
is_ao_operator tok_or = true
is_ao_operator _ = false

unfoldable pub is_pipe : Token → Bool
unfolding str_eq
is_pipe tok = str_eq tok.value (bytes "|")

-- The loop of the counting functions.
unfoldable pub count_tokens : (Token → Bool) → List Token → ℕ
count_tokens test [] = 0
count_tokens test (t ∷ ts) = elim (test t) [
  | true ↦ suc (count_tokens test ts)
  | false ↦ count_tokens test ts
]

unfoldable pub count_separators : TokenList → ℕ
unfolding count_tokens is_separator
count_separators list = count_tokens (λ t. is_separator t.type) list.tokens

unfoldable pub count_operators : TokenList → ℕ
unfolding count_tokens is_ao_operator
count_operators list = count_tokens (λ t. is_ao_operator t.type) list.tokens

unfoldable pub count_pipes : TokenList → ℕ
unfolding count_tokens is_pipe
count_pipes list = count_tokens is_pipe list.tokens

-- The loop of the splitting functions: the tokens before the first one of a kind, that one, and those
-- behind it.
unfoldable pub split_tokens : (Token → Bool) → List Token → Option (List Token × Token × List Token)
split_tokens test [] = none
split_tokens test (t ∷ ts) = elim (test t) [
  | true ↦ some ([], t, ts)
  | false ↦ elim (split_tokens test ts) [
    | none ↦ none
    | some (before, at, behind) ↦ some (t ∷ before, at, behind)
  ]
]

-- The last of some tokens. Before the first token `prev` is a null pointer.
unfoldable pub last_token : List Token → Outcome Token
last_token [] = fault
last_token (t ∷ []) = ok t
last_token (t ∷ u ∷ us) = last_token (u ∷ us)

unfoldable pub counted : List Token → TokenList
unfolding token_count
counted tokens = record { size = token_count tokens; tokens = tokens }

-- Each gives whether it split the list, the destination and the source.
abbrev pub Split : Type 0
Split = Bool × TokenList × TokenList

-- The destination gets the token before the separator; the ones behind are lost.
unfoldable pub split_on_separator : TokenList → TokenList → Outcome Split
unfolding split_tokens last_token counted is_separator
split_on_separator dst src = elim (split_tokens (λ t. is_separator t.type) src.tokens) [
  | none ↦ ok (false, dst, src)
  | some (before, at, behind) ↦ do
    prev ← last_token before
    ok (true, counted (prev ∷ []), counted before)
]

unfoldable pub split_on_operator : TokenList → TokenList → Outcome Split
unfolding split_tokens last_token counted is_ao_operator
split_on_operator dst src = elim (split_tokens (λ t. is_ao_operator t.type) src.tokens) [
  | none ↦ ok (false, dst, src)
  | some (before, at, behind) ↦ do
    prev ← last_token before
    ok (true, counted (at ∷ behind), counted before)
]

unfoldable pub split_on_pipes : TokenList → TokenList → Outcome Split
unfolding split_tokens last_token counted is_pipe
split_on_pipes dest src = elim (split_tokens is_pipe src.tokens) [
  | none ↦ ok (false, dest, src)
  | some (before, at, behind) ↦ do
    prev ← last_token before
    ok (true, counted behind, counted before)
]

-- The tokens from a `&` on are cut off, and the size is lowered by one.
unfoldable pub check_for_bg_token : TokenList → Outcome (Bool × TokenList)
unfolding split_tokens last_token str_eq
check_for_bg_token words = elim (split_tokens (λ t. str_eq t.value (bytes "&")) words.tokens) [
  | none ↦ ok (false, words)
  | some (before, at, behind) ↦ do
    prev ← last_token before
    ok (true, record { size = (words.size + 2 ^ 64 - 1) % 2 ^ 64; tokens = before })
]

-- The tokens without a text are taken out, each of which lowers the size.
unfoldable pub remove_from : List Token → ℕ → TokenList
remove_from [] size = record { size = size; tokens = [] }
remove_from (t ∷ ts) size = elim t.value [
  | [] ↦ remove_from ts ((size + 2 ^ 64 - 1) % 2 ^ 64)
  | c ∷ cs ↦ let rest = remove_from ts size in record rest { tokens = t ∷ rest.tokens }
]

unfoldable pub remove_blanks : TokenList → TokenList
unfolding remove_from
remove_blanks list = remove_from list.tokens list.size

-- The tokens before and behind the place of a split are the tokens of the list.
abbrev Whole : List Token → Option (List Token × Token × List Token) → Type 0
Whole ts none = Unit {0}
Whole ts (some (before, at, behind)) = before ++ at ∷ behind ≡ ts

split_tokens-Whole : (test : Token → Bool) (ts : List Token) → Whole ts (split_tokens test ts)
unfolding split_tokens
split_tokens-Whole test [] = tt
split_tokens-Whole test (t ∷ ts) = elim (Bool-cases (test t)) [
  | inl here ↦ rw (split_tokens, here) refl
  | inr past ↦ rw (split_tokens, past) (under (split_tokens test ts) (split_tokens-Whole test ts))
]
  where
    under :
        (o : Option (List Token × Token × List Token))
        → Whole ts o
        → Whole
            (t ∷ ts)
            (elim o [ none ↦ none | some (before, at, behind) ↦ some (t ∷ before, at, behind) ])
    under none h = tt
    under (some (before, at, behind)) h = ap (◌∷◌ t) h

-- Where a list is split, its two parts make up the list; otherwise the source is as before.
abbrev pub Splits : TokenList → Split → Type 0
Splits src (false, dst', src') = src' ≡ src
Splits src (true, dst', src') = src'.tokens ++ dst'.tokens ≡ src.tokens

last_token-Stops : (ts : List Token) → Stops (λ _. Unit {0}) (last_token ts)
unfolding last_token
last_token-Stops [] = tt
last_token-Stops (t ∷ []) = tt
last_token-Stops (t ∷ u ∷ us) = last_token-Stops (u ∷ us)

-- `split_on_operator` splits a list, or leaves it, or faults for an operator that comes first.
pub split_on_operator-Splits :
    (dst src : TokenList) → Stops (Splits src) (split_on_operator dst src)
unfolding split_on_operator counted
split_on_operator-Splits dst src =
    at_split (split_tokens (λ t. is_ao_operator t.type) src.tokens)
      (split_tokens-Whole (λ t. is_ao_operator t.type) src.tokens)
  where
    at_split :
        (o : Option (List Token × Token × List Token))
        → Whole src.tokens o
        → Stops (Splits src) (elim o [
          | none ↦ ok (false, dst, src)
          | some (before, at, behind) ↦
              last_token before >>= λ prev. ok (true, counted (at ∷ behind), counted before)
        ])
    at_split none h = refl
    at_split (some (before, at, behind)) h =
        Stops-bind (Splits src) (last_token before) _ (last_token-Stops before) (λ prev k. h)
