-- ===== src/Tokens/Laws.antt =====
-- src/tokenlist.c: what the appending and copying functions leave in a list, and its stored size.
use codecrafters_shell_c.Common.{
  ℕ, ◌≡◌, refl, ap, List, [], ◌∷◌, ◌++◌, arith, length, length-append,
}
use codecrafters_shell_c.Common.Bytes.{Bytes}
use codecrafters_shell_c.Common.Outcome.{ok, fault}
use codecrafters_shell_c.Tokens.{
  TokenType, Token, TokenList, newtok, token_count, tokenlist_append, tokenlist_append_tok,
  tokenlist_copyof, append_word, copy_chain, copy_from,
}

pub token_count-length : (ts : List Token) → token_count ts ≡ length ts
unfolding token_count
token_count-length [] = refl
token_count-length (t ∷ ts) = omega (arith, token_count-length ts)

-- The header's invariant: `size` is the number of nodes reachable from `head`.
abbrev pub IsCounted : TokenList → Type 0
IsCounted list = list.size ≡ length list.tokens

append_word-tokens :
    (ts : List Token) (size : ℕ) (t : Token)
    → size ≡ length ts
    → ((append_word ts size t).tokens ≡ ts ++ t ∷ []) × IsCounted (append_word ts size t)
unfolding append_word
append_word-tokens [] size t h = (refl, refl)
append_word-tokens (u ∷ ts) size t h = (refl, omega (arith, length-append ts (t ∷ [])))

-- On a list whose size is right, both appending functions put what they are given behind the
-- tokens there, and leave the size right.
pub tokenlist_append-IsCounted :
    (list : TokenList) (type : TokenType) (word : Bytes) (chain : List Token)
    → IsCounted list
    → ((tokenlist_append list type word).tokens ≡ list.tokens ++ newtok type word ∷ [])
      × IsCounted (tokenlist_append list type word)
      × ((tokenlist_append_tok list chain).tokens ≡ list.tokens ++ chain)
      × IsCounted (tokenlist_append_tok list chain)
unfolding tokenlist_append tokenlist_append_tok
tokenlist_append-IsCounted list type word chain h =
    let word_added = append_word-tokens list.tokens list.size (newtok type word) h in
    (
      word_added.0,
      word_added.1,
      refl,
      omega (arith, h, length-append list.tokens chain, token_count-length chain),
    )

pub tokenlist_append-tokens :
    (list : TokenList) (t : Token)
    → (tokenlist_append_tok list (t ∷ [])).tokens ≡ list.tokens ++ t ∷ []
unfolding tokenlist_append_tok
tokenlist_append-tokens list t = refl

copy_chain-eq : (ts : List Token) → copy_chain ts ≡ ts
unfolding copy_chain
copy_chain-eq [] = refl
copy_chain-eq (t ∷ ts) = ap (◌∷◌ t) (copy_chain-eq ts)

-- The copy of a list with a token in it is that list, whatever its size says; the copy of an empty
-- list is a fault.
pub tokenlist_copyof-eq :
    (size : ℕ) (t : Token) (ts : List Token)
    → (tokenlist_copyof (record { size = size; tokens = t ∷ ts })
        ≡ ok (record { size = size; tokens = t ∷ ts }))
      × (tokenlist_copyof (record { size = size; tokens = [] }) ≡ fault)
unfolding tokenlist_copyof copy_from
tokenlist_copyof-eq size t ts = (rw (copy_chain-eq ts) refl, refl)
