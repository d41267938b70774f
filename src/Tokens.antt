-- ===== src/Tokens.antt =====
-- src/tokenlist.h and src/tokenlist.c: token types, tokens, and the counted list of tokens.
-- A chain of `Token` nodes is the list of its tokens; `malloc` and `strdup` succeed, and the
-- deleting functions have no counterpart.
pub mod Laws
mod Tests
use codecrafters_shell_c.Common.{ℕ, suc, ◌+◌, Bool, List, [], ◌∷◌, ◌++◌, ◌==◌}
use codecrafters_shell_c.Common.Bytes.{Bytes}
use codecrafters_shell_c.Common.Outcome.{Outcome, ok, fault}

pub data TokenType : Type 0 where
  tok_word tok_assignment_word tok_pipe tok_and tok_or tok_semi tok_amp : TokenType
  tok_lparen tok_rparen tok_lbrace tok_rbrace : TokenType
  tok_redir_in tok_redir_out tok_redir_append tok_redir_heredoc : TokenType
  tok_newline tok_reserved_word tok_cmdsub_start tok_cmdsub_end tok_eof tok_err : TokenType

-- The enumerators in order; TOK_EOF and TOK_ERR (-1 and -2 in C) come last.
abbrev pub type_code : TokenType → ℕ
type_code tok_word = 0
type_code tok_assignment_word = 1
type_code tok_pipe = 2
type_code tok_and = 3
type_code tok_or = 4
type_code tok_semi = 5
type_code tok_amp = 6
type_code tok_lparen = 7
type_code tok_rparen = 8
type_code tok_lbrace = 9
type_code tok_rbrace = 10
type_code tok_redir_in = 11
type_code tok_redir_out = 12
type_code tok_redir_append = 13
type_code tok_redir_heredoc = 14
type_code tok_newline = 15
type_code tok_reserved_word = 16
type_code tok_cmdsub_start = 17
type_code tok_cmdsub_end = 18
type_code tok_eof = 19
type_code tok_err = 20

-- `a == b` on token types.
abbrev pub same_type : TokenType → TokenType → Bool
same_type a b = type_code a == type_code b

pub record Token : Type 0 where
  pub type : TokenType
  pub value : Bytes
  pub fd : ℕ

abbrev pub token_new : TokenType → Bytes → ℕ → Token
token_new type text fd = record { type = type; value = text; fd = fd }

-- The macro of the same name: a token whose fd is not meant to be read.
abbrev pub newtok : TokenType → Bytes → Token
newtok type text = token_new type text 0

pub record TokenList : Type 0 where
  pub size : ℕ
  pub tokens : List Token

unfoldable pub tokenlist_new_empty : TokenList
tokenlist_new_empty = record { size = 0; tokens = [] }

unfoldable pub tokenlist_new : TokenType → Bytes → TokenList
tokenlist_new type word = record { size = 1; tokens = newtok type word ∷ [] }

-- The walk over a chain, which `tokenlist_count` and `token_count` share.
unfoldable pub token_count : List Token → ℕ
token_count [] = 0
token_count (t ∷ ts) = token_count ts + 1

unfoldable pub tokenlist_count : TokenList → ℕ
unfolding token_count
tokenlist_count list = token_count list.tokens

unfoldable pub tokenlist_from_tokens : List Token → TokenList
unfolding token_count
tokenlist_from_tokens head = record { size = token_count head; tokens = head }

-- The first node of an empty list sets the size to 1, whatever it was.
append_word : List Token → ℕ → Token → TokenList
append_word [] size token = record { size = 1; tokens = token ∷ [] }
append_word (t ∷ ts) size token = record { size = size + 1; tokens = (t ∷ ts) ++ token ∷ [] }

unfoldable pub tokenlist_append : TokenList → TokenType → Bytes → TokenList
unfolding append_word
tokenlist_append list type word = append_word list.tokens list.size (newtok type word)

-- `token` is a chain: a token and the nodes behind it.
unfoldable pub tokenlist_append_tok : TokenList → List Token → TokenList
unfolding token_count
tokenlist_append_tok list chain = record list {
  size = list.size + token_count chain;
  tokens = list.tokens ++ chain;
}

-- The loop of `tokenlist_copyof` behind the first node.
copy_chain : List Token → List Token
copy_chain [] = []
copy_chain (t ∷ ts) = token_new t.type t.value t.fd ∷ copy_chain ts

-- The first node is read without a test: an empty list is a null dereference.
copy_from : List Token → ℕ → Outcome TokenList
unfolding copy_chain
copy_from [] size = fault
copy_from (t ∷ ts) size =
    ok (record { size = size; tokens = token_new t.type t.value t.fd ∷ copy_chain ts })

unfoldable pub tokenlist_copyof : TokenList → Outcome TokenList
unfolding copy_from
tokenlist_copyof original = copy_from original.tokens original.size
