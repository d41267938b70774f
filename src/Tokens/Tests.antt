-- ===== src/Tokens/Tests.antt =====
-- src/tokenlist.c on small lists.
use codecrafters_shell_c.Common.{◌≡◌, refl, [], ◌∷◌}
use codecrafters_shell_c.Common.Bytes.{bytes}
use codecrafters_shell_c.Common.Outcome.{ok, fault}
use codecrafters_shell_c.Tokens.{TokenList, tok_word, newtok, tokenlist_copyof}

abbrev echo_list : TokenList
echo_list = record { size = 1; tokens = newtok tok_word (bytes "echo") ∷ [] }

copied_list : tokenlist_copyof echo_list ≡ ok echo_list
unfolding tokenlist_copyof
copied_list = refl

copied_empty : tokenlist_copyof (record { size = 0; tokens = [] }) ≡ fault
unfolding tokenlist_copyof
copied_empty = refl
