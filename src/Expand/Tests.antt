-- ===== src/Expand/Tests.antt =====
-- src/expand.c on short words, and the theorems about it at such words.
use codecrafters_shell_c.Parser.Parse.{Allocator}
use codecrafters_shell_c.Common.{◌*◌, ◌+◌, ◌/◌}
use codecrafters_shell_c.Common.Outcome.{Ends, ◌>>=◌}
use codecrafters_shell_c.Expand.Plain.{AllPlain, expand_word-plain}
use codecrafters_shell_c.StringBuilder.Buffer.{
  c_text, sb_new_sized, sb_appendc, sb_takestring, filled,
}
use codecrafters_shell_c.Common.{◌≡◌, refl, true, false, List, [], ◌∷◌, Option, some, arith}
use codecrafters_shell_c.Common.Bytes.{Bytes, bytes, str_eq}
use codecrafters_shell_c.Common.Outcome.{Outcome, ok, fault}
use codecrafters_shell_c.Syntax.{ShellList}
use codecrafters_shell_c.Hashtable.Buckets.{
  find_node, fnv_1a, fnv_1a_sized, fnv_from, fnv_sized_from, fnv_round,
}
use codecrafters_shell_c.Hashtable.Table.{
  HashTable, ht_get, ht_getn, bucket_at, find_node_n, value_of, strn_eq,
}
use codecrafters_shell_c.Vars.Store.{Vars, var_table_check, var_lookup, var_lookupn}
use codecrafters_shell_c.Expand.Word.{
  expand_word, word_round, until, strip_newlines, append_reads, append_value, lookup, lookupn,
}
use codecrafters_shell_c.Common.{none}
use codecrafters_shell_c.StringBuilder.Buffer.{write_at, write_all, find_nul}
use codecrafters_shell_c.Expand.Older.{
  exptok, exp_loop, exp_round, exp_escape, exp_tilde, exp_dollar, exp_put, put, exptilde,
  is_escapable, expvar_braced,
}
use codecrafters_shell_c.Expand.Strings.{expand_string, string_variable, expand_home}
use codecrafters_shell_c.Expand.OlderLaws.{is_literal, all_literal, exptok-all_literal}

-- HOME and A share the only bucket.
abbrev small_table : HashTable
small_table = record {
  size = 2;
  capacity = 1;
  buckets =
      record {
        size = 0;
        head =
            record { key = bytes "HOME"; value = bytes "/h"; exported = true }
            ∷ record { key = bytes "AB"; value = bytes "x y"; exported = false }
            ∷ [];
      }
      ∷ [];
}

abbrev small_vars : Vars
small_vars = some small_table

-- Every command substitution prints `hi`.
abbrev says_hi : Option ShellList → Option (List Bytes)
says_hi list = some (bytes "h" ∷ bytes "i\n\n" ∷ [])

instance abbrev in_words : Allocator
in_words = record { usable = λ n. 8 * ((n + 7) / 8) }

-- The string that is read from the block.
expand : Bytes → Outcome Bytes
unfolding expand_word word_round until strip_newlines append_reads append_value lookup lookupn
    var_lookup var_lookupn var_table_check ht_get ht_getn bucket_at find_node find_node_n value_of
    strn_eq str_eq fnv_1a fnv_1a_sized fnv_from fnv_sized_from fnv_round
expand str = do block ← expand_word small_vars says_hi 0 str; c_text block

-- The quotes leave room for a NUL.
quoted : expand (bytes "'a b'") ≡ ok (bytes "a b")
unfolding expand c_text sb_new_sized sb_appendc sb_takestring filled write_at
quoted = refl

ordinary : AllPlain (bytes "ls")
ordinary = (
  (omega arith, omega arith, omega arith, omega arith, omega arith, omega arith),
  ((omega arith, omega arith, omega arith, omega arith, omega arith, omega arith), tt),
)

expand_word-plain_example :
    Ends
      (λ block. (block ≡ bytes "ls") × (c_text block ≡ fault))
      (expand_word small_vars says_hi 0 (bytes "ls"))
expand_word-plain_example =
    expand_word-plain small_vars says_hi 0 (bytes "ls") ordinary (omega arith) (omega arith)

plain-all_literal : all_literal (bytes "ls -l") ≡ true
unfolding all_literal is_literal
plain-all_literal = refl

exptok-all_literal_example : exptok small_vars none (bytes "ls -l") ≡ ok (bytes "ls -l")
exptok-all_literal_example = exptok-all_literal small_vars none (bytes "ls -l") plain-all_literal

exptok_quoted :
    exptok small_vars (some (bytes "/h")) (bytes "~/'a~'\\~${AB}\"\\x\"")
    ≡ ok (bytes "/h/a~~x y\\x")
unfolding exptok exp_loop exp_round exp_escape exp_tilde exp_dollar exp_put put exptilde
    is_escapable expvar_braced until var_lookup var_table_check ht_get bucket_at find_node value_of
    str_eq fnv_1a fnv_from fnv_round
exptok_quoted = refl

-- An escaped `$` is left out. A name in braces is looked up with the `${` in front of it.
string_escaped : expand_string small_vars (bytes "a\\$b") ≡ ok (bytes "ab")
unfolding expand_string
string_escaped = refl

string_null : expand_string small_vars (bytes "${AB}") ≡ fault
unfolding expand_string string_variable until var_lookup var_table_check ht_get bucket_at find_node
    value_of str_eq fnv_1a fnv_from fnv_round
string_null = refl

home_path :
    expand_home (0 ∷ 0 ∷ 0 ∷ 0 ∷ 0 ∷ 0 ∷ 0 ∷ 0 ∷ []) (some (bytes "/h")) (bytes "~a")
    ≡ ok (b'/' ∷ b'h' ∷ b'/' ∷ b'a' ∷ 0 ∷ 0 ∷ 0 ∷ 0 ∷ [])
unfolding expand_home write_all write_at find_nul
home_path = refl
