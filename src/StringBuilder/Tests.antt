-- ===== src/StringBuilder/Tests.antt =====
-- src/stringbuilder.c on short texts, and the theorems about it at such texts.
use codecrafters_shell_c.Common.{◌≡◌, refl, [], ◌∷◌, ◌++◌, arith}
use codecrafters_shell_c.Common.Bytes.{bytes}
use codecrafters_shell_c.Common.Outcome.{ok, fault, Ends, ◌>>=◌}
use codecrafters_shell_c.StringBuilder.Buffer.{
  write_at, write_all, digits_from, digits, StringBuilder, sb_new_sized, sb_appends, sb_appendl,
  sb_takestring, c_text, filled,
}
use codecrafters_shell_c.StringBuilder.Laws.{Holds, sb_appends-Holds}
use codecrafters_shell_c.StringBuilder.Taken.{append_bytes, sb_takestring-append_bytes}

abbrev two_of_eight : StringBuilder
two_of_eight = record { capacity = 8; size = 2; str = bytes "hi" ++ 0 ∷ 0 ∷ 0 ∷ 0 ∷ 0 ∷ 0 ∷ [] }

two_of_eight-Holds : Holds two_of_eight (bytes "hi")
unfolding filled
two_of_eight-Holds = record {
  block = refl;
  sized = refl;
  within = omega arith;
  some_room = omega arith;
  small = omega arith;
}

sb_appends-Holds_example :
    Ends
      (λ sb'. Holds sb' (bytes "hi, there are ten more"))
      (sb_appends two_of_eight (bytes ", there are ten more"))
sb_appends-Holds_example =
    sb_appends-Holds two_of_eight (bytes "hi") (bytes ", there are ten more") two_of_eight-Holds
      (omega arith) (omega arith)

sb_takestring-append_bytes_example :
    Ends
      (λ sb. c_text (sb_takestring sb).0 ≡ ok (bytes "ls"))
      (append_bytes 170 (sb_new_sized 3) (bytes "ls"))
    × Ends
        (λ sb. c_text (sb_takestring sb).0 ≡ fault)
        (append_bytes 170 (sb_new_sized 2) (bytes "ls"))
sb_takestring-append_bytes_example =
    sb_takestring-append_bytes 170 3 (bytes "ls") (omega arith, (omega arith, tt)) (omega arith)
      (omega arith) (omega arith)

-- A number that nearly fills the block loses its last digit.
short_number : (do sb ← sb_appendl (sb_new_sized 4) 123; c_text sb.str) ≡ ok (bytes "12")
unfolding sb_appendl sb_new_sized filled digits digits_from write_all write_at c_text
short_number = refl
