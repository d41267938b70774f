-- ===== src/Vars/Tests.antt =====
-- src/vars.c: the theorems at small tables.
use codecrafters_shell_c.Common.{◌≡◌, arith}
use codecrafters_shell_c.Common.Outcome.{ok, fault}
use codecrafters_shell_c.Vars.Store.{assignment_split}
use codecrafters_shell_c.Vars.Laws.{assignment_split_lem}
use codecrafters_shell_c.Common.{true, [], ◌∷◌, some}
use codecrafters_shell_c.Common.Bytes.{bytes}
use codecrafters_shell_c.Common.Outcome.{Ends}
use codecrafters_shell_c.Hashtable.Buckets.{BucketNode, BucketList}
use codecrafters_shell_c.Hashtable.Table.{HashTable}
use codecrafters_shell_c.Vars.Store.{fork_exported}
use codecrafters_shell_c.Vars.Laws.{OnlyExported, fork_exported-OnlyExported}

abbrev home : BucketNode
home = record { key = bytes "HOME"; value = bytes "/"; exported = true }

abbrev home_list : BucketList
home_list = record { size = 0; head = home ∷ [] }

abbrev home_table : HashTable
home_table = record { size = 1; capacity = 2; buckets = home_list ∷ home_list ∷ [] }

fork_exported-OnlyExported_example : Ends OnlyExported (fork_exported (some home_table))
fork_exported-OnlyExported_example = fork_exported-OnlyExported (some home_table)

assignment_split_lem_example :
    (assignment_split (0 ∷ bytes "junk") (bytes "A=x=y") ≡ ok (bytes "A", bytes "x=y"))
    × (assignment_split (bytes "junk") (bytes "A=x=y") ≡ fault)
assignment_split_lem_example =
    assignment_split_lem (bytes "A") (bytes "x=y") (bytes "junk") (bytes "junk") (omega arith, tt)
      (omega arith, (omega arith, (omega arith, tt)))
      (omega arith, (omega arith, (omega arith, (omega arith, tt))))
