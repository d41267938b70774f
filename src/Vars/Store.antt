-- ===== src/Vars/Store.antt =====
-- src/vars.c and `assignment_split` of src/parser.c: the operations on the table of variables.
use codecrafters_shell_c.StringBuilder.Buffer.{c_text}
use codecrafters_shell_c.Common.{take, length, ◌++◌, ◌*◌, ◌+◌}
use codecrafters_shell_c.Common.{
  ℕ, zero, suc, Bool, true, false, List, [], ◌∷◌, ◌==◌, Option, none, some, length,
}
use codecrafters_shell_c.Common.Bytes.{Bytes}
use codecrafters_shell_c.Common.Outcome.{Outcome, ok, fault, out_of_fuel, ◌>>=◌}
use codecrafters_shell_c.Hashtable.Table.{
  HashTable, ht_new, ht_put, ht_get, ht_getn, ht_contains, ht_remove,
}
use codecrafters_shell_c.Hashtable.Items.{ItemNode, ItemList, il_pull, ht_entryset}

-- `variable_table`
abbrev pub Vars : Type 0
Vars = Option HashTable

unfoldable pub var_table_check : Vars → HashTable
var_table_check none = ht_new
var_table_check (some table) = table

unfoldable pub var_lookup : Vars → Bytes → Outcome (Option Bytes × Vars)
unfolding var_table_check
var_lookup vars name =
    let table = var_table_check vars in do result ← ht_get table name; ok (result, some table)

unfoldable pub var_lookupn : Vars → Bytes → ℕ → Outcome (Option Bytes × Vars)
unfolding var_table_check
var_lookupn vars name count =
    let table = var_table_check vars in
    do result ← ht_getn table name count; ok (result, some table)

unfoldable pub var_assign : Vars → Bytes → Bytes → Outcome Vars
unfolding var_table_check
var_assign vars name value = do
  table ← ht_put (var_table_check vars) name value false
  ok (some table)

unfoldable pub var_export : Vars → Bytes → Bytes → Outcome Vars
unfolding var_table_check
var_export vars name value = do
  table ← ht_put (var_table_check vars) name value true
  ok (some table)

unfoldable pub remove_if : Bool → HashTable → Bytes → Outcome (Bool × Vars)
remove_if true table name = do table' ← ht_remove table name; ok (true, some table')
remove_if false table name = ok (false, some table)

unfoldable pub var_unassign : Vars → Bytes → Outcome (Bool × Vars)
unfolding var_table_check remove_if
var_unassign vars name = do
  there ← ht_contains (var_table_check vars) name
  remove_if there (var_table_check vars) name

-- The text before the first `=` and the text behind it.
unfoldable pub split_at_equals : Bytes → Option (Bytes × Bytes)
split_at_equals [] = none
split_at_equals (c ∷ cs) = elim (c == b'=') [
  | true ↦ some ([], cs)
  | false ↦ elim (split_at_equals cs) [ none ↦ none | some p ↦ some (c ∷ p.0, p.1) ]
]

-- Without a `=` both parts are empty. `fresh` is what a new block holds: no NUL is written behind
-- the second part, which is read as a string up to one, or beyond its block.
unfoldable pub assignment_split : Bytes → Bytes → Outcome (Bytes × Bytes)
unfolding split_at_equals c_text
assignment_split fresh assignment = elim (split_at_equals assignment) [
  | none ↦ do value ← c_text (take 1 fresh); ok ([], value)
  | some p ↦ do value ← c_text (p.1 ++ take (7 * length p.1 + 1) fresh); ok (p.0, value)
]

unfoldable pub import_all : Bytes → List Bytes → HashTable → Outcome HashTable
unfolding assignment_split
import_all fresh [] table = ok table
import_all fresh (e ∷ es) table = do
  (name, value) ← assignment_split fresh e
  table' ← ht_put table name value true
  import_all fresh es table'

-- `environ` is the list of the strings that the process is given.
unfoldable pub var_init_from_environ : Bytes → List Bytes → Vars → Outcome Vars
unfolding import_all var_table_check
var_init_from_environ fresh environ vars = do
  table ← import_all fresh environ (var_table_check vars)
  ok (some table)

-- One node of the old set. A null pointer that `il_pull` gives is read.
unfoldable pub keep_exported : Option ItemNode → HashTable → Outcome HashTable
keep_exported none copy = fault
keep_exported (some node) copy = elim (node.exported) [
  | true ↦ ht_put copy node.key node.value node.exported
  | false ↦ ok copy
]

unfoldable pub drain : ℕ → ItemList → HashTable → Outcome HashTable
unfolding keep_exported
drain zero old_set copy = out_of_fuel
drain (suc f) old_set copy = elim old_set.head [
  | [] ↦ ok copy
  | n ∷ ns ↦
      il_pull old_set >>= λ (node, rest). keep_exported node copy >>= λ copy'. drain f rest copy'
]

unfoldable pub fork_exported : Vars → Outcome Vars
unfolding drain var_table_check
fork_exported vars =
    let old_set = ht_entryset (var_table_check vars) in
    do copy ← drain (suc (length old_set.head)) old_set ht_new; ok (some copy)
