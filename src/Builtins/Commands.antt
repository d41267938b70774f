-- ===== src/Builtins/Commands.antt =====
-- src/builtins.c: the commands but for `history`, `jobs` and `exit`. Each takes `argv`, of which `argc`
-- is the length, and the state that it works on, and gives its status, the 32-bit pattern of an
-- `int`. `getcwd` and `chdir` are parameters.
use codecrafters_shell_c.Common.{
  ℕ, ◌-◌, ◌^◌, true, false, List, [], ◌∷◌, ◌++◌, Option, none, some, if◌then◌else◌,
}
use codecrafters_shell_c.Common.Bytes.{Bytes, bytes, str_eq}
use codecrafters_shell_c.Common.Outcome.{Outcome, ok, fault, ◌>>=◌}
use codecrafters_shell_c.Hashtable.Table.{HashTable, ht_new, ht_put, ht_get, ht_contains, strn_eq}
use codecrafters_shell_c.Completion.Registry.{
  Registry, lookup_completion, register_completion, unregister_completion,
}
use codecrafters_shell_c.Vars.Store.{split_at_equals}
use codecrafters_shell_c.Builtins.Table.{find_builtin}
use codecrafters_shell_c.Builtins.Names.{valid_variable_name}

-- `variable_table` of src/expand.c, the registry of src/completion.c, and what was printed.
pub record Shell : Type 0 where
  pub variable_table : Option HashTable
  pub completion_registry : Registry
  pub out : Bytes
  pub err : Bytes

-- The status -1.
abbrev pub minus_one : ℕ
minus_one = 2 ^ 32 - 1

unfoldable pub fprintf_out : Shell → Bytes → Shell
fprintf_out sh text = record sh { out = sh.out ++ text }

unfoldable pub fprintf_err : Shell → Bytes → Shell
fprintf_err sh text = record sh { err = sh.err ++ text }

-- The table that is there, or a new one.
unfoldable pub table_of : Option HashTable → HashTable
unfolding ht_new
table_of none = ht_new
table_of (some table) = table

unfoldable pub declare_variable : Shell → Bytes → Bytes → Outcome (ℕ × Shell)
unfolding table_of fprintf_err
declare_variable sh name declaration =
    if valid_variable_name name
    then (do
      table ← ht_put (table_of sh.variable_table) name declaration false
      ok (0, record sh { variable_table = some table }))
    else ok (
      minus_one,
      fprintf_err sh (
          bytes "declare: `"
          ++ name
          ++ bytes "="
          ++ declaration
          ++ bytes "': not a valid identifier\n"),
    )

-- A null pointer that is printed is a fault.
unfoldable pub print_variable : Shell → Bytes → Outcome (ℕ × Shell)
unfolding table_of fprintf_err fprintf_out
print_variable sh variable_name =
    let table = table_of sh.variable_table in
    let sh' : Shell = record sh { variable_table = some table } in
    do
      found ← ht_contains table variable_name
      value ← ht_get table variable_name
      elim found [
        | false ↦ ok (
          minus_one,
          fprintf_err sh' (bytes "declare: " ++ variable_name ++ bytes ": not found\n"),
        )
        | true ↦ elim value [
          | none ↦ fault
          | some text ↦ ok (
            0,
            fprintf_out sh'
                (bytes "declare -- " ++ variable_name ++ bytes "=\"" ++ text ++ bytes "\"\n"),
          )
        ]
      ]

-- `strsep` cuts the text at its first `=`. Where there is none the name is the whole text, and is
-- freed before `valid_variable_name` reads it.
unfoldable pub builtin_declare : List Bytes → Shell → Outcome (ℕ × Shell)
unfolding declare_variable print_variable strn_eq
builtin_declare (_ ∷ arg ∷ []) sh = elim (split_at_equals arg) [
  | none ↦ fault
  | some pair ↦ declare_variable sh pair.0 pair.1
]
builtin_declare (_ ∷ flag ∷ name ∷ []) sh =
    if strn_eq flag (bytes "-p") 2 then print_variable sh name else ok (0, sh)
builtin_declare _ sh = ok (0, sh)

unfoldable pub complete_print : List Bytes → Shell → ℕ × Shell
unfolding fprintf_err fprintf_out lookup_completion
complete_print (self ∷ _ ∷ command ∷ _) sh =
    elim (lookup_completion sh.completion_registry command) [
      | some path ↦
          (0, fprintf_out sh (bytes "complete -C '" ++ path ++ bytes "' " ++ command ++ bytes "\n"))
      | none ↦ (
        1,
        fprintf_err sh (self ++ bytes ": " ++ command ++ bytes ": no completion specification\n"),
      )
    ]
complete_print _ sh = (1, sh)

unfoldable pub complete_register : List Bytes → Shell → ℕ × Shell
unfolding fprintf_err
complete_register (_ ∷ _ ∷ script ∷ command ∷ _) sh = (
  0,
  record sh { completion_registry = register_completion sh.completion_registry command script },
)
complete_register _ sh =
    (1, fprintf_err sh (bytes "complete: -C requires a script path and command\n"))

unfoldable pub complete_remove : List Bytes → Shell → ℕ × Shell
unfolding fprintf_err
complete_remove (_ ∷ _ ∷ command ∷ _) sh =
    (1, record sh { completion_registry = unregister_completion sh.completion_registry command })
complete_remove _ sh = (1, fprintf_err sh (bytes "complete: -r requires a command\n"))

unfoldable pub builtin_complete : List Bytes → Shell → ℕ × Shell
unfolding complete_print complete_register complete_remove str_eq
builtin_complete (self ∷ flag ∷ args) sh =
    if str_eq flag (bytes "-p")
    then complete_print (self ∷ flag ∷ args) sh
    else if str_eq flag (bytes "-C")
    then complete_register (self ∷ flag ∷ args) sh
    else if str_eq flag (bytes "-r")
    then complete_remove (self ∷ flag ∷ args) sh
    else (1, sh)
builtin_complete _ sh = (1, sh)

-- The rounds of the loop, from index 1 on.
unfoldable pub echo_loop : List Bytes → Bytes
echo_loop [] = []
echo_loop (arg ∷ []) = arg ++ bytes "\n"
echo_loop (arg ∷ arg' ∷ args) = arg ++ bytes " " ++ echo_loop (arg' ∷ args)

unfoldable pub builtin_echo : List Bytes → Shell → ℕ × Shell
unfolding echo_loop fprintf_out
builtin_echo [] sh = (0, sh)
builtin_echo (_ ∷ args) sh = (0, fprintf_out sh (echo_loop args))

unfoldable pub builtin_type : List Bytes → Shell → ℕ × Shell
unfolding fprintf_out
builtin_type (_ ∷ name ∷ _) sh = elim (find_builtin name) [
  | none ↦ (0, fprintf_out sh (name ++ bytes ": not found\n"))
  | some cmd ↦ (0, fprintf_out sh (name ++ bytes " is a shell builtin\n"))
]
builtin_type _ sh = (0, sh)

-- `chdir` says whether it changed the directory, and `getcwd` gives its name where it can.
module _ {Dir : Type 0} (chdir : Bytes → Dir → Option Dir) (getcwd : Dir → Option Bytes) where
  unfoldable pub builtin_cd : List Bytes → Shell → Dir → ℕ × Shell × Dir
  unfolding fprintf_out
  builtin_cd (_ ∷ target ∷ _) sh dir = elim (chdir target dir) [
    | some dir' ↦ (0, sh, dir')
    | none ↦ (
      minus_one,
      fprintf_out sh (bytes "cd: " ++ target ++ bytes ": No such file or directory\n"),
      dir,
    )
  ]
  builtin_cd _ sh dir = (minus_one, sh, dir)

  unfoldable pub builtin_pwd : List Bytes → Shell → Dir → ℕ × Shell
  unfolding fprintf_out
  builtin_pwd argv sh dir = elim (getcwd dir) [
    | some buf ↦ (0, fprintf_out sh (buf ++ bytes "\n"))
    | none ↦ (0, sh)
  ]
