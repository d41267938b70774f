-- ===== src/Completion/Registry.antt =====
-- src/completion.c: `completion_registry`, an array of MAX_COMPLETIONS entries of which the first
-- `registry_count` are in use. Here it is the list of the entries in use, and the count its length.
use codecrafters_shell_c.Common.{
  ℕ, true, false, List, [], ◌∷◌, ◌++◌, leb, Option, none, some, length,
}
use codecrafters_shell_c.Common.Bytes.{Bytes, str_eq}

abbrev pub max_completions : ℕ
max_completions = 64

pub record CompletionRegistration : Type 0 where
  pub command : Bytes
  pub script_path : Bytes

abbrev pub Registry : Type 0
Registry = List CompletionRegistration

unfoldable pub lookup_completion : Registry → Bytes → Option Bytes
lookup_completion [] command = none
lookup_completion (r ∷ rs) command = elim (str_eq r.command command) [
  | true ↦ some r.script_path
  | false ↦ lookup_completion rs command
]

-- The first loop of `register_completion`: `none` where no entry is for the command.
unfoldable pub replace_script : Registry → Bytes → Bytes → Option Registry
replace_script [] command script_path = none
replace_script (r ∷ rs) command script_path = elim (str_eq r.command command) [
  | true ↦ some (record r { script_path = script_path } ∷ rs)
  | false ↦ elim (replace_script rs command script_path) [ none ↦ none | some rs' ↦ some (r ∷ rs') ]
]

unfoldable pub register_completion : Registry → Bytes → Bytes → Registry
unfolding replace_script
register_completion registry command script_path =
    elim (replace_script registry command script_path) [
      | some registry' ↦ registry'
      | none ↦ elim (leb max_completions (length registry)) [
        | true ↦ registry
        | false ↦ registry ++ record { command = command; script_path = script_path } ∷ []
      ]
    ]

-- The entries behind the first one for the command move down by one.
unfoldable pub drop_entry : Registry → Bytes → Registry
drop_entry [] command = []
drop_entry (r ∷ rs) command = elim (str_eq r.command command) [
  | true ↦ rs
  | false ↦ r ∷ drop_entry rs command
]

unfoldable pub unregister_completion : Registry → Bytes → Registry
unfolding drop_entry lookup_completion
unregister_completion registry command = elim (lookup_completion registry command) [
  | none ↦ registry
  | some script_path ↦ drop_entry registry command
]
