-- ===== src/Completion/Laws.antt =====
-- src/completion.c: what is looked up after a registration.
use codecrafters_shell_c.Common.{
  suc, ◌≤◌, ◌<◌, ◌≡◌, ◌≢◌, refl, sym, ◌∙◌, ap, true, false, [], ◌∷◌, ◌++◌, leb, Option, none, some,
  length, arith, inl, inr, Bool-cases,
}
use codecrafters_shell_c.Common.Bytes.{Bytes, str_eq}
use codecrafters_shell_c.Hashtable.Lookup.{str_eq_refl, str_eq-ne, str_eq-true}
use codecrafters_shell_c.Completion.Registry.{
  CompletionRegistration, Registry, max_completions, lookup_completion, replace_script,
  register_completion,
}

-- What a registration makes of a registry, seen from the command and from another one.
Registered : Bytes → Bytes → Bytes → Registry → Registry → Type 0
Registered command script_path other before after =
    (lookup_completion after command ≡ some script_path)
    × (lookup_completion after other ≡ lookup_completion before other)
    × (length after ≤ suc (length before))

lookup_here :
    (r : CompletionRegistration) (rs : Registry) (c : Bytes)
    → str_eq r.command c ≡ true
    → lookup_completion (r ∷ rs) c ≡ some r.script_path
unfolding lookup_completion
lookup_here r rs c h = rw (lookup_completion, h) refl

lookup_past :
    (r : CompletionRegistration) (rs : Registry) (c : Bytes)
    → str_eq r.command c ≡ false
    → lookup_completion (r ∷ rs) c ≡ lookup_completion rs c
unfolding lookup_completion
lookup_past r rs c h = rw (lookup_completion, h) refl

lookup_under :
    (r : CompletionRegistration) (rs rs' : Registry) (c : Bytes)
    → lookup_completion rs' c ≡ lookup_completion rs c
    → lookup_completion (r ∷ rs') c ≡ lookup_completion (r ∷ rs) c
lookup_under r rs rs' c e = elim (Bool-cases (str_eq r.command c)) [
  | inl h ↦ lookup_here r rs' c h ∙ sym (lookup_here r rs c h)
  | inr h ↦ lookup_past r rs' c h ∙ e ∙ sym (lookup_past r rs c h)
]

-- The registry that the two loops leave where there is room.
put_entry : Registry → Bytes → Bytes → Registry
put_entry [] c s = record { command = c; script_path = s } ∷ []
put_entry (r ∷ rs) c s = elim (str_eq r.command c) [
  | true ↦ record r { script_path = s } ∷ rs
  | false ↦ r ∷ put_entry rs c s
]

pick : Option Registry → Registry → Registry
pick none rs = rs
pick (some rs') rs = rs'

pick_replaced :
    (rs : Registry) (c s : Bytes)
    → pick (replace_script rs c s) (rs ++ record { command = c; script_path = s } ∷ [])
      ≡ put_entry rs c s
unfolding replace_script put_entry pick
pick_replaced [] c s = refl
pick_replaced (r ∷ rs) c s = elim (Bool-cases (str_eq r.command c)) [
  | inl h ↦ rw (replace_script, put_entry, h) refl
  | inr h ↦ rw (replace_script, put_entry, h) (under (replace_script rs c s) (pick_replaced rs c s))
]
  where
    under :
        (o : Option Registry)
        → pick o (rs ++ record { command = c; script_path = s } ∷ []) ≡ put_entry rs c s
        → pick
            (elim o [ none ↦ none | some rs' ↦ some (r ∷ rs') ])
            (r ∷ (rs ++ record { command = c; script_path = s } ∷ []))
          ≡ r ∷ put_entry rs c s
    under none e = ap (◌∷◌ r) e
    under (some rs') e = ap (◌∷◌ r) e

put_entry-Registered :
    (rs : Registry) (c s other : Bytes) → c ≢ other → Registered c s other rs (put_entry rs c s)
unfolding put_entry Registered
put_entry-Registered [] c s other d = (
  lookup_here (record { command = c; script_path = s }) [] c (str_eq_refl c),
  lookup_past (record { command = c; script_path = s }) [] other (str_eq-ne c other d),
  omega arith,
)
put_entry-Registered (r ∷ rs) c s other d = elim (Bool-cases (str_eq r.command c)) [
  | inl h ↦
      rw (put_entry, h)
        (
          lookup_here (record r { script_path = s }) rs c h,
          lookup_past (record r { script_path = s }) rs other (apart h)
              ∙ sym (lookup_past r rs other (apart h)),
          omega arith,
        )
  | inr h ↦
      let (found, same, le) = put_entry-Registered rs c s other d in
      rw (put_entry, h)
        (
          lookup_past r (put_entry rs c s) c h ∙ found,
          lookup_under r rs (put_entry rs c s) other same,
          omega arith,
        )
]
  where
    apart : str_eq r.command c ≡ true → str_eq r.command other ≡ false
    apart h = str_eq-ne r.command other (λ e. d (sym (str_eq-true r.command c h) ∙ e))

register_completion-put_entry :
    (rs : Registry) (c s : Bytes)
    → length rs < max_completions
    → register_completion rs c s ≡ put_entry rs c s
unfolding register_completion pick
register_completion-put_entry rs c s room = picked (replace_script rs c s) ∙ pick_replaced rs c s
  where
    few : leb max_completions (length rs) ≡ false
    few = ground arith

    picked :
        (o : Option Registry)
        → (elim o [
          | none ↦ elim (leb max_completions (length rs)) [
            | true ↦ rs
            | false ↦ rs ++ record { command = c; script_path = s } ∷ []
          ]
          | some rs' ↦ rs'
        ])
          ≡ pick o (rs ++ record { command = c; script_path = s } ∷ [])
    picked none = rw few refl
    picked (some rs') = refl

-- Where the registry has room, the script that is registered for a command is the one that is
-- looked up for it, whether there was one before or not; another command keeps its script, and the
-- entries are at most 64.
pub register_completion_lem :
    (registry : Registry) (command script_path other : Bytes)
    → length registry < max_completions
    → command ≢ other
    → (lookup_completion (register_completion registry command script_path) command
        ≡ some script_path)
      × (lookup_completion (register_completion registry command script_path) other
          ≡ lookup_completion registry other)
      × (length (register_completion registry command script_path) ≤ max_completions)
unfolding Registered
register_completion_lem registry command script_path other room d =
    let (found, same, le) = put_entry-Registered registry command script_path other d in
    rw (register_completion-put_entry registry command script_path room) (found, same, omega arith)
