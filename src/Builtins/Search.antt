-- ===== src/Builtins/Search.antt =====
-- src/builtins.c and src/exec.c: what `find_builtin` finds.
use codecrafters_shell_c.Common.{
  if◌then◌else◌, subst, Bool, ℕ, zero, suc, ◌+◌, ◌/◌, ◌≡◌, ◌↔◌, refl, sym, ap, ◌∙◌, true, false, [],
  ◌∷◌, Option, none, some, length, ltb, get_elem?, inl, inr, Bool-cases, arith,
}
use codecrafters_shell_c.Common.Bytes.{Bytes, bytes}
use codecrafters_shell_c.Builtins.Table.{
  BuiltinE, cd, complete, declare, echo, exit, history, jobs, pwd, type, BuiltinCmd, builtins, Sign,
  negative, null, positive, strcmp, pstrcmp, bsearch, find_builtin,
}

none_apart :
    (b b' : Bool) (rest : Sign)
    → (if b then negative else if b' then positive else rest) ≡ null
    → (b ≡ false) × (b' ≡ false) × (rest ≡ null)
none_apart true b' rest h = absurd cc
none_apart false true rest h = absurd cc
none_apart false false rest h = (refl, refl, h)

strcmp-null : (xs ys : Bytes) → strcmp xs ys ≡ null → xs ≡ ys
unfolding strcmp
strcmp-null [] [] h = refl
strcmp-null [] (y ∷ ys) h = absurd cc
strcmp-null (x ∷ xs) [] h = absurd cc
strcmp-null (x ∷ xs) (y ∷ ys) h =
    let (x_le, y_le, rest) = none_apart (ltb x y) (ltb y x) (strcmp xs ys) h in
    let same : x ≡ y = ground (arith, x_le, y_le) in rw (same, strcmp-null xs ys rest) refl

-- What a search finds, if anything, has the name that was searched for.
abbrev Named : Bytes → Option BuiltinCmd → Type 0
Named key none = Unit {0}
Named key (some cmd) = cmd.name ≡ key

bsearch-Named : (f : ℕ) (key : Bytes) (lo hi : ℕ) → Named key (bsearch f key lo hi)
unfolding bsearch pstrcmp
bsearch-Named zero key lo hi = tt
bsearch-Named (suc f) key lo hi = elim (Bool-cases (ltb lo hi)) [
  | inl more ↦
      rw (bsearch, more) (at_entry (bsearch-Named f key) (get_elem? builtins ((lo + hi) / 2)))
  | inr done ↦ rw (bsearch, done) tt
]
  where
    at_sign :
        ((lo hi : ℕ) → Named key (bsearch f key lo hi))
        → (entry : BuiltinCmd) (sign : Sign) → strcmp key entry.name ≡ sign
        → Named key (elim sign [
          | negative ↦ bsearch f key lo ((lo + hi) / 2)
          | null ↦ some entry
          | positive ↦ bsearch f key ((lo + hi) / 2 + 1) hi
        ])
    at_sign h entry negative e = h lo ((lo + hi) / 2)
    at_sign h entry null e = sym (strcmp-null key entry.name e)
    at_sign h entry positive e = h ((lo + hi) / 2 + 1) hi

    at_entry :
        ((lo hi : ℕ) → Named key (bsearch f key lo hi))
        → (entry : Option BuiltinCmd)
        → Named key (elim entry [
          | none ↦ none
          | some cmd ↦ elim (pstrcmp key cmd) [
            | negative ↦ bsearch f key lo ((lo + hi) / 2)
            | null ↦ some cmd
            | positive ↦ bsearch f key ((lo + hi) / 2 + 1) hi
          ]
        ])
    at_entry h none = tt
    at_entry h (some cmd) = at_sign h cmd (strcmp key cmd.name) refl

-- The name that each built-in command is called by.
abbrev pub name_of : BuiltinE → Bytes
name_of cd = bytes "cd"
name_of complete = bytes "complete"
name_of declare = bytes "declare"
name_of echo = bytes "echo"
name_of exit = bytes "exit"
name_of history = bytes "history"
name_of jobs = bytes "jobs"
name_of pwd = bytes "pwd"
name_of type = bytes "type"

finds_each :
    (b : BuiltinE) → find_builtin (name_of b) ≡ some (record { name = name_of b; builtin = b })
unfolding find_builtin bsearch builtins pstrcmp strcmp
finds_each cd = refl
finds_each complete = refl
finds_each declare = refl
finds_each echo = refl
finds_each exit = refl
finds_each history = refl
finds_each jobs = refl
finds_each pwd = refl
finds_each type = refl

named :
    (key : Bytes) (o : Option BuiltinCmd) (cmd : BuiltinCmd)
    → Named key o
    → o ≡ some cmd
    → cmd.name ≡ key
named key none cmd h e = absurd cc
named key (some c) cmd h e = subst (Named key) e h

-- `find_builtin` finds a built-in command by its name and by no other: the array is in the order
-- that the search by halves takes it to be in.
pub find_builtin-name_of :
    (name : Bytes) (b : BuiltinE)
    → (find_builtin name ≡ some (record { name = name_of b; builtin = b })) ↔ (name ≡ name_of b)
unfolding find_builtin
find_builtin-name_of name b = (
  λ found. sym (
      named name (find_builtin name) (record { name = name_of b; builtin = b })
        (bsearch-Named (length builtins) name 0 (length builtins)) found),
  λ same. ap find_builtin same ∙ finds_each b,
)
