-- ===== src/Vars/Laws.antt =====
-- src/vars.c: what the operations on variables do to a table that is in order.
use codecrafters_shell_c.StringBuilder.Buffer.{c_text}
use codecrafters_shell_c.StringBuilder.Taken.{NoNul, c_text-unended}
use codecrafters_shell_c.Common.{take, length, ◌++◌, ◌*◌, ◌+◌, zero, suc, ℕ, arith}
use codecrafters_shell_c.Common.Outcome.{ok, fault}
use codecrafters_shell_c.Common.{
  ℕ, zero, suc, ◌*◌, ◌-◌, ◌<◌, ◌≡◌, ◌≢◌, refl, sym, ap, ◌∙◌, true, false, List, [], ◌∷◌, ◌++◌, ◌==◌,
  none, some, length, arith, inl, inr, Bool-cases,
}
use codecrafters_shell_c.Common.Bytes.{Bytes, str_eq}
use codecrafters_shell_c.Common.Outcome.{fault, ok, Ends, Ends-bind, Ends-mono}
use codecrafters_shell_c.Hashtable.Buckets.{node_value, BucketNode}
use codecrafters_shell_c.Hashtable.Table.{is_some, HashTable, ht_new, ht_put, empty_buckets}
use codecrafters_shell_c.Hashtable.Items.{
  ItemNode, il_pull, pull_from, ht_entryset, ht_entryset_lem,
}
use codecrafters_shell_c.Hashtable.Grows.{empty_buckets-All, IsTable, ht_put-Ends}
use codecrafters_shell_c.Hashtable.Lookup.{ht_get-ht_put}
use codecrafters_shell_c.Hashtable.Lookup.{find_node-other}
use codecrafters_shell_c.Hashtable.Table.{
  HashTable, ht_contains, ht_remove, ht_get, bucket_at, value_of,
}
use codecrafters_shell_c.Hashtable.Buckets.{
  BucketList, find_node, remove_loop, blist_remove, blist_get, blist_get_value, fnv_1a,
}
use codecrafters_shell_c.Common.{◌%◌, Option}
use codecrafters_shell_c.Vars.Store.{
  remove_if, var_unassign, Vars, var_table_check, var_lookup, var_assign, split_at_equals,
  assignment_split, keep_exported, drain, fork_exported,
}

-- A variable that is assigned while the table has room, whether it had a value or not, is looked
-- up with the value that it was assigned.
pub var_lookup-var_assign :
    (vars : Vars) (name value : Bytes)
    → length (var_table_check vars).buckets ≡ (var_table_check vars).capacity
    → 4 * (var_table_check vars).size < 3 * (var_table_check vars).capacity
    → (vars' : Vars) × (var_assign vars name value ≡ ok vars')
      × (var_lookup vars' name ≡ ok (some value, vars'))
unfolding var_assign var_lookup var_table_check
var_lookup-var_assign vars name value sized room =
    let (t', put, got, _) = ht_get-ht_put (var_table_check vars) name value false sized room in
    (some t', rw put refl, rw got refl)

abbrev pub NoEquals : Bytes → Type 0
NoEquals [] = Unit {0}
NoEquals (c ∷ cs) = (c ≢ b'=') × NoEquals cs

pub split_at_equals-some :
    (name value : Bytes)
    → NoEquals name
    → split_at_equals (name ++ b'=' ∷ value) ≡ some (name, value)
unfolding split_at_equals
split_at_equals-some [] value h = refl
split_at_equals-some (c ∷ cs) value h =
    let differs : (c == b'=') ≡ false = ground (arith, h.0) in
    rw (split_at_equals, differs, split_at_equals-some cs value h.1) refl

pub split_at_equals-none : (name : Bytes) → NoEquals name → split_at_equals name ≡ none
unfolding split_at_equals
split_at_equals-none [] h = refl
split_at_equals-none (c ∷ cs) h =
    let differs : (c == b'=') ≡ false = ground (arith, h.0) in
    rw (split_at_equals, differs, split_at_equals-none cs h.1) refl

c_text-ended : (text rest : Bytes) → NoNul text → c_text (text ++ 0 ∷ rest) ≡ ok text
unfolding c_text
c_text-ended [] rest h = refl
c_text-ended (c ∷ cs) rest (h, hs) =
    let e : (c == 0) ≡ false = ground (arith, h) in rw (c_text, e, c_text-ended cs rest hs) refl

NoNul-append_take :
    (text fresh : Bytes) (k : ℕ) → NoNul text → NoNul fresh → NoNul (text ++ take k fresh)
NoNul-append_take [] fresh zero h g = tt
NoNul-append_take [] [] (suc k) h g = tt
NoNul-append_take [] (c ∷ cs) (suc k) h g = (g.0, NoNul-append_take [] cs k tt g.1)
NoNul-append_take (t ∷ ts) fresh k h g = (h.0, NoNul-append_take ts fresh k h.1 g)

-- The text `name=value`, where the name has no `=` and the value no NUL in it, is split into the name
-- and the value where the new block happens to hold a NUL first; where it holds none, the value is
-- read beyond the end of its block.
pub assignment_split_lem :
    (name value fresh fresh' : Bytes)
    → NoEquals name
    → NoNul value
    → NoNul fresh'
    → (assignment_split (0 ∷ fresh) (name ++ b'=' ∷ value) ≡ ok (name, value))
      × (assignment_split fresh' (name ++ b'=' ∷ value) ≡ fault)
unfolding assignment_split
assignment_split_lem name value fresh fresh' h clean clean' =
    let some_room : 7 * length value + 1 ≡ suc (7 * length value) = omega arith in
    (
      rw
          (
            assignment_split,
            split_at_equals-some name value h,
            some_room,
            c_text-ended value (take (7 * length value) fresh) clean,
          )
          refl,
      rw
          (
            assignment_split,
            split_at_equals-some name value h,
            c_text-unended (value ++ take (7 * length value + 1) fresh')
                (NoNul-append_take value fresh' (7 * length value + 1) clean clean'),
          )
          refl,
    )

abbrev pub Exported : BucketNode → Type 0
Exported n = n.exported ≡ true

-- The table is there, and all its variables are exported.
abbrev pub OnlyExported : Vars → Type 0
OnlyExported none = ⊥
OnlyExported (some t) = IsTable Exported t

keep_exported-Ends :
    (node : ItemNode) (copy : HashTable)
    → IsTable Exported copy
    → Ends (IsTable Exported) (keep_exported (some node) copy)
unfolding keep_exported
keep_exported-Ends node copy g = elim (Bool-cases node.exported) [
  | inl keep ↦
      rw (keep_exported, keep)
        (Ends-mono (ht_put copy node.key node.value node.exported) (λ t k. k.0)
          (ht_put-Ends Exported copy
            (record { key = node.key; value = node.value; exported = node.exported }) g keep))
  | inr drop ↦ rw (keep_exported, drop) g
]

drain-Ends :
    (f : ℕ) (items : List ItemNode) (size : ℕ) (copy : HashTable)
    → length items < f
    → size ≡ length items
    → IsTable Exported copy
    → Ends (IsTable Exported) (drain f (record { size = size; head = items }) copy)
unfolding drain il_pull pull_from
drain-Ends zero items size copy le e g = absurd (omega arith)
drain-Ends (suc f) [] size copy le e g = g
drain-Ends (suc f) (n ∷ ns) zero copy le e g = absurd (omega arith)
drain-Ends (suc f) (n ∷ ns) (suc size) copy le e g =
    rw (drain, pulled)
      (Ends-bind (IsTable Exported) (keep_exported (some n) copy) _ (keep_exported-Ends n copy g)
        (λ copy' k. drain-Ends f ns (suc size - 1) copy' (omega arith) (omega arith) k))
  where
    pulled :
        il_pull (record { size = suc size; head = n ∷ ns })
        ≡ ok (some n, record { size = suc size - 1; head = ns })
    pulled = let more : (suc size == 0) ≡ false = ground arith in rw (il_pull, more) refl

-- Whatever the variables are, `fork_exported` returns, and leaves a table in order in which every
-- variable is exported.
pub fork_exported-OnlyExported : (vars : Vars) → Ends OnlyExported (fork_exported vars)
unfolding fork_exported ht_new empty_buckets
fork_exported-OnlyExported vars =
    let old = ht_entryset (var_table_check vars) in
    let (heads, counted) = ht_entryset_lem (var_table_check vars) in
    Ends-bind OnlyExported (drain (suc (length old.head)) old ht_new) _
      (drain-Ends (suc (length old.head)) old.head old.size ht_new (omega arith)
        (counted ∙ ap length (sym heads)) (refl, omega arith, empty_buckets-All Exported 16))
      (λ t k. k)

remove_loop-fault :
    (ns : List BucketNode) (key : Bytes) (n : BucketNode)
    → find_node ns key ≡ some n
    → remove_loop ns key ≡ fault
unfolding find_node remove_loop
remove_loop-fault [] key n h = absurd (none-ne-some h)
  where
    none-ne-some : Path (Option BucketNode) none (some n) → ⊥
    none-ne-some e = cc
remove_loop-fault (m ∷ ns) key n h = elim (Bool-cases (str_eq m.key key)) [
  | inl same ↦ rw (remove_loop, same) refl
  | inr other ↦
      rw (remove_loop, other, remove_loop-fault ns key n (sym (find_node-other m ns key other) ∙ h))
        refl
]

-- Removing a variable that is in its bucket reads memory that is freed: `var_unassign` faults.
pub var_unassign-fault :
    (t : HashTable) (name : Bytes) (b : BucketList) (n : BucketNode)
    → bucket_at t.buckets (fnv_1a name % t.capacity) ≡ ok b
    → find_node b.head name ≡ some n
    → var_unassign (some t) name ≡ fault
unfolding var_unassign ht_contains ht_get ht_remove blist_remove blist_get_value blist_get value_of
    var_table_check node_value is_some remove_if
var_unassign-fault t name b n at found =
    rw
      (
        at,
        found,
        remove_if,
        ht_remove,
        at,
        blist_get_value,
        blist_get,
        found,
        node_value,
        blist_remove,
        remove_loop-fault b.head name n found,
      )
      refl
