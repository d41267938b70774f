-- ===== src/Hashtable/Buckets.antt =====
-- src/hashtable.c: `BucketNode` and `BucketList`, and the hash of a key. The chain of nodes behind
-- `head` is a list; the size stored beside it is not that list's length unless the code sees to it.
use codecrafters_shell_c.Common.{
  ℕ, zero, suc, ◌≡◌, refl, ◌+◌, ◌*◌, ◌%◌, ◌^◌, Bool, true, false, List, [], ◌∷◌, ◌++◌, ◌==◌, Option,
  none, some,
}
use codecrafters_shell_c.Common.Bytes.{Bytes, str_eq}
use codecrafters_shell_c.Common.Outcome.{Outcome, ok, fault, out_of_fuel, ◌>>=◌}
use Prim.Native.Nat.{bit_xor}

pub record BucketNode : Type 0 where
  pub key : Bytes
  pub value : Bytes
  pub exported : Bool

unfoldable pub bn_new : Bytes → Bytes → Bool → BucketNode
bn_new name value exported = record { key = name; value = value; exported = exported }

unfoldable pub bn_copyof : BucketNode → BucketNode
unfolding bn_new
bn_copyof orig = bn_new orig.key orig.value orig.exported

pub record BucketList : Type 0 where
  pub size : ℕ
  pub head : List BucketNode

unfoldable pub blist_new : BucketList
blist_new = record { size = 0; head = [] }

-- The first node is put at the head by the stored size, not by the chain.
unfoldable pub blist_append : BucketList → Bytes → Bytes → Bool → Outcome BucketList
unfolding bn_new
blist_append list name value exported = elim (list.size == 0) [
  | true ↦ ok (record { size = list.size + 1; head = bn_new name value exported ∷ [] })
  | false ↦ elim list.head [
    | [] ↦ fault
    | n ∷ ns ↦
        ok (record { size = list.size + 1; head = (n ∷ ns) ++ bn_new name value exported ∷ [] })
  ]
]

-- The first node of a chain with a given key.
unfoldable pub find_node : List BucketNode → Bytes → Option BucketNode
find_node [] key = none
find_node (n ∷ ns) key = elim (str_eq n.key key) [ true ↦ some n | false ↦ find_node ns key ]

unfoldable pub blist_get : BucketList → Bytes → Option BucketNode
unfolding find_node
blist_get list key = find_node list.head key

-- The node that `blist_get` gives is read without a test.
unfoldable pub node_value : Option BucketNode → Outcome Bytes
node_value none = fault
node_value (some n) = ok n.value

unfoldable pub blist_get_value : BucketList → Bytes → Outcome Bytes
unfolding blist_get node_value
blist_get_value list name = node_value (blist_get list name)

node_exported : Option BucketNode → Outcome Bool
node_exported none = fault
node_exported (some n) = ok n.exported

unfoldable pub blist_get_exported : BucketList → Bytes → Outcome Bool
unfolding blist_get node_exported
blist_get_exported list key = node_exported (blist_get list key)

-- Behind a node that it has removed, the loop reads the `next` of freed memory.
unfoldable pub remove_loop : List BucketNode → Bytes → Outcome (Bool × List BucketNode)
remove_loop [] name = ok (false, [])
remove_loop (n ∷ ns) name = elim (str_eq n.key name) [
  | true ↦ fault
  | false ↦ do rest ← remove_loop ns name; ok (rest.0, n ∷ rest.1)
]

unfoldable pub blist_remove : BucketList → Bytes → Outcome (Bool × BucketList)
unfolding remove_loop
blist_remove list name = do
  result ← remove_loop list.head name
  ok (result.0, record list { head = result.1 })

-- The loop of `blist_copyof` does not move on: its node is copied behind `copy` again and again.
unfoldable pub copy_loop : ℕ → Option BucketNode → List BucketNode → Outcome (List BucketNode)
unfolding bn_copyof
copy_loop zero iter copy = out_of_fuel
copy_loop (suc f) none copy = ok copy
copy_loop (suc f) (some n) copy = copy_loop f (some n) (copy ++ bn_copyof n ∷ [])

second : List BucketNode → Option BucketNode
second [] = none
second (n ∷ ns) = some n

copy_chain : ℕ → List BucketNode → Outcome BucketList
unfolding copy_loop bn_copyof second
copy_chain f [] = fault
copy_chain f (n ∷ ns) = do
  copy ← copy_loop f (second ns) (bn_copyof n ∷ [])
  ok (record { size = 0; head = copy })

-- At most `f` rounds of the loop.
unfoldable pub blist_copyof : ℕ → BucketList → Outcome BucketList
unfolding copy_chain
blist_copyof f original = copy_chain f original.head

-- The copy of one node comes out with the size 0. No node is a fault, and two or more nodes keep
-- the loop running for ever: no number of rounds is enough.
pub blist_copyof_lem :
    (f size : ℕ) (n m : BucketNode) (ns : List BucketNode)
    → (blist_copyof f (record { size = size; head = [] }) ≡ fault)
      × (blist_copyof (suc f) (record { size = size; head = n ∷ [] })
          ≡ ok (record { size = 0; head = n ∷ [] }))
      × (blist_copyof f (record { size = size; head = n ∷ m ∷ ns }) ≡ out_of_fuel)
unfolding blist_copyof copy_chain copy_loop second bn_copyof bn_new
blist_copyof_lem f size n m ns = (refl, refl, rw (stuck f (n ∷ [])) refl)
  where
    stuck : (f : ℕ) (copy : List BucketNode) → copy_loop f (some m) copy ≡ out_of_fuel
    stuck zero copy = refl
    stuck (suc f) copy = stuck f (copy ++ bn_copyof m ∷ [])

abbrev pub fnv_offset_basis : ℕ
fnv_offset_basis = 14695981039346656037

abbrev pub fnv_prime : ℕ
fnv_prime = 1099511628211

unfoldable pub fnv_round : ℕ → ℕ → ℕ
fnv_round hash c = bit_xor hash c * fnv_prime % 2 ^ 64

unfoldable pub fnv_from : ℕ → Bytes → ℕ
unfolding fnv_round
fnv_from hash [] = hash
fnv_from hash (c ∷ cs) = fnv_from (fnv_round hash c) cs

unfoldable pub fnv_1a : Bytes → ℕ
unfolding fnv_from
fnv_1a str = fnv_from fnv_offset_basis str

unfoldable pub fnv_sized_from : ℕ → Bytes → ℕ → ℕ
unfolding fnv_round
fnv_sized_from hash [] n = hash
fnv_sized_from hash (c ∷ cs) zero = hash
fnv_sized_from hash (c ∷ cs) (suc n) = fnv_sized_from (fnv_round hash c) cs n

unfoldable pub fnv_1a_sized : Bytes → ℕ → ℕ
unfolding fnv_sized_from
fnv_1a_sized str n = fnv_sized_from fnv_offset_basis str n
