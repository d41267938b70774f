-- ===== src/Hashtable/Table.antt =====
-- src/hashtable.c: `HashTable` and the functions `ht_*` on it. `load_factor` is the constant 0.75f
-- and `size >= capacity * load_factor` is written over the integers, which agree with the C code's
-- floats below 2^24. `ht_put` gives -1 in every case, and no caller reads it, so here it gives the
-- table alone.
use codecrafters_shell_c.Common.{
  ℕ, zero, suc, ◌+◌, ◌-◌, ◌*◌, ◌%◌, ◌^◌, Bool, true, false, List, [], ◌∷◌, ◌==◌, ◌&&◌, leb, ltb,
  Option, none, some,
}
use codecrafters_shell_c.Common.Bytes.{Bytes, str_eq}
use codecrafters_shell_c.Common.Outcome.{Outcome, ok, fault, out_of_fuel, ◌>>=◌}
use codecrafters_shell_c.Hashtable.Buckets.{
  BucketNode, bn_new, BucketList, blist_new, find_node, blist_get_value, blist_remove, fnv_1a,
  fnv_1a_sized,
}

pub record HashTable : Type 0 where
  pub size : ℕ
  pub capacity : ℕ
  pub buckets : List BucketList

-- Subtraction on `size_t`.
abbrev pub minus_size : ℕ → ℕ → ℕ
minus_size a b = (a + 2 ^ 64 - b) % 2 ^ 64

abbrev pub max_capacity : ℕ
max_capacity = 1073741824

-- `n` new buckets.
unfoldable pub empty_buckets : ℕ → List BucketList
unfolding blist_new
empty_buckets zero = []
empty_buckets (suc n) = blist_new ∷ empty_buckets n

unfoldable pub ht_new : HashTable
unfolding empty_buckets
ht_new = record { size = 0; capacity = 16; buckets = empty_buckets 16 }

-- `buckets[i]`, read and written.
unfoldable pub bucket_at : List BucketList → ℕ → Outcome BucketList
bucket_at [] i = fault
bucket_at (b ∷ bs) zero = ok b
bucket_at (b ∷ bs) (suc i) = bucket_at bs i

unfoldable pub set_bucket : List BucketList → ℕ → BucketList → List BucketList
set_bucket [] i b' = []
set_bucket (b ∷ bs) zero b' = b' ∷ bs
set_bucket (b ∷ bs) (suc i) b' = b ∷ set_bucket bs i b'

-- The walk of `ht_put` stops at a node with the key, and the new node goes where that node was:
-- behind it nothing is left.
unfoldable pub put_chain : List BucketNode → BucketNode → List BucketNode
put_chain [] new = new ∷ []
put_chain (n ∷ ns) new = elim (str_eq n.key new.key) [
  | true ↦ new ∷ []
  | false ↦ n ∷ put_chain ns new
]

-- `ht_put` behind its test of the size, with the bucket that it chose before that test.
unfoldable pub put_node : HashTable → ℕ → BucketNode → Outcome HashTable
unfolding put_chain
put_node table hash new = do
  bucket ← bucket_at table.buckets hash
  ok (record table {
    size = table.size + 1;
    buckets = set_bucket table.buckets hash (record bucket { head = put_chain bucket.head new });
  })

abbrev pub Put : Type 0
Put = HashTable → Bytes → Bytes → Bool → Outcome HashTable

unfoldable pub put_all : Put → List BucketNode → HashTable → Outcome HashTable
put_all put [] table = ok table
put_all put (n ∷ ns) table = do table' ← put table n.key n.value n.exported; put_all put ns table'

unfoldable pub rehash : Put → List BucketList → HashTable → Outcome HashTable
unfolding put_all
rehash put [] table = ok table
rehash put (b ∷ bs) table = do table' ← put_all put b.head table; rehash put bs table'

-- `put` is `ht_put`, which calls this function. The first part of the result says that it failed.
-- The size is not set to 0 before the nodes are put again.
unfoldable pub hashtable_resize : Put → HashTable → ℕ → Outcome (Bool × HashTable)
unfolding rehash
hashtable_resize put table new_capacity = elim (leb max_capacity new_capacity) [
  | true ↦ ok (true, table)
  | false ↦ do
    table' ←
        rehash put table.buckets
          (record table { capacity = new_capacity; buckets = empty_buckets new_capacity })
    ok (false, table')
]

-- At most `f` calls of `ht_put` inside each other.
unfoldable pub ht_put_within : ℕ → Put
unfolding hashtable_resize put_node
ht_put_within zero table key value exported = out_of_fuel
ht_put_within (suc f) table key value exported =
    let hash = fnv_1a key % table.capacity in
    elim (leb (3 * table.capacity) (4 * table.size)) [
      | true ↦ hashtable_resize (ht_put_within f) table (table.capacity * 2) >>= λ (failed, table').
          elim failed [
            | true ↦ ok table'
            | false ↦ put_node table' hash (bn_new key value exported)
          ]
      | false ↦ put_node table hash (bn_new key value exported)
    ]

unfoldable pub ht_put : Put
unfolding ht_put_within
ht_put table key value exported = ht_put_within 30 table key value exported

unfoldable pub value_of : Option BucketNode → Option Bytes
value_of none = none
value_of (some n) = some n.value

unfoldable pub ht_get : HashTable → Bytes → Outcome (Option Bytes)
unfolding value_of
ht_get table key = do
  bucket ← bucket_at table.buckets (fnv_1a key % table.capacity)
  ok (value_of (find_node bucket.head key))

-- `strncmp(a, b, n) == 0`
unfoldable pub strn_eq : Bytes → Bytes → ℕ → Bool
strn_eq as' bs zero = true
strn_eq [] [] (suc n) = true
strn_eq [] (b ∷ bs) (suc n) = false
strn_eq (a ∷ as') [] (suc n) = false
strn_eq (a ∷ as') (b ∷ bs) (suc n) = a == b && strn_eq as' bs n

unfoldable pub find_node_n : List BucketNode → Bytes → ℕ → Option BucketNode
unfolding strn_eq
find_node_n [] key count = none
find_node_n (n ∷ ns) key count = elim (strn_eq n.key key count) [
  | true ↦ some n
  | false ↦ find_node_n ns key count
]

unfoldable pub ht_getn : HashTable → Bytes → ℕ → Outcome (Option Bytes)
unfolding value_of find_node_n
ht_getn table key count = do
  bucket ← bucket_at table.buckets (fnv_1a_sized key count % table.capacity)
  ok (value_of (find_node_n bucket.head key count))

unfoldable pub is_some : Option Bytes → Bool
is_some none = false
is_some (some v) = true

unfoldable pub ht_contains : HashTable → Bytes → Outcome Bool
unfolding is_some
ht_contains table key = do result ← ht_get table key; ok (is_some result)

-- The value that `blist_get_value` gives is not a null pointer, so that the result is 0.
unfoldable pub ht_remove : HashTable → Bytes → Outcome HashTable
ht_remove table key =
    let hash = fnv_1a key % table.capacity in
    do
      bucket ← bucket_at table.buckets hash
      member ← blist_get_value bucket key
      removed ← blist_remove bucket key
      ok (record table {
        size = minus_size table.size 1;
        buckets = set_bucket table.buckets hash (removed.1);
      })

-- The nodes of a cleared bucket are freed, and stay in its chain.
unfoldable pub clear_buckets : List BucketList → ℕ → List BucketList × ℕ
clear_buckets [] size = ([], size)
clear_buckets (b ∷ bs) size = elim (ltb 0 b.size) [
  | true ↦
      let (bs', size') = clear_buckets bs (minus_size size b.size) in
      (record b { size = 0 } ∷ bs', size')
  | false ↦ let (bs', size') = clear_buckets bs size in (b ∷ bs', size')
]

unfoldable pub ht_clear : HashTable → HashTable
unfolding clear_buckets
ht_clear table =
    let (buckets, size) = clear_buckets table.buckets table.size in
    record table { size = size; buckets = buckets }

unfoldable pub ht_size : HashTable → ℕ
ht_size table = table.size

exported_of : Option BucketNode → Option Bool
exported_of none = none
exported_of (some n) = some n.exported

-- `none` is the result -1, which leaves `dst` alone.
unfoldable pub ht_get_exported : HashTable → Bytes → Outcome (Option Bool)
unfolding exported_of
ht_get_exported table key = do
  bucket ← bucket_at table.buckets (fnv_1a key % table.capacity)
  ok (exported_of (find_node bucket.head key))
