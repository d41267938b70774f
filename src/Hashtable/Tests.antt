-- ===== src/Hashtable/Tests.antt =====
-- src/hashtable.c on small tables, and the theorems about it at such tables.
use codecrafters_shell_c.Common.{
  ◌≢◌, ◌≡◌, ◌≤◌, ◌+◌, ◌%◌, refl, true, false, List, [], ◌∷◌, Option, none, some, length, arith,
}
use codecrafters_shell_c.Common.Bytes.{Bytes, bytes, str_eq}
use codecrafters_shell_c.Common.Outcome.{Outcome, ok, fault, out_of_fuel, ◌>>=◌, Ends}
use codecrafters_shell_c.Hashtable.Buckets.{
  BucketNode, bn_new, BucketList, blist_new, blist_copyof, blist_copyof_lem, fnv_1a, fnv_from,
  fnv_round, find_node,
}
use codecrafters_shell_c.Hashtable.Table.{
  HashTable, empty_buckets, ht_new, ht_put, ht_get, put_chain, put_node, bucket_at, set_bucket,
  ht_put_within, hashtable_resize, rehash, put_all, value_of,
}
use codecrafters_shell_c.Hashtable.Items.{ht_entryset, ht_entryset_lem, entries}
use codecrafters_shell_c.Hashtable.Grows.{IsTable, ht_put-Ends}
use codecrafters_shell_c.Hashtable.Lookup.{ne-of_str_eq, ht_get-ht_put, ht_get-put_first}

put_keys : List Bytes → HashTable → Outcome HashTable
put_keys [] t = ok t
put_keys (k ∷ ks) t = do t' ← ht_put t k (bytes "v") false; put_keys ks t'

get_after : List Bytes → Bytes → Outcome (Option Bytes)
unfolding put_keys
get_after ks k = do t ← put_keys ks ht_new; ht_get t k

-- The first two keys share a bucket.
abbrev twins : List Bytes
twins = bytes "a" ∷ bytes "q" ∷ []

twin_found : get_after twins (bytes "q") ≡ ok (some (bytes "v"))
unfolding get_after put_keys ht_put ht_put_within put_node ht_get bucket_at set_bucket put_chain
    find_node value_of ht_new empty_buckets blist_new fnv_1a fnv_from fnv_round bn_new str_eq
twin_found = refl

-- The value of the second is lost when the first is put again.
twin_lost : get_after (bytes "a" ∷ bytes "q" ∷ bytes "a" ∷ []) (bytes "q") ≡ ok none
unfolding get_after put_keys ht_put ht_put_within put_node ht_get bucket_at set_bucket put_chain
    find_node value_of ht_new empty_buckets blist_new fnv_1a fnv_from fnv_round bn_new str_eq
twin_lost = refl

abbrev twelve : List Bytes
twelve =
    bytes "a"
    ∷ bytes "b"
    ∷ bytes "e"
    ∷ bytes "g"
    ∷ bytes "i"
    ∷ bytes "k"
    ∷ bytes "l"
    ∷ bytes "p"
    ∷ bytes "s"
    ∷ bytes "t"
    ∷ bytes "v"
    ∷ bytes "x"
    ∷ bytes "c"
    ∷ []

-- The thirteenth key resizes the table, and is then put in the bucket that the old capacity gave
-- it: it is not found.
lost_by_resize : get_after twelve (bytes "c") ≡ ok none
unfolding get_after put_keys ht_put ht_put_within put_node ht_get bucket_at set_bucket put_chain
    find_node value_of ht_new empty_buckets blist_new fnv_1a fnv_from fnv_round bn_new str_eq
    hashtable_resize rehash put_all
lost_by_resize = refl

abbrev AnyNode : BucketNode → Type 0
AnyNode n = Unit {0}

abbrev node_a : BucketNode
node_a = record { key = bytes "a"; value = bytes "1"; exported = true }

abbrev node_b : BucketNode
node_b = record { key = bytes "b"; value = bytes "2"; exported = false }

-- A table that the next `ht_put` resizes.
abbrev full : HashTable
full = record {
  size = 2;
  capacity = 2;
  buckets = record { size = 0; head = node_a ∷ [] } ∷ record { size = 0; head = node_b ∷ [] } ∷ [];
}

ht_put-Ends_example :
    Ends
      (λ t'. IsTable AnyNode t' × (full.capacity ≤ t'.capacity))
      (ht_put full node_a.key node_a.value node_a.exported)
ht_put-Ends_example =
    ht_put-Ends AnyNode full node_a (refl, omega arith, ((tt, tt), ((tt, tt), tt))) tt

-- One bucket, with room.
abbrev shared : HashTable
shared = record {
  size = 2;
  capacity = 4;
  buckets =
      record { size = 0; head = node_a ∷ node_b ∷ [] }
      ∷ record { size = 0; head = [] }
      ∷ record { size = 0; head = [] }
      ∷ record { size = 0; head = [] }
      ∷ [];
}

ht_get-ht_put_example :
    (t' : HashTable) × (ht_put shared (bytes "c") (bytes "3") false ≡ ok t')
    × (ht_get t' (bytes "c") ≡ ok (some (bytes "3")))
    × (t'.size ≡ 2 + 1)
ht_get-ht_put_example = ht_get-ht_put shared (bytes "c") (bytes "3") false refl (omega arith)

c-fresh : ht_get shared (bytes "c") ≡ ok none
unfolding ht_get bucket_at find_node value_of fnv_1a fnv_from fnv_round str_eq
c-fresh = refl

c-ne-a : bytes "c" ≢ bytes "a"
unfolding str_eq
c-ne-a = ne-of_str_eq (bytes "c") (bytes "a") refl

a-ne-q : bytes "a" ≢ bytes "q"
unfolding str_eq
a-ne-q = ne-of_str_eq (bytes "a") (bytes "q") refl

abbrev node_q : BucketNode
node_q = record { key = bytes "q"; value = bytes "2"; exported = false }

abbrev paired : BucketList
paired = record { size = 0; head = node_a ∷ node_q ∷ [] }

-- The keys `a` and `q` belong into the first of four buckets.
abbrev pair_table : HashTable
pair_table = record {
  size = 2;
  capacity = 4;
  buckets =
      paired
      ∷ record { size = 0; head = [] }
      ∷ record { size = 0; head = [] }
      ∷ record { size = 0; head = [] }
      ∷ [];
}

a-bucket : bucket_at pair_table.buckets (fnv_1a (bytes "a") % 4) ≡ ok paired
unfolding bucket_at fnv_1a fnv_from fnv_round
a-bucket = refl

a-q : fnv_1a (bytes "q") % 4 ≡ fnv_1a (bytes "a") % 4
unfolding fnv_1a fnv_from fnv_round
a-q = refl

ht_get-put_first_example :
    (t' : HashTable) × (ht_put pair_table (bytes "a") (bytes "3") false ≡ ok t')
    × (ht_get t' (bytes "q") ≡ ok none)
ht_get-put_first_example =
    ht_get-put_first pair_table (bytes "a") (bytes "3") false (bytes "q") paired node_a
      (node_q ∷ []) refl (omega arith) a-bucket refl refl a-q a-ne-q

blist_copyof_lem_example :
    (blist_copyof 3 (record { size = 0; head = [] }) ≡ fault)
    × (blist_copyof 4 (record { size = 0; head = node_a ∷ [] })
        ≡ ok (record { size = 0; head = node_a ∷ [] }))
    × (blist_copyof 3 (record { size = 0; head = node_a ∷ node_b ∷ [] }) ≡ out_of_fuel)
blist_copyof_lem_example = blist_copyof_lem 3 0 node_a node_b []

ht_entryset_lem_example :
    ((ht_entryset shared).head ≡ entries shared.buckets)
    × ((ht_entryset shared).size ≡ length (entries shared.buckets))
ht_entryset_lem_example = ht_entryset_lem shared
