-- ===== src/Hashtable/Items.antt =====
-- src/hashtable.c: `ItemList`, a counted copy of a table's nodes, and `ht_entryset`.
use codecrafters_shell_c.Common.{
  ℕ, ◌+◌, ◌-◌, ◌≡◌, refl, ap, subst, Bool, true, false, List, [], ◌∷◌, ◌++◌, ◌==◌, Option, none,
  some, length, length-append, append_assoc, append-nil, map, arith,
}
use codecrafters_shell_c.Common.Bytes.{Bytes}
use codecrafters_shell_c.Common.Outcome.{Outcome, ok, fault}
use codecrafters_shell_c.Hashtable.Buckets.{BucketNode, BucketList}
use codecrafters_shell_c.Hashtable.Table.{HashTable}

pub record ItemNode : Type 0 where
  pub key : Bytes
  pub value : Bytes
  pub exported : Bool

abbrev pub in_new : Bytes → Bytes → Bool → ItemNode
in_new key value exported = record { key = key; value = value; exported = exported }

abbrev pub from_node : BucketNode → ItemNode
from_node node = in_new node.key node.value node.exported

pub record ItemList : Type 0 where
  pub size : ℕ
  pub head : List ItemNode

unfoldable pub il_new : ItemList
il_new = record { size = 0; head = [] }

unfoldable pub il_append_node : ItemList → ItemNode → ItemList
il_append_node list node = record { size = list.size + 1; head = list.head ++ node ∷ [] }

unfoldable pub il_append : ItemList → Bytes → Bytes → Bool → ItemList
unfolding il_append_node
il_append list key value exported = il_append_node list (in_new key value exported)

-- The first node is read if the size is not 0.
unfoldable pub pull_from : List ItemNode → ℕ → Outcome (Option ItemNode × ItemList)
pull_from [] size = fault
pull_from (n ∷ ns) size = ok (some n, record { size = size - 1; head = ns })

unfoldable pub il_pull : ItemList → Outcome (Option ItemNode × ItemList)
unfolding pull_from
il_pull list = elim (list.size == 0) [
  | true ↦ ok (none, list)
  | false ↦ pull_from list.head list.size
]

unfoldable pub from_chain : List BucketNode → ItemList → ItemList
unfolding il_append_node
from_chain [] result = result
from_chain (n ∷ ns) result = from_chain ns (il_append_node result (from_node n))

unfoldable pub il_from_blist : BucketList → ItemList
unfolding from_chain il_new
il_from_blist list = from_chain list.head il_new

merge_into : List ItemNode → ℕ → ItemList → ItemList
merge_into [] size source = source
merge_into (n ∷ ns) size source = record {
  size = size + source.size;
  head = (n ∷ ns) ++ source.head;
}

unfoldable pub il_merge_lists : ItemList → ItemList → ItemList
unfolding merge_into
il_merge_lists dest source = merge_into dest.head dest.size source

-- The buckets of a table in order are those that its capacity counts.
unfoldable pub merge_buckets : List BucketList → ItemList → ItemList
unfolding il_merge_lists il_from_blist
merge_buckets [] result = result
merge_buckets (b ∷ bs) result = merge_buckets bs (il_merge_lists result (il_from_blist b))

unfoldable pub ht_entryset : HashTable → ItemList
unfolding merge_buckets il_new
ht_entryset table = merge_buckets table.buckets il_new

-- The nodes of a table, bucket by bucket.
abbrev pub entries : List BucketList → List ItemNode
entries [] = []
entries (b ∷ bs) = map from_node b.head ++ entries bs

Holds : List ItemNode → ItemList → Type 0
Holds items list = (list.head ≡ items) × (list.size ≡ length items)

from_chain-Holds :
    (ns : List BucketNode) (items : List ItemNode) (result : ItemList)
    → Holds items result
    → Holds (items ++ map from_node ns) (from_chain ns result)
unfolding from_chain il_append_node Holds
from_chain-Holds [] items result h = rw (append-nil items) h
from_chain-Holds (n ∷ ns) items result h =
    let step =
      from_chain-Holds ns (items ++ from_node n ∷ []) (il_append_node result (from_node n)) (
        ap (λ xs. xs ++ from_node n ∷ []) h.0,
        omega (arith, h.1, length-append items (from_node n ∷ [])),
      ) in
    subst (λ xs. Holds xs (from_chain ns (il_append_node result (from_node n))))
      (append_assoc items (from_node n ∷ []) (map from_node ns)) step

merge-Holds :
    (items more : List ItemNode) (dest source : ItemList)
    → Holds items dest
    → Holds more source
    → Holds (items ++ more) (il_merge_lists dest source)
unfolding il_merge_lists merge_into Holds
merge-Holds [] more dest source h k = rw (h.0) k
merge-Holds (n ∷ ns) more dest source h k =
    rw (h.0, k.0) (refl, omega (arith, h.1, k.1, length-append ns more))

merge_buckets-Holds :
    (bs : List BucketList) (items : List ItemNode) (result : ItemList)
    → Holds items result
    → Holds (items ++ entries bs) (merge_buckets bs result)
unfolding merge_buckets il_from_blist il_new Holds
merge_buckets-Holds [] items result h = rw (append-nil items) h
merge_buckets-Holds (b ∷ bs) items result h =
    let made = from_chain-Holds b.head [] il_new (refl, refl) in
    let merged = merge-Holds items (map from_node b.head) result (il_from_blist b) h made in
    subst (λ xs. Holds xs (merge_buckets bs (il_merge_lists result (il_from_blist b))))
      (append_assoc items (map from_node b.head) (entries bs))
      (merge_buckets-Holds bs (items ++ map from_node b.head) _ merged)

-- The entry set of a table is the list of its nodes, bucket by bucket, each chain from its head on,
-- and the size of the set is their number.
pub ht_entryset_lem :
    (t : HashTable)
    → ((ht_entryset t).head ≡ entries t.buckets)
      × ((ht_entryset t).size ≡ length (entries t.buckets))
unfolding ht_entryset Holds il_new
ht_entryset_lem t = merge_buckets-Holds t.buckets [] il_new (refl, refl)
