-- ===== src/Hashtable/Lookup.antt =====
-- src/hashtable.c: what `ht_get` gives after an `ht_put` that does not resize the table.
use codecrafters_shell_c.Common.{
  ℕ, zero, suc, ◌+◌, ◌*◌, ◌%◌, ◌<◌, ◌≡◌, ◌≢◌, ◌∙◌, refl, sym, ap, Bool, true, false, List, [], ◌∷◌,
  ◌==◌, arith, leb, length, inl, inr, Bool-cases, Option-cases, Option, none, some,
}
use codecrafters_shell_c.Common.Bytes.{Bytes, str_eq}
use codecrafters_shell_c.Common.Outcome.{Outcome, ok}
use codecrafters_shell_c.Hashtable.Buckets.{BucketNode, bn_new, BucketList, fnv_1a, find_node}
use codecrafters_shell_c.Hashtable.Table.{
  HashTable, bucket_at, set_bucket, put_chain, put_node, ht_put_within, ht_put, ht_get, value_of,
}

pub str_eq_refl : (a : Bytes) → str_eq a a ≡ true
unfolding str_eq
str_eq_refl [] = refl
str_eq_refl (x ∷ xs) = ground (arith, str_eq_refl xs)

pub str_eq-true : (a b : Bytes) → str_eq a b ≡ true → a ≡ b
unfolding str_eq
str_eq-true [] [] h = refl
str_eq-true [] (b ∷ bs) h = cc
str_eq-true (a ∷ as') [] h = cc
str_eq-true (a ∷ as') (b ∷ bs) h = ground (arith, str_eq-true as' bs)

pub str_eq-ne : (a b : Bytes) → a ≢ b → str_eq a b ≡ false
str_eq-ne a b h = elim (Bool-cases (str_eq a b)) [
  | inl same ↦ absurd (h (str_eq-true a b same))
  | inr other ↦ other
]

pub ne-of_str_eq : (a b : Bytes) → str_eq a b ≡ false → a ≢ b
ne-of_str_eq a b h e = true-ne-false (sym (str_eq_refl a) ∙ ap (str_eq a) e ∙ h)
  where
    true-ne-false : true ≢ false
    true-ne-false e = cc

find_node-new :
    (ns : List BucketNode) (new : BucketNode) → find_node (put_chain ns new) new.key ≡ some new
unfolding find_node put_chain
find_node-new [] new = rw (find_node, str_eq_refl new.key) refl
find_node-new (n ∷ ns) new = elim (Bool-cases (str_eq n.key new.key)) [
  | inl same ↦ rw (put_chain, same, find_node, str_eq_refl new.key) refl
  | inr other ↦ rw (put_chain, other, find_node, other) (find_node-new ns new)
]

find_node-same :
    (n : BucketNode) (ns : List BucketNode) (key : Bytes)
    → str_eq n.key key ≡ true
    → find_node (n ∷ ns) key ≡ some n
unfolding find_node
find_node-same n ns key h = rw (find_node, h) refl

pub find_node-other :
    (n : BucketNode) (ns : List BucketNode) (key : Bytes)
    → str_eq n.key key ≡ false
    → find_node (n ∷ ns) key ≡ find_node ns key
unfolding find_node
find_node-other n ns key h = rw (find_node, h) refl

-- A key that comes in front of the new one's node, or of which there is none, is found as before.
find_node-others :
    (ns : List BucketNode) (new : BucketNode) (key : Bytes)
    → new.key ≢ key
    → find_node ns new.key ≡ none
    → find_node (put_chain ns new) key ≡ find_node ns key
unfolding find_node put_chain
find_node-others [] new key d h = rw (find_node, str_eq-ne new.key key d) refl
find_node-others (n ∷ ns) new key d h = elim (Bool-cases (str_eq n.key new.key)) [
  | inl same ↦ absurd (some-ne-none (sym (find_node-same n ns new.key same) ∙ h))
  | inr other ↦
      rw (put_chain, other)
        (elim (Bool-cases (str_eq n.key key)) [
          | inl here ↦
              find_node-same n (put_chain ns new) key here ∙ sym (find_node-same n ns key here)
          | inr past ↦
              find_node-other n (put_chain ns new) key past
              ∙ find_node-others ns new key d (sym (find_node-other n ns new.key other) ∙ h)
              ∙ sym (find_node-other n ns key past)
        ])
]
  where
    some-ne-none : some n ≢ none
    some-ne-none e = cc

bucket_at-set_same :
    (bs : List BucketList) (i : ℕ) (b : BucketList)
    → i < length bs
    → bucket_at (set_bucket bs i b) i ≡ ok b
unfolding bucket_at set_bucket
bucket_at-set_same [] i b h = absurd (omega arith)
bucket_at-set_same (x ∷ bs) zero b h = refl
bucket_at-set_same (x ∷ bs) (suc i) b h = bucket_at-set_same bs i b (omega arith)

bucket_at-set_other :
    (bs : List BucketList) (i j : ℕ) (b : BucketList)
    → i ≢ j
    → bucket_at (set_bucket bs i b) j ≡ bucket_at bs j
unfolding bucket_at set_bucket
bucket_at-set_other [] i j b h = refl
bucket_at-set_other (x ∷ bs) zero zero b h = absurd (h refl)
bucket_at-set_other (x ∷ bs) zero (suc j) b h = refl
bucket_at-set_other (x ∷ bs) (suc i) zero b h = refl
bucket_at-set_other (x ∷ bs) (suc i) (suc j) b h = bucket_at-set_other bs i j b (λ e. h (ap suc e))

bucket_at-some :
    (bs : List BucketList) (i : ℕ) → i < length bs → (b : BucketList) × (bucket_at bs i ≡ ok b)
unfolding bucket_at
bucket_at-some [] i h = absurd (omega arith)
bucket_at-some (x ∷ bs) zero h = (x, refl)
bucket_at-some (x ∷ bs) (suc i) h = bucket_at-some bs i (omega arith)

-- The table that `put_node` makes, and the bucket it changes.
abbrev Stored : HashTable → ℕ → BucketNode → BucketList → HashTable
Stored t i new b = record t {
  size = t.size + 1;
  buckets = set_bucket t.buckets i (record b { head = put_chain b.head new });
}

put_node-Stored :
    (t : HashTable) (i : ℕ) (new : BucketNode) (b : BucketList)
    → bucket_at t.buckets i ≡ ok b
    → put_node t i new ≡ ok (Stored t i new b)
unfolding put_node
put_node-Stored t i new b h = rw (put_node, h) refl

ht_put-put_node :
    (t : HashTable) (key value : Bytes) (exported : Bool)
    → 4 * t.size < 3 * t.capacity
    → ht_put t key value exported
      ≡ put_node t
          (fnv_1a key % t.capacity)
          (record { key = key; value = value; exported = exported })
unfolding ht_put ht_put_within bn_new
ht_put-put_node t key value exported room = rw (ht_put_within, few) refl
  where
    few : leb (3 * t.capacity) (4 * t.size) ≡ false
    few = ground arith

ht_get-at :
    (t : HashTable) (key : Bytes) (i : ℕ) (b : BucketList)
    → fnv_1a key % t.capacity ≡ i
    → bucket_at t.buckets i ≡ ok b
    → ht_get t key ≡ ok (value_of (find_node b.head key))
unfolding ht_get
ht_get-at t key i b same at = rw (same, at) refl

ht_get-none :
    (t : HashTable) (key : Bytes) (b : BucketList)
    → bucket_at t.buckets (fnv_1a key % t.capacity) ≡ ok b
    → ht_get t key ≡ ok none
    → find_node b.head key ≡ none
unfolding value_of
ht_get-none t key b at h = elim (Option-cases (find_node b.head key)) [
  | inl e ↦ e
  | inr (n, e) ↦ absurd (
      some-ne-none n (
        ap (λ o. ok (value_of o)) (sym e)
        ∙ sym (ht_get-at t key (fnv_1a key % t.capacity) b refl at)
        ∙ h))
]
  where
    some-ne-none :
        (n : BucketNode) → Path (Outcome (Option Bytes)) (ok (some n.value)) (ok none) → ⊥
    some-ne-none n e = cc

ht_get-Stored :
    (t : HashTable) (i : ℕ) (new : BucketNode) (b : BucketList) (key : Bytes)
    → i < length t.buckets
    → bucket_at t.buckets i ≡ ok b
    → new.key ≢ key
    → find_node b.head new.key ≡ none
    → ht_get (Stored t i new b) key ≡ ht_get t key
unfolding ht_get
ht_get-Stored t i new b key le h d fresh = elim (Bool-cases (fnv_1a key % t.capacity == i)) [
  | inl same ↦
      let e : fnv_1a key % t.capacity ≡ i = ground arith in
      ht_get-at (Stored t i new b) key i (record b { head = put_chain b.head new }) e
        (bucket_at-set_same t.buckets i (record b { head = put_chain b.head new }) le)
      ∙ ap (λ o. ok (value_of o)) (find_node-others b.head new key d fresh)
      ∙ sym (ht_get-at t key i b e h)
  | inr other ↦
      let apart : i ≢ fnv_1a key % t.capacity = ground arith in
      rw
        (bucket_at-set_other t.buckets i (fnv_1a key % t.capacity)
          (record b { head = put_chain b.head new }) apart)
        refl
]

-- On a table with room, whose capacity is the number of its buckets, `ht_put` returns a table with
-- one more in its size, in which the key has the value, whether it was there before or not.
pub ht_get-ht_put :
    (t : HashTable) (key value : Bytes) (exported : Bool)
    → length t.buckets ≡ t.capacity
    → 4 * t.size < 3 * t.capacity
    → (t' : HashTable) × (ht_put t key value exported ≡ ok t')
      × (ht_get t' key ≡ ok (some value))
      × (t'.size ≡ t.size + 1)
unfolding ht_get value_of
ht_get-ht_put t key value exported sized room =
    let i = fnv_1a key % t.capacity in
    let new : BucketNode = record { key = key; value = value; exported = exported } in
    let (b, at) = bucket_at-some t.buckets i (omega arith) in
    (
      Stored t i new b,
      ht_put-put_node t key value exported room ∙ put_node-Stored t i new b at,
      rw
          (
            bucket_at-set_same t.buckets i (record b { head = put_chain b.head new }) (omega arith),
            find_node-new b.head new,
          )
          refl,
      refl,
    )

-- On a table with room, whose capacity is the number of its buckets, putting a key that has no
-- value leaves the value of every other key.
pub ht_get-put_fresh :
    (t : HashTable) (key value : Bytes) (exported : Bool) (other : Bytes)
    → length t.buckets ≡ t.capacity
    → 4 * t.size < 3 * t.capacity
    → ht_get t key ≡ ok none
    → key ≢ other
    → (t' : HashTable) × (ht_put t key value exported ≡ ok t') × (ht_get t' other ≡ ht_get t other)
ht_get-put_fresh t key value exported other sized room fresh d =
    let i = fnv_1a key % t.capacity in
    let new : BucketNode = record { key = key; value = value; exported = exported } in
    let (b, at) = bucket_at-some t.buckets i (omega arith) in
    (
      Stored t i new b,
      ht_put-put_node t key value exported room ∙ put_node-Stored t i new b at,
      ht_get-Stored t i new b other (omega arith) at d (ht_get-none t key b at fresh),
    )

-- On a table with room, whose capacity is the number of its buckets, putting the key that stands
-- first in its bucket, with a new value, leaves every other key of that bucket without a value.
pub ht_get-put_first :
    (t : HashTable) (key value : Bytes) (exported : Bool) (other : Bytes) (b : BucketList)
    (n : BucketNode) (ns : List BucketNode)
    → length t.buckets ≡ t.capacity
    → 4 * t.size < 3 * t.capacity
    → bucket_at t.buckets (fnv_1a key % t.capacity) ≡ ok b
    → b.head ≡ n ∷ ns
    → n.key ≡ key
    → fnv_1a other % t.capacity ≡ fnv_1a key % t.capacity
    → key ≢ other
    → (t' : HashTable) × (ht_put t key value exported ≡ ok t') × (ht_get t' other ≡ ok none)
unfolding value_of find_node put_chain
ht_get-put_first t key value exported other b n ns sized room at first keyed same d =
    let i = fnv_1a key % t.capacity in
    let new : BucketNode = record { key = key; value = value; exported = exported } in
    let b' : BucketList = record b { head = put_chain b.head new } in
    (
      Stored t i new b,
      ht_put-put_node t key value exported room ∙ put_node-Stored t i new b at,
      ht_get-at (Stored t i new b) other i b' same (bucket_at-set_same t.buckets i b' (omega arith))
          ∙ ap (λ o. ok (value_of o)) alone,
    )
  where
    only :
        put_chain b.head (record { key = key; value = value; exported = exported })
        ≡ record { key = key; value = value; exported = exported } ∷ []
    only = rw (first, put_chain, keyed, str_eq_refl key) refl

    alone :
        find_node
          (put_chain b.head (record { key = key; value = value; exported = exported }))
          other
        ≡ none
    alone = rw (only, find_node, str_eq-ne key other d) refl
