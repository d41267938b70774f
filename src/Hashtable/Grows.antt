-- ===== src/Hashtable/Grows.antt =====
-- src/hashtable.c: `ht_put` and the resizing that it calls, which calls it again.
use codecrafters_shell_c.Common.{
  ℕ, zero, suc, ◌*◌, ◌%◌, ◌≤◌, ◌<◌, ◌≡◌, refl, Bool, true, false, ◌||◌, List, [], ◌∷◌, arith, leb,
  length, inl, inr, Bool-cases,
}
use codecrafters_shell_c.Common.Bytes.{str_eq}
use codecrafters_shell_c.Common.Outcome.{ok, Ends, Ends-bind, Ends-mono}
use codecrafters_shell_c.Hashtable.Buckets.{BucketNode, bn_new, BucketList, blist_new, fnv_1a}
use codecrafters_shell_c.Hashtable.Table.{
  HashTable, max_capacity, empty_buckets, bucket_at, set_bucket, put_chain, put_node, Put, put_all,
  rehash, hashtable_resize, ht_put_within, ht_put,
}

-- Whether `f` nested calls are enough for a table of `c` buckets: each doubles the buckets.
enough : ℕ → ℕ → Bool
enough zero c = false
enough (suc f) c = leb max_capacity (c * 2) || enough f (c * 2)

pub length-set_bucket :
    (bs : List BucketList) (i : ℕ) (b : BucketList) → length (set_bucket bs i b) ≡ length bs
unfolding set_bucket
length-set_bucket [] i b = refl
length-set_bucket (x ∷ bs) zero b = refl
length-set_bucket (x ∷ bs) (suc i) b = omega (arith, length-set_bucket bs i b)

length-empty_buckets : (n : ℕ) → length (empty_buckets n) ≡ n
unfolding empty_buckets
length-empty_buckets zero = refl
length-empty_buckets (suc n) = omega (arith, length-empty_buckets n)

module _ (P : BucketNode → Type 0) where
  abbrev pub AllNodes : List BucketNode → Type 0
  AllNodes [] = Unit {0}
  AllNodes (n ∷ ns) = P n × AllNodes ns

  abbrev pub AllBuckets : List BucketList → Type 0
  AllBuckets [] = Unit {0}
  AllBuckets (b ∷ bs) = AllNodes b.head × AllBuckets bs

  -- A table whose capacity is the number of its buckets, with nodes of the given kind.
  abbrev pub IsTable : HashTable → Type 0
  IsTable t = (length t.buckets ≡ t.capacity) × (0 < t.capacity) × AllBuckets t.buckets

  abbrev pub Grown : ℕ → HashTable → Type 0
  Grown c t = IsTable t × (c ≤ t.capacity)

  pub empty_buckets-All : (n : ℕ) → AllBuckets (empty_buckets n)
  unfolding empty_buckets blist_new
  empty_buckets-All zero = tt
  empty_buckets-All (suc n) = (tt, empty_buckets-All n)

  pub bucket_at-Ends :
      (bs : List BucketList) (i : ℕ)
      → AllBuckets bs
      → i < length bs
      → Ends (λ b. AllNodes b.head) (bucket_at bs i)
  unfolding bucket_at
  bucket_at-Ends [] i a h = omega arith
  bucket_at-Ends (b ∷ bs) zero a h = a.0
  bucket_at-Ends (b ∷ bs) (suc i) a h = bucket_at-Ends bs i a.1 (omega arith)

  set_bucket-All :
      (bs : List BucketList) (i : ℕ) (b : BucketList)
      → AllBuckets bs
      → AllNodes b.head
      → AllBuckets (set_bucket bs i b)
  unfolding set_bucket
  set_bucket-All [] i b a h = tt
  set_bucket-All (x ∷ bs) zero b a h = (h, a.1)
  set_bucket-All (x ∷ bs) (suc i) b a h = (a.0, set_bucket-All bs i b a.1 h)

  put_chain-All :
      (ns : List BucketNode) (new : BucketNode) → AllNodes ns → P new → AllNodes (put_chain ns new)
  unfolding put_chain
  put_chain-All [] new a p = (p, tt)
  put_chain-All (n ∷ ns) new a p = elim (Bool-cases (str_eq n.key new.key)) [
    | inl same ↦ rw (put_chain, same) (p, tt)
    | inr other ↦ rw (put_chain, other) (a.0, put_chain-All ns new a.1 p)
  ]

  pub put_node-Ends :
      (t : HashTable) (hash : ℕ) (new : BucketNode)
      → IsTable t
      → hash < t.capacity
      → P new
      → Ends (Grown t.capacity) (put_node t hash new)
  unfolding put_node
  put_node-Ends t hash new g h p =
      Ends-bind (Grown t.capacity) (bucket_at t.buckets hash) _
        (bucket_at-Ends t.buckets hash g.2 (omega arith))
        (λ b a. (
          (
            omega (
              arith,
              length-set_bucket t.buckets hash (record b { head = put_chain b.head new }),
            ),
            g.1,
            set_bucket-All t.buckets hash _ g.2 (put_chain-All b.head new a p),
          ),
          omega arith,
        ))

  -- What is asked of the `ht_put` that resizing calls, on tables of at least `c` buckets.
  Puts : ℕ → Put → Type 0
  Puts c put =
      (t : HashTable) (n : BucketNode)
      → IsTable t
      → c ≤ t.capacity
      → P n
      → Ends (Grown t.capacity) (put t n.key n.value n.exported)

  put_all-Ends :
      (c : ℕ) (put : Put) (ns : List BucketNode) (t : HashTable)
      → Puts c put
      → AllNodes ns
      → Grown c t
      → Ends (Grown c) (put_all put ns t)
  unfolding put_all Puts
  put_all-Ends c put [] t h a g = g
  put_all-Ends c put (n ∷ ns) t h a g =
      Ends-bind (Grown c) (put t n.key n.value n.exported) _ (h t n g.0 g.1 a.0)
        (λ t' g'. put_all-Ends c put ns t' h a.1 (g'.0, omega arith))

  rehash-Ends :
      (c : ℕ) (put : Put) (bs : List BucketList) (t : HashTable)
      → Puts c put
      → AllBuckets bs
      → Grown c t
      → Ends (Grown c) (rehash put bs t)
  unfolding rehash
  rehash-Ends c put [] t h a g = g
  rehash-Ends c put (b ∷ bs) t h a g =
      Ends-bind (Grown c) (put_all put b.head t) _ (put_all-Ends c put b.head t h a.0 g)
        (λ t' g'. rehash-Ends c put bs t' h a.1 g')

  hashtable_resize-Ends :
      (b : ℕ) (put : Put) (t : HashTable)
      → IsTable t
      → b ≤ t.capacity
      → (leb max_capacity (t.capacity * 2) ≡ false → Puts (b * 2) put)
      → Ends (λ r. Grown t.capacity (r.1)) (hashtable_resize put t (t.capacity * 2))
  unfolding hashtable_resize Puts
  hashtable_resize-Ends b put t g le h = elim (Bool-cases (leb max_capacity (t.capacity * 2))) [
    | inl full ↦ rw (hashtable_resize, full) (g, omega arith)
    | inr room ↦
        rw (hashtable_resize, room)
          (Ends-bind (λ r. Grown t.capacity (r.1))
            (rehash put t.buckets
              (record t { capacity = t.capacity * 2; buckets = empty_buckets (t.capacity * 2) }))
            _
            (rehash-Ends (t.capacity * 2) put t.buckets _
              (λ u n k m p. h room u n k (omega arith) p) g.2
              (
                (
                  length-empty_buckets (t.capacity * 2),
                  omega arith,
                  empty_buckets-All (t.capacity * 2),
                ),
                omega arith,
              ))
            (λ u k. (k.0, omega arith)))
  ]

  within-Ends :
      (f b : ℕ) (t : HashTable) (n : BucketNode)
      → enough f b ≡ true
      → IsTable t
      → b ≤ t.capacity
      → P n
      → Ends (Grown t.capacity) (ht_put_within f t n.key n.value n.exported)
  unfolding ht_put_within enough bn_new Puts
  within-Ends zero b t n e g le p = cc
  within-Ends (suc f) b t n e g le p =
      let hash = fnv_1a n.key % t.capacity in
      elim (Bool-cases (leb (3 * t.capacity) (4 * t.size))) [
        | inl crowded ↦
            rw (ht_put_within, crowded)
              (Ends-bind (Grown t.capacity) (hashtable_resize (ht_put_within f) t (t.capacity * 2))
                _
                (hashtable_resize-Ends b (ht_put_within f) t g le
                  (λ room u m k c q. within-Ends f (b * 2) u m (deeper room) k c q))
                (λ r k. put_or_stop r.0 r.1 k))
        | inr room ↦ rw (ht_put_within, room) (put_node-Ends t hash n g (omega arith) p)
      ]
    where
      deeper : leb max_capacity (t.capacity * 2) ≡ false → enough f (b * 2) ≡ true
      deeper room = ground arith

      put_or_stop :
          (failed : Bool) (u : HashTable)
          → Grown t.capacity u
          → Ends
              (Grown t.capacity)
              (elim failed [ true ↦ ok u | false ↦ put_node u (fnv_1a n.key % t.capacity) n ])
      put_or_stop true u k = k
      put_or_stop false u k =
          Ends-mono (put_node u (fnv_1a n.key % t.capacity) n) (λ v m. (m.0, omega arith))
            (put_node-Ends u (fnv_1a n.key % t.capacity) n k.0 (omega arith) p)

  -- On a table whose capacity is the number of its buckets and whose nodes are all of some kind,
  -- `ht_put` of such a node returns: it neither faults nor runs out of calls. The new table is of
  -- the same sort, and has no fewer buckets.
  pub ht_put-Ends :
      (t : HashTable) (n : BucketNode)
      → IsTable t
      → P n
      → Ends (λ t'. IsTable t' × (t.capacity ≤ t'.capacity)) (ht_put t n.key n.value n.exported)
  unfolding ht_put enough
  ht_put-Ends t n g p = within-Ends 30 1 t n refl g g.1 p
