-- ===== src/Hash/Table.antt =====
-- src/ht.c: the hash table. `get_random_bytes` gives the argument `seed` of ht_new.
pub mod Reads
pub mod Writes
pub mod Tries
pub mod Rounds
pub mod Deletes
use vlib.Base.{
  ℕ, zero, suc, ◌+◌, ◌-◌, ◌%◌, ◌++◌, List, [], Option, none, some, Bool, true, false, Run, ok,
  fault, aborted, ◌>>=◌, Status, success, failure, leb, ◌==◌, if◌then◌else◌, length, replicate,
}
use vlib.Cmp.{CmpFn}
use vlib.Array.{load, store}
use vlib.Hash.{
  Key, Entry, Bucket, Memory, ht_initial_cap, zeroed_bucket, is_found, is_taken, value_at,
  find_entry, ht_bucket_remove, ht_bucket_free, added, refused, present, bucket_insert, resize,
}

pub record Ht {ℓ} (V : Type ℓ) : Type ℓ where
  pub len : ℕ
  pub cap : ℕ
  pub data_size : ℕ
  pub cmp_key : Option (CmpFn Key)
  pub seed : List ℕ
  pub buckets : List (Bucket V)

-- ht_hash: a division by zero is undefined
unfoldable pub hash_at : (Key → List ℕ → ℕ) → List ℕ → ℕ → Key → Run ℕ
hash_at siphash seed cap key = if cap == 0 then fault else ok (siphash key seed % cap)

-- the freed entries of the buckets from `i` on, with the number of rounds left
unfoldable pub free_buckets {ℓ} :
    {V : Type ℓ} → Bool → Bool → List (Bucket V) → ℕ → ℕ → Run (List (Option Key × Option V))
unfolding ht_bucket_free load
free_buckets free_key free_val buckets zero i = ok []
free_buckets free_key free_val buckets (suc n) i = do
  bucket ← load buckets i
  freed ← ht_bucket_free free_key free_val bucket
  rest ← free_buckets free_key free_val buckets n (i + 1)
  ok (freed ++ rest)

module _ {ℓ} {V : Type ℓ} where
  -- a failed `assert` stops the program
  unfoldable pub ht_new : Bool → ℕ → Option (CmpFn Key) → List ℕ → Run (Ht V)
  ht_new allocated data_size cmp_key seed =
      if allocated
      then ok (record {
        len = 0;
        cap = ht_initial_cap;
        data_size = data_size;
        cmp_key = cmp_key;
        seed = seed;
        buckets = replicate ht_initial_cap zeroed_bucket;
      })
      else aborted

  unfoldable pub ht_len : Ht V → ℕ
  ht_len ht = ht.len

  unfoldable pub ht_free : Bool → Bool → Ht V → Run (List (Option Key × Option V))
  unfolding free_buckets
  ht_free free_key free_val ht = free_buckets free_key free_val ht.buckets ht.cap 0

module _ {ℓ} {V : Type ℓ} (siphash : Key → List ℕ → ℕ) where
  abbrev pub ht_hash : Ht V → Key → Run ℕ
  ht_hash ht key = hash_at siphash ht.seed ht.cap key

  -- the entry with the key: ht_has and ht_get up to what they do with it
  unfoldable pub search : Ht V → Key → Run (Option (ℕ × Entry V))
  unfolding hash_at find_entry load
  search ht key = do
    hash ← ht_hash ht key
    bucket ← load ht.buckets hash
    let found = find_entry (is_found ht.cmp_key key) bucket.entries bucket.len 0
    if bucket.cap == 0 then ok none else found

  unfoldable pub ht_has : Ht V → Key → Run Bool
  unfolding search
  ht_has ht key = search ht key >>= λ r. ok (elim r [ none ↦ false | some _ ↦ true ])

  -- the value that the returned pointer is to
  unfoldable pub ht_get : Ht V → Key → Run (Option V)
  unfolding search value_at
  ht_get ht key = search ht key >>= λ r. elim r [
    | none ↦ ok none
    | some (i, cur) ↦ value_at (length key) cur >>= λ v. ok (some v)
  ]

  unfoldable pub ht_resize : Memory → Ht V → Run (Status × Ht V)
  unfolding resize hash_at
  ht_resize m ht = do
    (res, buckets) ← resize m (ht_hash ht) ht.buckets ht.cap
    ok (res, record ht { buckets = buckets })

  -- the resize at the start of the insertions
  unfoldable pub reserve : Memory → Ht V → Run (Status × Ht V)
  unfolding ht_resize
  reserve m ht =
      let resized = ht_resize m ht in if leb ht.cap ht.len then resized else ok (success, ht)

  -- the bucket `hash` after an insertion that changed the bucket only
  unfoldable pub stored : Status → ℕ → Ht V → ℕ → Bucket V → Run (Status × Ht V)
  unfolding store
  stored res more ht hash bucket = do
    buckets ← store ht.buckets hash bucket
    ok (res, record ht { buckets = buckets; len = ht.len + more })

  -- `memcpy` of the value over the old one of the entry `i`, which may be handed to the free function
  overwrite : Bool → Ht V → ℕ → ℕ → Entry V → Key → V → Run (Status × Ht V × Option V)
  unfolding value_at load store
  overwrite fn ht hash i cur key value = do
    old ← value_at (length key) cur
    bucket ← load ht.buckets hash
    entries ← store bucket.entries i (some (record cur { value = value }))
    buckets ← store ht.buckets hash (record bucket { entries = entries })
    ok (success, record ht { buckets = buckets }, if fn then some old else none)

  unfreed : Status × Ht V → Run (Status × Ht V × Option V)
  unfreed (res, ht) = ok (res, ht, none)

  -- ht_insert behind the resize
  unfoldable pub insert_reserved : Memory → Bool → Ht V → Key → V → Run (Status × Ht V × Option V)
  unfolding hash_at bucket_insert stored unfreed overwrite load
  insert_reserved m fn ht key value = do
    hash ← ht_hash ht key
    bucket ← load ht.buckets hash
    r ← bucket_insert m (is_taken ht.cmp_key key) (record { key = key; value = value }) bucket
    elim r [
      | added b ↦ stored success 1 ht hash b >>= unfreed
      | refused b ↦ stored failure 0 ht hash b >>= unfreed
      | present i cur ↦ overwrite fn ht hash i cur key value
    ]

  -- The last result is the old value that the free function `fn` was called on.
  unfoldable pub ht_insert : Memory → Bool → Ht V → Key → V → Run (Status × Ht V × Option V)
  unfolding reserve insert_reserved
  ht_insert m fn ht key value = reserve m ht >>= λ (res, t). elim res [
    | failure ↦ ok (failure, t, none)
    | success ↦ insert_reserved m fn t key value
  ]

  -- ht_try_insert behind the resize
  unfoldable pub try_insert_reserved : Memory → Ht V → Key → V → Run (Status × Ht V)
  unfolding hash_at bucket_insert stored load
  try_insert_reserved m ht key value = do
    hash ← ht_hash ht key
    bucket ← load ht.buckets hash
    r ← bucket_insert m (is_taken ht.cmp_key key) (record { key = key; value = value }) bucket
    elim r [
      | added b ↦ stored success 1 ht hash b
      | refused b ↦ stored failure 0 ht hash b
      | present i cur ↦ ok (failure, ht)
    ]

  unfoldable pub ht_try_insert : Memory → Ht V → Key → V → Run (Status × Ht V)
  unfolding reserve try_insert_reserved
  ht_try_insert m ht key value = reserve m ht >>= λ (res, t). elim res [
    | failure ↦ ok (failure, t)
    | success ↦ try_insert_reserved m t key value
  ]

  -- The last result is what the two free functions were called on.
  unfoldable pub ht_delete :
      Bool → Bool → Ht V → Key → Run (Status × Ht V × Option (Option Key × Option V))
  unfolding hash_at find_entry ht_bucket_remove load store
  ht_delete free_key free_val ht key = do
    hash ← ht_hash ht key
    bucket ← load ht.buckets hash
    let found = find_entry (is_found ht.cmp_key key) bucket.entries bucket.len 0
    r ← if bucket.len == 0 then ok none else found
    elim r [
      | none ↦ ok (failure, ht, none)
      | some (i, cur) ↦ do
        (freed, b) ← ht_bucket_remove free_key free_val bucket i
        buckets ← store ht.buckets hash b
        ok (success, record ht { buckets = buckets; len = ht.len - 1 }, some freed)
    ]
