-- ===== src/Hash/Members.antt =====
-- src/set.c: the set. An entry is an `ht_entry` without a value; set_hash, set_resize and the functions
-- for the buckets are copies of those of ht.c.
pub mod Membership
pub mod Removal
use vlib.Base.{
  ℕ, ◌+◌, ◌-◌, List, Option, none, some, Bool, true, false, Run, ok, aborted, ◌>>=◌, Status,
  success, failure, ◌==◌, if◌then◌else◌, replicate,
}
use vlib.Cmp.{CmpFn}
use vlib.Array.{load, store}
use vlib.Hash.{
  Key, Bucket, Memory, ht_initial_cap, zeroed_bucket, is_found, is_taken, find_entry,
  ht_bucket_remove, added, refused, present, bucket_insert, resize,
}
use vlib.Hash.Table.{hash_at, free_buckets}

-- no value
abbrev pub NoValue : Type 0
NoValue = Unit

pub record Set : Type 0 where
  pub len : ℕ
  pub cap : ℕ
  pub cmp_key : Option (CmpFn Key)
  pub seed : List ℕ
  pub buckets : List (Bucket NoValue)

unfoldable pub set_new : Bool → Option (CmpFn Key) → List ℕ → Run Set
set_new allocated cmp_key seed =
    if allocated
    then ok (record {
      len = 0;
      cap = ht_initial_cap;
      cmp_key = cmp_key;
      seed = seed;
      buckets = replicate ht_initial_cap zeroed_bucket;
    })
    else aborted

unfoldable pub set_len : Set → ℕ
set_len set = set.len

-- ht_entry_free gets no function for the value.
unfoldable pub set_free : Bool → Set → Run (List (Option Key × Option NoValue))
unfolding free_buckets
set_free free_fn set = free_buckets free_fn false set.buckets set.cap 0

module _ (siphash : Key → List ℕ → ℕ) where
  abbrev pub set_hash : Set → Key → Run ℕ
  set_hash set key = hash_at siphash set.seed set.cap key

  unfoldable pub set_has : Set → Key → Run Bool
  unfolding hash_at find_entry load
  set_has set key = do
    hash ← set_hash set key
    bucket ← load set.buckets hash
    let found = find_entry (is_found set.cmp_key key) bucket.entries bucket.len 0
    r ← if bucket.cap == 0 then ok none else found
    ok (elim r [ none ↦ false | some _ ↦ true ])

  unfoldable pub set_resize : Memory → Set → Run (Status × Set)
  unfolding resize hash_at
  set_resize m set = do
    (res, buckets) ← resize m (set_hash set) set.buckets set.cap
    ok (res, record set { buckets = buckets })

  -- the resize at the start of set_insert
  unfoldable pub set_reserve : Memory → Set → Run (Status × Set)
  unfolding set_resize
  set_reserve m set =
      let resized = set_resize m set in if set.len == set.cap then resized else ok (success, set)

  -- set_insert behind the resize
  unfoldable pub set_insert_reserved : Memory → Set → Key → Run (Status × Set)
  unfolding hash_at bucket_insert load store
  set_insert_reserved m set key = do
    hash ← set_hash set key
    bucket ← load set.buckets hash
    r ← bucket_insert m (is_taken set.cmp_key key) (record { key = key; value = tt }) bucket
    elim r [
      | added b ↦ do
        buckets ← store set.buckets hash b
        ok (success, record set { buckets = buckets; len = set.len + 1 })
      | refused b ↦ do
        buckets ← store set.buckets hash b
        ok (failure, record set { buckets = buckets })
      | present i cur ↦ ok (failure, set)
    ]

  unfoldable pub set_insert : Memory → Set → Key → Run (Status × Set)
  unfolding set_reserve set_insert_reserved
  set_insert m set key = set_reserve m set >>= λ (res, s). elim res [
    | failure ↦ ok (failure, s)
    | success ↦ set_insert_reserved m s key
  ]

  -- The last result is the key that the free function was called on.
  unfoldable pub set_delete : Bool → Set → Key → Run (Status × Set × Option Key)
  unfolding hash_at find_entry ht_bucket_remove load store
  set_delete free_fn set key = do
    hash ← set_hash set key
    bucket ← load set.buckets hash
    let found = find_entry (is_found set.cmp_key key) bucket.entries bucket.len 0
    r ← if bucket.len == 0 then ok none else found
    elim r [
      | none ↦ ok (failure, set, none)
      | some (i, cur) ↦ do
        (freed, b) ← ht_bucket_remove free_fn false bucket i
        buckets ← store set.buckets hash b
        ok (success, record set { buckets = buckets; len = set.len - 1 }, freed.0)
    ]
