-- ===== src/Hash.antt =====
-- src/ht.c and set.c: buckets of entries, shared by the hash table and the set. The static functions
-- of set.c for the buckets are copies of those of ht.c. A key is a block of bytes; siphash is the
-- parameter `siphash`. Counts of allocated entries and slots are taken not to wrap.
pub mod Entries
pub mod Chains
pub mod Keys
pub mod Places
pub mod Resizing
pub mod Table
pub mod Members
use vlib.Base.{
  ℕ, zero, suc, ◌+◌, ◌-◌, ◌*◌, ◌%◌, ◌++◌, List, [], ◌∷◌, Option, none, some, Bool, true, false,
  ◌&&◌, Run, ok, fault, ◌>>=◌, from_option, Status, success, failure, leb, ◌==◌, if◌then◌else◌,
  length, take, replicate,
}
use vlib.Cmp.{CmpFn, is_zero}
use vlib.Array.{load, store, memmove}

abbrev pub Key : Type 0
Key = List ℕ

-- `ht_entry`: the key, and the value behind its padding
pub record Entry {ℓ} (V : Type ℓ) : Type ℓ where
  pub key : Key
  pub value : V

-- `entries` is an array of pointers
pub record Bucket {ℓ} (V : Type ℓ) : Type ℓ where
  pub len : ℕ
  pub cap : ℕ
  pub entries : List (Option (Entry V))

abbrev pub ht_initial_cap : ℕ
ht_initial_cap = 32

abbrev pub ht_bucket_initial_cap : ℕ
ht_bucket_initial_cap = 2

-- Which requests for memory succeed: for the table, for a bucket, for an entry, and for the bucket
-- into which a resize moves the entry `j` of the bucket `i`.
pub record Memory : Type 0 where
  pub table : Bool
  pub bucket : Bool
  pub entry : Bool
  pub moved : ℕ → ℕ → Bool

-- `key_len == cur_key_len && memcmp(key, cur->data, key_len) == 0`
unfoldable pub bytes_equal : Key → Key → Bool
bytes_equal [] [] = true
bytes_equal [] (b ∷ ys) = false
bytes_equal (a ∷ xs) [] = false
bytes_equal (a ∷ xs) (b ∷ ys) = (a == b) && bytes_equal xs ys

-- The tests for an entry: `cmp_key`, a null pointer if `none`, is called on the key and the entry's,
-- and in the insertions on the entry's and the key.
abbrev pub is_found : Option (CmpFn Key) → Key → Key → Bool
is_found none key cur = bytes_equal key cur
is_found (some fn) key cur = is_zero (fn key cur)

abbrev pub is_taken : Option (CmpFn Key) → Key → Key → Bool
is_taken none key cur = bytes_equal key cur
is_taken (some fn) key cur = is_zero (fn cur key)

-- `& (8 - 1)` keeps the remainder by 8
abbrev pub ht_padding : ℕ → ℕ
ht_padding size = (8 - (size + 8) % 8) % 8

-- the distance of the value from the start of the key
abbrev pub offset : ℕ → ℕ
offset key_len = key_len + ht_padding key_len

module _ {ℓ} {V : Type ℓ} where
  abbrev pub zeroed_bucket : Bucket V
  zeroed_bucket = record { len = 0; cap = 0; entries = [] }

  -- The value, through the offset for the caller's `key_len`. At another offset than that of the
  -- entry's own key stand other bytes.
  unfoldable pub value_at : ℕ → Entry V → Run V
  value_at key_len cur = if offset key_len == offset (length cur.key) then ok cur.value else fault

  unfoldable pub ht_init_bucket : Bool → Bucket V → Status × Bucket V
  ht_init_bucket allocated bucket =
      if allocated
      then (
        success,
        record bucket {
          cap = ht_bucket_initial_cap;
          entries = replicate ht_bucket_initial_cap none;
        },
      )
      else (failure, bucket)

  -- The block is moved with its first `len` pointers and cleared behind them.
  unfoldable pub ht_realloc_bucket : Bool → Bucket V → Status × Bucket V
  ht_realloc_bucket allocated bucket =
      let new_cap = bucket.cap * 2 in
      if allocated
      then (
        success,
        record bucket {
          cap = new_cap;
          entries = take bucket.len bucket.entries ++ replicate (new_cap - bucket.len) none;
        },
      )
      else (failure, bucket)

  -- the loop over a bucket with the number of rounds left: the first entry that passes the test
  unfoldable pub find_entry :
      (Key → Bool) → List (Option (Entry V)) → ℕ → ℕ → Run (Option (ℕ × Entry V))
  unfolding load
  find_entry test entries zero i = ok none
  find_entry test entries (suc n) i = do
    pointer ← load entries i
    cur ← from_option pointer
    let rest = find_entry test entries n (i + 1)
    if test cur.key then ok (some (i, cur)) else rest

  -- `bucket->entries[at] = entry; bucket->len++`
  unfoldable pub place : Bucket V → ℕ → Entry V → Run (Bucket V)
  unfolding store
  place bucket at entry = do
    entries ← store bucket.entries at (some entry)
    ok (record bucket { len = bucket.len + 1; entries = entries })

  -- ht_entry_free: the key and the value handed to the two free functions
  unfoldable pub ht_entry_free : Bool → Bool → Entry V → Option Key × Option V
  ht_entry_free free_key free_val entry =
      (if free_key then some entry.key else none, if free_val then some entry.value else none)

  unfoldable pub ht_bucket_remove :
      Bool → Bool → Bucket V → ℕ → Run ((Option Key × Option V) × Bucket V)
  unfolding load store memmove ht_entry_free
  ht_bucket_remove free_key free_val bucket idx = do
    pointer ← load bucket.entries idx
    entry ← from_option pointer
    let freed = ht_entry_free free_key free_val entry
    let len = bucket.len - 1
    let last = store bucket.entries 0 none
    let inner = memmove bucket.entries idx (idx + 1) (len - idx) >>= λ moved. store moved len none
    entries ← if len == 0 then last else inner
    ok (freed, record bucket { len = len; entries = entries })

  -- the entries from `i` on, with the number of rounds left
  free_entries : Bool → Bool → List (Option (Entry V)) → ℕ → ℕ → Run (List (Option Key × Option V))
  free_entries free_key free_val entries zero i = ok []
  free_entries free_key free_val entries (suc n) i = do
    pointer ← load entries i
    entry ← from_option pointer
    rest ← free_entries free_key free_val entries n (i + 1)
    ok (ht_entry_free free_key free_val entry ∷ rest)

  unfoldable pub ht_bucket_free : Bool → Bool → Bucket V → Run (List (Option Key × Option V))
  unfolding free_entries load ht_entry_free
  ht_bucket_free free_key free_val bucket =
      let all = free_entries free_key free_val bucket.entries bucket.len 0 in
      if bucket.cap == 0 then ok [] else all

-- What the part of an insertion that works on one bucket does: the new entry was added, memory was
-- missing, or the key is there already.
pub data Insertion {ℓ} (V : Type ℓ) : Type ℓ where
  added refused : Bucket V → Insertion V
  present : ℕ → Entry V → Insertion V

module _ {ℓ} {V : Type ℓ} where
  -- ht_entry_new, and the new entry in its place
  add_entry : Bool → Bucket V → ℕ → Entry V → Run (Insertion V)
  unfolding place
  add_entry allocated bucket at entry =
      let put = place bucket at entry >>= λ b. ok (added b) in
      if allocated then put else ok (refused bucket)

  -- the same, once the bucket has room for it
  add_with_room : Bool → ℕ → Entry V → Status × Bucket V → Run (Insertion V)
  unfolding add_entry
  add_with_room allocated at entry (failure, bucket) = ok (refused bucket)
  add_with_room allocated at entry (success, bucket) = add_entry allocated bucket at entry

  -- the insertions behind the choice of the bucket
  unfoldable pub bucket_insert : Memory → (Key → Bool) → Entry V → Bucket V → Run (Insertion V)
  unfolding ht_init_bucket ht_realloc_bucket find_entry add_with_room
  bucket_insert m taken entry bucket =
      let grown =
        if bucket.len == bucket.cap then ht_realloc_bucket m.bucket bucket else (success, bucket) in
      let absent = add_with_room m.entry bucket.len entry grown in
      let search = find_entry taken bucket.entries bucket.len 0 >>= λ r. elim r [
        | some (i, cur) ↦ ok (present i cur)
        | none ↦ absent
      ] in
      if bucket.cap == 0
      then add_with_room m.entry 0 entry (ht_init_bucket m.bucket bucket)
      else if bucket.len == 0
      then add_entry m.entry bucket 0 entry
      else search

  -- the inner loop of a resize over `k < j`: the entry at `j` moves into the first empty slot before it
  unfoldable pub close_gap : List (Option (Entry V)) → ℕ → ℕ → ℕ → Run (List (Option (Entry V)))
  unfolding load store
  close_gap entries zero k j = ok entries
  close_gap entries (suc n) k j = do
    cur ← load entries k
    let rest = close_gap entries n (k + 1) j
    let filled = do p ← load entries j; moved ← store entries k p; store moved j none
    elim cur [ none ↦ filled | some _ ↦ rest ]

  -- room in the bucket for an entry that a resize moves; only the first of the two can happen to a
  -- bucket that has no array yet
  make_room : Bool → Bucket V → Status × Bucket V
  unfolding ht_init_bucket ht_realloc_bucket
  make_room allocated bucket =
      if bucket.cap == 0
      then ht_init_bucket allocated bucket
      else if bucket.len == 0
      then (success, bucket)
      else if bucket.len == bucket.cap
      then ht_realloc_bucket allocated bucket
      else (success, bucket)

  -- the entry at `j` of the bucket `i` goes behind the entries of the bucket `hash`
  move_entry : Bool → List (Bucket V) → ℕ → ℕ → ℕ → Entry V → Run (Status × List (Bucket V))
  unfolding make_room load store
  move_entry allocated buckets i j hash entry = do
    new_bucket ← load buckets hash
    (res, room) ← ok (make_room allocated new_bucket)
    let moved = do
      filled ← store room.entries room.len (some entry)
      bs ← store buckets hash (record room { len = room.len + 1; entries = filled })
      bucket ← load bs i
      left ← store bucket.entries j none
      cs ← store bs i (record bucket { len = bucket.len - 1; entries = left })
      ok (success, cs)
    elim res [ failure ↦ ok (failure, buckets) | success ↦ moved ]

  -- the loop over `j` with the number of rounds left; `hash` is ht_hash
  unfoldable pub resize_bucket :
      (ℕ → ℕ → Bool) → (Key → Run ℕ) → List (Bucket V) → ℕ → ℕ → ℕ → Run (Status × List (Bucket V))
  unfolding close_gap move_entry load store
  resize_bucket moved hash buckets i zero j = ok (success, buckets)
  resize_bucket moved hash buckets i (suc n) j = do
    bucket ← load buckets i
    pointer ← load bucket.entries j
    entry ← from_option pointer
    h ← hash entry.key
    let stay = do
      entries ← close_gap bucket.entries j 0 j
      bs ← store buckets i (record bucket { entries = entries })
      ok (success, bs)
    (res, bs) ← if h == i then stay else move_entry (moved i j) buckets i j h entry
    let rest = resize_bucket moved hash bs i n (j + 1)
    elim res [ failure ↦ ok (failure, bs) | success ↦ rest ]

  -- the loop over `i`
  unfoldable pub resize_buckets :
      (ℕ → ℕ → Bool) → (Key → Run ℕ) → List (Bucket V) → ℕ → ℕ → Run (Status × List (Bucket V))
  unfolding resize_bucket load
  resize_buckets moved hash buckets zero i = ok (success, buckets)
  resize_buckets moved hash buckets (suc n) i = do
    bucket ← load buckets i
    (res, bs) ← resize_bucket moved hash buckets i bucket.len 0
    let rest = resize_buckets moved hash bs n (i + 1)
    elim res [ failure ↦ ok (failure, bs) | success ↦ rest ]

  -- ht_resize, but for the field that it stores the array in: `old_cap` is the table's `cap`, which
  -- the function does not change
  unfoldable pub resize :
      Memory → (Key → Run ℕ) → List (Bucket V) → ℕ → Run (Status × List (Bucket V))
  unfolding resize_buckets
  resize m hash buckets old_cap =
      let new_cap = old_cap * 2 in
      let tmp = take old_cap buckets ++ replicate (new_cap - old_cap) zeroed_bucket in
      if m.table then resize_buckets m.moved hash tmp old_cap 0 else ok (failure, buckets)
