-- ===== src/Hash/Table/Tries.antt =====
-- ht_try_insert adds a key, and refuses one that is there.
use vlib.Base.{
  ℕ, ◌+◌, ◌≡◌, ◌⊎◌, refl, sym, ◌∙◌, List, Option, none, some, false, inl, inr, ok, Returns, returns,
  Returns-bind, Status, success, failure,
}
use vlib.Hash.{Key, Bucket, Memory, is_found, added, refused, present, Insertion}
use vlib.Hash.Entries.{first-FirstAt}
use vlib.Hash.Entries.Adding.{Inserted, bucket_insert-Inserted}
use vlib.Hash.Keys.{is_taken-is_found}
use vlib.Hash.Places.{home, hash_at-home, update, added-Represents}
use vlib.Hash.Table.{Ht, stored, try_insert_reserved, ht_try_insert}
use vlib.Hash.Table.Reads.{Models, KeysOf, bucket-Holds, chain-reads}
use vlib.Hash.Table.Writes.{
  Short, Reserved, reserve-Reserved, own, changed, unchanged, absent_value,
}

module _ {ℓ} {V : Type ℓ} where
  -- what ht_try_insert of `value` at `key` leaves of a table that means `f`
  abbrev pub TryInserts :
      (Key → List ℕ → ℕ) → Memory → (Key → Option V) → Ht V → Key → V → Status × Ht V → Type ℓ
  TryInserts siphash m f ht key value (success, w) =
      Models siphash (update ht.cmp_key f key (some value)) w
      × (f key ≡ none)
      × (w.len ≡ ht.len + 1)
      × (w ≡ record ht { len = w.len; buckets = w.buckets })
  TryInserts siphash m f ht key value (failure, w) =
      Models siphash f w
      × (w.len ≡ ht.len)
      × (w ≡ record ht { len = w.len; buckets = w.buckets })
      × (Short m ⊎ ((v : V) × (f key ≡ some v)))

  module _ (siphash : Key → List ℕ → ℕ) (m : Memory) (f : Key → Option V) (ht : Ht V)
      (laws : KeysOf siphash ht) (models : Models siphash f ht) (key : Key) where
    try-TryInserts :
        (value : V) (r : Insertion V)
        → Inserted
            (is_found ht.cmp_key key)
            (record { key = key; value = value })
            m.bucket
            m.entry
            (own siphash m f ht laws models key)
            r
        → Returns (TryInserts siphash m f ht key value) (elim r [
          | added b ↦ stored siphash success 1 ht (home siphash ht.seed ht.cap key) b
          | refused b ↦ stored siphash failure 0 ht (home siphash ht.seed ht.cap key) b
          | present i cur ↦ ok (failure, ht)
        ])
    try-TryInserts value (added w) (hw, absent) =
        let gone = absent_value siphash m f ht laws models key absent in
        let meant =
          added-Represents siphash ht.seed ht.cmp_key ht.cap laws ht.len f models.chains
            models.meant models.some_cap key value gone in
        let (t, run, mt, len, cap) =
          changed siphash m f ht laws models key success 1 _ w _ hw meant in
        rw run (returns (mt, gone, len, cap))
    try-TryInserts value (refused w) (hw, absent, short) =
        let (t, run, mt, len, cap) = unchanged siphash m f ht laws models key w hw in
        rw run (returns (mt, len, cap, inl (inr short)))
    try-TryInserts value (present i cur) hit =
        let at =
          first-FirstAt (is_found ht.cmp_key key) (own siphash m f ht laws models key) 0 i cur
            hit in
        returns (
          models,
          refl,
          refl,
          inr (cur.value, sym (chain-reads siphash f ht models key) ∙ at.found),
        )

    pub try_insert_reserved-TryInserts :
        (value : V)
        → Returns (TryInserts siphash m f ht key value) (try_insert_reserved siphash m ht key value)
    unfolding try_insert_reserved
    try_insert_reserved-TryInserts value =
        let (b, at, hb) = bucket-Holds siphash f ht models key in
        rw
          (
            hash_at-home siphash ht.seed ht.cap key models.some_cap,
            at,
            is_taken-is_found siphash ht.seed ht.cmp_key laws key,
          )
          (Returns-bind _ _
            (bucket_insert-Inserted (is_found ht.cmp_key key) (record { key = key; value = value })
              m b (own siphash m f ht laws models key) hb)
            λ r i. try-TryInserts value r i)

  -- For keys that are compared and hashed consistently, and a table that stands for a map,
  -- ht_try_insert returns 0 only if the map has no value at the key, with the value then added, and -1
  -- only if the key is there or a request for memory was refused, with the map as it was.
  pub ht_try_insert-TryInserts :
      (siphash : Key → List ℕ → ℕ) (m : Memory) (f : Key → Option V) (ht : Ht V) (key : Key)
      (value : V)
      → KeysOf siphash ht
      → Models siphash f ht
      → Returns (TryInserts siphash m f ht key value) (ht_try_insert siphash m ht key value)
  unfolding ht_try_insert Reserved
  ht_try_insert-TryInserts siphash m f ht key value laws models =
      let (s, bs, run, mt, short) = reserve-Reserved siphash m f ht laws models in
      rw run (go s bs mt short)
    where
      go :
          (s : Status) (bs : List (Bucket V))
          → Models siphash f (record ht { buckets = bs })
          → (s ≡ failure → m.table ≡ false)
          → Returns (TryInserts siphash m f ht key value) (elim s [
            | failure ↦ ok (failure, record ht { buckets = bs })
            | success ↦ try_insert_reserved siphash m (record ht { buckets = bs }) key value
          ])
      go success bs mt short =
          try_insert_reserved-TryInserts siphash m f (record ht { buckets = bs }) laws mt key value
      go failure bs mt short = returns (mt, refl, refl, inl (inl (short refl)))
