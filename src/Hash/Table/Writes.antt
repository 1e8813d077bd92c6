-- ===== src/Hash/Table/Writes.antt =====
-- ht_insert, ht_try_insert and ht_delete change the map that the table means at one key.
use vlib.Base.{
  set-get_or, ℕ, ◌+◌, ◌≡◌, ◌⊎◌, refl, sym, ◌∙◌, List, [], Option, none, some, Bool, true, false,
  Bool-cases, inl, inr, ok, ◌>>=◌, Returns, returns, Returns-bind, Status, success, failure, arith,
  length, get_or, set, leb, if◌then◌else◌,
}
use vlib.Array.{load}
use vlib.Hash.{Key, Bucket, Memory, is_found, added, refused, present, Insertion}
use vlib.Hash.Entries.{Holds, first, assign, first-FirstAt, first-none}
use vlib.Hash.Entries.Adding.{Inserted, bucket_insert-Inserted}
use vlib.Hash.Entries.Removal.{assign-Holds}
use vlib.Hash.Chains.{Chain, Backs-store}
use vlib.Hash.Keys.{is_taken-is_found}
use vlib.Hash.Places.{home, hash_at-home, Represents, update, added-Represents, assigned-Represents}
use vlib.Hash.Resizing.{resize-Backs}
use vlib.Hash.Table.{Ht, ht_resize, reserve, stored, unfreed, overwrite, insert_reserved, ht_insert}
use vlib.Hash.Table.Reads.{Models, KeysOf, value_at-same, bucket-Holds, chain-reads}

-- some request for memory is refused
abbrev pub Short : Memory → Type 0
Short m = (m.table ≡ false) ⊎ ((m.bucket ≡ false) ⊎ (m.entry ≡ false))

module _ {ℓ} {V : Type ℓ} where
  -- the resize, if there is one, moves the array of buckets; the table means the same map
  unfoldable pub Reserved : (Key → List ℕ → ℕ) → Memory → (Key → Option V) → Ht V → Type ℓ
  Reserved siphash m f ht =
      (s : Status) × (bs : List (Bucket V)) × (reserve siphash m ht
        ≡ ok (s, record ht { buckets = bs }))
      × Models siphash f (record ht { buckets = bs })
      × (s ≡ failure → m.table ≡ false)

  pub reserve-Reserved :
      (siphash : Key → List ℕ → ℕ) (m : Memory) (f : Key → Option V) (ht : Ht V)
      → KeysOf siphash ht
      → Models siphash f ht
      → Reserved siphash m f ht
  unfolding reserve ht_resize Reserved
  reserve-Reserved siphash m f ht laws models =
      let r = models.meant in
      elim (Bool-cases (leb ht.cap ht.len)) [
        | inr room ↦ (success, ht.buckets, rw room refl, models, λ e. cc)
        | inl full ↦
            let ((s, bs), run, (backs, short)) =
              resize-Backs siphash ht.seed ht.cmp_key ht.cap laws models.some_cap m ht.buckets
                models.chains models.backed r.width r.placed in
            (
              s,
              bs,
              rw (full, run) refl,
              record {
                chains = models.chains;
                backed = backs;
                meant = models.meant;
                some_cap = models.some_cap;
              },
              short,
            )
      ]

  -- one more entry, unless there was one with the key
  abbrev pub one_more : Option V → ℕ
  one_more none = 1
  one_more (some v) = 0

  -- what an insertion of `value` at `key` leaves of a table that means `f`
  abbrev pub Inserts :
      (Key → List ℕ → ℕ)
      → Memory
      → Bool
      → (Key → Option V)
      → Ht V
      → Key
      → V
      → Status × Ht V × Option V
      → Type ℓ
  Inserts siphash m fn f ht key value (success, w, freed) =
      Models siphash (update ht.cmp_key f key (some value)) w
      × (w.len ≡ ht.len + one_more (f key))
      × (w ≡ record ht { len = w.len; buckets = w.buckets })
      × (freed ≡ (if fn then f key else none))
  Inserts siphash m fn f ht key value (failure, w, freed) =
      Models siphash f w
      × (w.len ≡ ht.len)
      × (w ≡ record ht { len = w.len; buckets = w.buckets })
      × (freed ≡ none)
      × Short m

  module _ (siphash : Key → List ℕ → ℕ) (m : Memory) (f : Key → Option V) (ht : Ht V)
      (laws : KeysOf siphash ht) (models : Models siphash f ht) (key : Key) where
    abbrev pub own : Chain V
    own = get_or models.chains (home siphash ht.seed ht.cap key) []

    -- the table with other entries in the bucket of the key
    pub changed :
        (res : Status) (more : ℕ) (g : Key → Option V) (b : Bucket V) (c : Chain V)
        → Holds b c
        → Represents siphash ht.seed ht.cmp_key ht.cap
            (ht.len + more)
            g
            (set models.chains (home siphash ht.seed ht.cap key) c)
        → (w : Ht V) × (stored siphash res more ht (home siphash ht.seed ht.cap key) b
            ≡ ok (res, w))
          × Models siphash g w
          × (w.len ≡ ht.len + more)
          × (w ≡ record ht { len = w.len; buckets = w.buckets })
    unfolding stored
    changed res more g b c h r =
        let pos = models.some_cap in
        let width = models.meant.width in
        let (bs, run, backs) =
          Backs-store ht.buckets models.chains (home siphash ht.seed ht.cap key) b c models.backed
            (omega arith) h in
        (
          record ht { len = ht.len + more; buckets = bs },
          rw run refl,
          record { chains = _; backed = backs; meant = r; some_cap = models.some_cap },
          refl,
          refl,
        )

    -- the table as it was, but for the array of the bucket
    pub unchanged :
        (b : Bucket V)
        → Holds b own
        → (w : Ht V) × (stored siphash failure 0 ht (home siphash ht.seed ht.cap key) b
            ≡ ok (failure, w))
          × Models siphash f w
          × (w.len ≡ ht.len)
          × (w ≡ record ht { len = w.len; buckets = w.buckets })
    unchanged b h =
        let same = set-get_or models.chains (home siphash ht.seed ht.cap key) [] in
        let none_more : ht.len + 0 ≡ ht.len = omega arith in
        let (w, run, mw, len, cap) =
          changed failure 0 f b own h (rw (same, none_more) models.meant) in
        (w, run, mw, len ∙ none_more, cap)

    pub absent_value : first (is_found ht.cmp_key key) 0 own ≡ none → f key ≡ none
    absent_value absent =
        sym (chain-reads siphash f ht models key)
        ∙ first-none (is_found ht.cmp_key key) own 0 absent

    no_branch :
        (b : Bool) (none_there : Option V) → none_there ≡ (if b then none_there else none_there)
    no_branch true none_there = refl
    no_branch false none_there = refl

    add-Inserts :
        (fn : Bool) (value : V) (r : Insertion V) (b : Bucket V)
        → load ht.buckets (home siphash ht.seed ht.cap key) ≡ ok b
        → Holds b own
        → Inserted
            (is_found ht.cmp_key key)
            (record { key = key; value = value })
            m.bucket
            m.entry
            own
            r
        → Returns (Inserts siphash m fn f ht key value) (elim r [
          | added b' ↦
              stored siphash success 1 ht (home siphash ht.seed ht.cap key) b' >>= unfreed siphash
          | refused b' ↦
              stored siphash failure 0 ht (home siphash ht.seed ht.cap key) b' >>= unfreed siphash
          | present i cur ↦
              overwrite siphash fn ht (home siphash ht.seed ht.cap key) i cur key value
        ])
    unfolding unfreed overwrite
    add-Inserts fn value (added w) b at hb (hw, absent) =
        let gone = absent_value absent in
        let (t, run, mt, len, cap) = changed success 1 _ w _ hw (
          added-Represents siphash ht.seed ht.cmp_key ht.cap laws ht.len f models.chains
            models.meant models.some_cap key value gone) in
        rw run (returns (mt, rw gone len, cap, rw gone (no_branch fn none)))
    add-Inserts fn value (refused w) b at hb (hw, absent, short) =
        let (t, run, mt, len, cap) = unchanged w hw in
        rw run (returns (mt, len, cap, refl, inr short))
    add-Inserts fn value (present i cur) b at hb hit =
        let t = is_found ht.cmp_key key in
        let f_at = first-FirstAt (is_found ht.cmp_key key) own 0 i cur hit in
        let there : f key ≡ some cur.value =
          sym (chain-reads siphash f ht models key) ∙ f_at.found in
        let pos = models.some_cap in
        let width = models.meant.width in
        let (es, run, hes) = assign-Holds (is_found ht.cmp_key key) b own i cur value hb f_at in
        let (bs, run', backs) =
          Backs-store ht.buckets models.chains (home siphash ht.seed ht.cap key)
            (record b { entries = es }) (assign (is_found ht.cmp_key key) value own) models.backed
            (omega arith) hes in
        let meant =
          assigned-Represents siphash ht.seed ht.cmp_key ht.cap laws ht.len f models.chains
            models.meant models.some_cap key value cur.value f_at.found in
        rw (value_at-same (length key) cur (laws.same_length key cur.key f_at.hit), at, run, run')
          (returns (
            record { chains = _; backed = backs; meant = meant; some_cap = pos },
            rw there (omega arith),
            refl,
            rw there refl,
          ))

    insert_reserved-Inserts :
        (fn : Bool) (value : V)
        → Returns (Inserts siphash m fn f ht key value) (insert_reserved siphash m fn ht key value)
    unfolding insert_reserved
    insert_reserved-Inserts fn value =
        let (b, at, hb) = bucket-Holds siphash f ht models key in
        rw
          (
            hash_at-home siphash ht.seed ht.cap key models.some_cap,
            at,
            is_taken-is_found siphash ht.seed ht.cmp_key laws key,
          )
          (Returns-bind _ _
            (bucket_insert-Inserted (is_found ht.cmp_key key) (record { key = key; value = value })
              m b own hb)
            λ r i. add-Inserts fn value r b at hb i)

  -- For keys that are compared and hashed consistently, and a table that stands for a map, ht_insert
  -- returns, and changes no field but the length and the buckets. If it returns 0, the table stands for
  -- the map with the value at the key, has one entry more if there was none with the key, and the free
  -- function gets the old value. If it returns -1, the table stands for the same map, and a request
  -- for memory was refused.
  pub ht_insert-Inserts :
      (siphash : Key → List ℕ → ℕ) (m : Memory) (fn : Bool) (f : Key → Option V) (ht : Ht V)
      (key : Key) (value : V)
      → KeysOf siphash ht
      → Models siphash f ht
      → Returns (Inserts siphash m fn f ht key value) (ht_insert siphash m fn ht key value)
  unfolding ht_insert Reserved
  ht_insert-Inserts siphash m fn f ht key value laws models =
      let (s, bs, run, mt, short) = reserve-Reserved siphash m f ht laws models in
      rw run (go s bs mt short)
    where
      go :
          (s : Status) (bs : List (Bucket V))
          → Models siphash f (record ht { buckets = bs })
          → (s ≡ failure → m.table ≡ false)
          → Returns (Inserts siphash m fn f ht key value) (elim s [
            | failure ↦ ok (failure, record ht { buckets = bs }, none)
            | success ↦ insert_reserved siphash m fn (record ht { buckets = bs }) key value
          ])
      go success bs mt short =
          insert_reserved-Inserts siphash m f (record ht { buckets = bs }) laws mt key fn value
      go failure bs mt short = returns (mt, refl, refl, refl, inl (short refl))
