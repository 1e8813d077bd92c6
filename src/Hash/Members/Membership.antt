-- ===== src/Hash/Members/Membership.antt =====
-- The set stands for the keys that are in it, as a hash table without values.
use mathlib.Core.Path.{subst}
use vlib.Base.{
  Bool-cases, ◌==◌, ◌>>=◌, fault, aborted, out_of_fuel, true, false, ℕ, ◌+◌, ◌≡◌, refl, sym, ◌∙◌,
  List, Option, none, some, false, inl, inr, ok, Returns, returns, Status, success, failure, Run,
  arith, Bool,
}
use vlib.Hash.{
  Key, Bucket, Memory, added, refused, present, Insertion, Entry, load, store, bucket_insert,
  is_taken,
}
use vlib.Hash.Keys.{IsKeyed}
use vlib.Hash.Table.{Ht, stored, try_insert_reserved}
use vlib.Hash.Resizing.{resize-Backs}
use vlib.Hash.Table.Reads.{Models}
use vlib.Hash.Members.{
  Set, NoValue, set_has, set_reserve, set_resize, set_insert_reserved, set_insert, hash_at,
}
use vlib.Hash.Table.{ht_has, search}
use vlib.Hash.Table.Reads.{ht_has-reads}
use vlib.Hash.Table.Tries.{TryInserts, try_insert_reserved-TryInserts}

-- the fields of a set are laid out as those of a table
abbrev pub as_ht : Set → Ht NoValue
as_ht set = record {
  len = set.len;
  cap = set.cap;
  data_size = 0;
  cmp_key = set.cmp_key;
  seed = set.seed;
  buckets = set.buckets;
}

-- `has` tells which keys are in the set
abbrev pub IsSetOf : (Key → List ℕ → ℕ) → (Key → Option NoValue) → Set → Type 0
IsSetOf siphash members set = Models siphash members (as_ht set)

-- two runs that go on alike after the same start
pub bind_through {ℓ ℓ' ℓ''} :
    {A : Type ℓ} {B : Type ℓ'} {C : Type ℓ''} (r : Run A) (f : A → Run C) (g : A → Run B)
    (k : B → Run C)
    → ((a : A) → f a ≡ (g a >>= k))
    → (r >>= f) ≡ ((r >>= g) >>= k)
bind_through (ok a) f g k e = e a
bind_through fault f g k e = refl
bind_through aborted f g k e = refl
bind_through out_of_fuel f g k e = refl

module _ (siphash : Key → List ℕ → ℕ) where
  found_if : Option (ℕ × Entry NoValue) → Run Bool
  found_if r = ok (elim r [ none ↦ false | some _ ↦ true ])

  -- set_has is ht_has
  set_has-as_ht : (set : Set) (key : Key) → set_has siphash set key ≡ ht_has siphash (as_ht set) key
  unfolding set_has ht_has search found_if
  set_has-as_ht set key =
      bind_through (hash_at siphash set.seed set.cap key) _ _ found_if
        λ hash. bind_through (load set.buckets hash) _ _ found_if λ bucket. refl

  lifted : Status × Set → Run (Status × Ht NoValue)
  lifted (s, w) = ok (s, as_ht w)

  -- set_insert and ht_try_insert do the same once there is room
  set_insert_reserved-as_ht :
      (m : Memory) (set : Set) (key : Key)
      → try_insert_reserved siphash m (as_ht set) key tt
        ≡ (set_insert_reserved siphash m set key >>= lifted)
  unfolding set_insert_reserved try_insert_reserved stored lifted
  set_insert_reserved-as_ht m set key =
      bind_through (hash_at siphash set.seed set.cap key) _ _ lifted λ hash.
        bind_through (load set.buckets hash) _ _ lifted λ bucket.
          bind_through
            (bucket_insert m (is_taken set.cmp_key key) (record { key = key; value = tt }) bucket) _
            _ lifted λ r. same hash r
    where
      none_more : set.len + 0 ≡ set.len
      none_more = omega arith

      same :
          (hash : ℕ) (r : Insertion NoValue)
          → elim r as (λ _. Run (Status × Ht NoValue)) [
            | added b ↦ stored siphash success 1 (as_ht set) hash b
            | refused b ↦ stored siphash failure 0 (as_ht set) hash b
            | present i cur ↦ ok (failure, as_ht set)
          ]
            ≡ (elim r as (λ _. Run (Status × Set)) [
              | added b ↦ do
                buckets ← store set.buckets hash b
                ok (success, record set { buckets = buckets; len = set.len + 1 })
              | refused b ↦ do
                buckets ← store set.buckets hash b
                ok (failure, record set { buckets = buckets })
              | present i cur ↦ ok (failure, set)
            ]
                >>= lifted)
      same hash (added b) = bind_through (store set.buckets hash b) _ _ lifted λ buckets. refl
      same hash (refused b) =
          bind_through (store set.buckets hash b) _ _ lifted λ buckets. rw none_more refl
      same hash (present i cur) = refl

  -- What set_insert of a key leaves of a set: the key is new and added, or the set is as it was,
  -- because the key is in it or for want of memory.
  abbrev pub SetInserts : Memory → (Key → Option NoValue) → Set → Key → Status × Set → Type 0
  SetInserts m f set key (s, w) = TryInserts siphash m f (as_ht set) key tt (s, as_ht w)

  lowered :
      (m : Memory) (f : Key → Option NoValue) (old : Set) (key : Key) (r : Run (Status × Set))
      → Returns (TryInserts siphash m f (as_ht old) key tt) (r >>= lifted)
      → Returns (SetInserts m f old key) r
  unfolding lifted
  lowered m f old key (ok (s, w)) (a, e, p) =
      let same : (s, as_ht w) ≡ a = cc in
      returns (subst (TryInserts siphash m f (as_ht old) key tt) (sym same) p)
  lowered m f old key fault (a, e, p) = cc
  lowered m f old key aborted (a, e, p) = cc
  lowered m f old key out_of_fuel (a, e, p) = cc

  module _ (f : Key → Option NoValue) (set : Set) (laws : IsKeyed siphash set.seed set.cmp_key)
      (models : IsSetOf siphash f set) where
    -- On a set that stands for the keys at which `f` has a value, set_has returns whether the key is
    -- one of them.
    pub set_has-reads :
        (key : Key) → set_has siphash set key ≡ ok (elim (f key) [ none ↦ false | some _ ↦ true ])
    set_has-reads key = set_has-as_ht set key ∙ ht_has-reads siphash f (as_ht set) models key

    insert_reserved-SetInserts :
        (m : Memory) (key : Key)
        → Returns (SetInserts m f set key) (set_insert_reserved siphash m set key)
    insert_reserved-SetInserts m key = lowered m f set key (set_insert_reserved siphash m set key) (
        rw (← set_insert_reserved-as_ht m set key)
          (try_insert_reserved-TryInserts siphash m f (as_ht set) laws models key tt))

  -- the resize before an insertion keeps the members
  set_reserve-Models :
      (m : Memory) (f : Key → Option NoValue) (set : Set)
      → IsKeyed siphash set.seed set.cmp_key
      → IsSetOf siphash f set
      → (s : Status) × (bs : List (Bucket NoValue)) × (set_reserve siphash m set
          ≡ ok (s, record set { buckets = bs }))
        × IsSetOf siphash f (record set { buckets = bs })
        × (s ≡ failure → m.table ≡ false)
  unfolding set_reserve set_resize
  set_reserve-Models m f set laws models =
      let r = models.meant in
      elim (Bool-cases (set.len == set.cap)) [
        | inr room ↦ (success, set.buckets, rw room refl, models, λ e. cc)
        | inl full ↦
            let ((s, bs), run, (backs, short)) =
              resize-Backs siphash set.seed set.cmp_key set.cap laws models.some_cap m set.buckets
                models.chains models.backed r.width r.placed in
            (
              s,
              bs,
              rw (full, run) refl,
              record {
                chains = models.chains;
                backed = backs;
                meant = models.meant;
                some_cap = models.some_cap;
              },
              short,
            )
      ]

  -- For keys that are compared and hashed consistently, set_insert returns 0 only for a key that is not
  -- in the set, which then has this key more, and -1 only if the key is in the set or a request for
  -- memory was refused, with the members as they were.
  pub set_insert-SetInserts :
      (m : Memory) (f : Key → Option NoValue) (set : Set) (key : Key)
      → IsKeyed siphash set.seed set.cmp_key
      → IsSetOf siphash f set
      → Returns (SetInserts m f set key) (set_insert siphash m set key)
  unfolding set_insert
  set_insert-SetInserts m f set key laws models =
      let (s, bs, run, mt, short) = set_reserve-Models m f set laws models in
      rw run (go s bs mt short)
    where
      go :
          (s : Status) (bs : List (Bucket NoValue))
          → IsSetOf siphash f (record set { buckets = bs })
          → (s ≡ failure → m.table ≡ false)
          → Returns (SetInserts m f set key) (elim s [
            | failure ↦ ok (failure, record set { buckets = bs })
            | success ↦ set_insert_reserved siphash m (record set { buckets = bs }) key
          ])
      go success bs mt short =
          insert_reserved-SetInserts f (record set { buckets = bs }) laws mt m key
      go failure bs mt short = returns (mt, refl, refl, inl (inl (short refl)))
