-- ===== src/Hash/Members/Removal.antt =====
-- set_delete takes a key out of the set.
use mathlib.Core.Path.{subst}
use vlib.Base.{
  ◌-◌, ap, ◌==◌, ◌>>=◌, true, false, ℕ, ◌+◌, ◌≡◌, refl, List, Option, none, some, ok, Returns,
  returns, Returns-bind, Status, success, failure, Run, Bool, if◌then◌else◌,
}
use vlib.Hash.{
  Key, Bucket, is_found, Entry, load, store, find_entry, ht_entry_free, ht_bucket_remove,
}
use vlib.Hash.Keys.{IsKeyed}
use vlib.Hash.Places.{update}
use vlib.Hash.Table.{Ht, ht_delete}
use vlib.Hash.Table.Reads.{Models}
use vlib.Hash.Table.Deletes.{ht_delete-Deletes, Deletes}
use vlib.Hash.Members.{Set, NoValue, set_delete, hash_at}
use vlib.Hash.Members.Membership.{as_ht, IsSetOf, bind_through}

module _ (siphash : Key → List ℕ → ℕ) (free_fn : Bool) (set : Set) where
  freed_key : Option (Option Key × Option NoValue) → Option Key
  freed_key none = none
  freed_key (some (k, v)) = k

  as_set :
      Status × Ht NoValue × Option (Option Key × Option NoValue) → Run (Status × Set × Option Key)
  as_set (s, ht, freed) = ok (s, record set { len = ht.len; buckets = ht.buckets }, freed_key freed)

  set_delete-as_set :
      (key : Key)
      → set_delete siphash free_fn set key
        ≡ (ht_delete siphash free_fn false (as_ht set) key >>= as_set)
  unfolding set_delete ht_delete as_set freed_key
  set_delete-as_set key = bind_through (hash_at siphash set.seed set.cap key) _ _ as_set λ hash.
      bind_through (load set.buckets hash) _ _ as_set λ bucket.
        bind_through
          (if bucket.len == 0
            then ok none
            else find_entry (is_found set.cmp_key key) bucket.entries bucket.len 0)
          _ _ as_set λ r. same hash bucket r
    where
      same :
          (hash : ℕ) (bucket : Bucket NoValue) (r : Option (ℕ × Entry NoValue))
          → elim r as (λ _. Run (Status × Set × Option Key)) [
            | none ↦ ok (failure, set, none)
            | some (i, cur) ↦ do
              (freed, b) ← ht_bucket_remove free_fn false bucket i
              buckets ← store set.buckets hash b
              ok (success, record set { buckets = buckets; len = set.len - 1 }, freed.0)
          ]
            ≡ (elim r as (λ _. Run (Status × Ht NoValue × Option (Option Key × Option NoValue))) [
              | none ↦ ok (failure, as_ht set, none)
              | some (i, cur) ↦ do
                (freed, b) ← ht_bucket_remove free_fn false bucket i
                buckets ← store set.buckets hash b
                ok (
                  success,
                  record (as_ht set) { buckets = buckets; len = set.len - 1 },
                  some freed,
                )
            ]
                >>= as_set)
      same hash bucket none = refl
      same hash bucket (some (i, cur)) =
          bind_through (ht_bucket_remove free_fn false bucket i) _ _ as_set
            λ (freed, b). bind_through (store set.buckets hash b) _ _ as_set λ buckets. refl

  -- what set_delete leaves of a set whose members are the keys at which `f` has a value
  abbrev pub SetDeletes : (Key → Option NoValue) → Key → Status × Set × Option Key → Type 0
  SetDeletes f key (success, w, freed) =
      IsSetOf siphash (update set.cmp_key f key none) w
      × (w.len + 1 ≡ set.len)
      × ((k : Key) × (is_found set.cmp_key key k ≡ true)
          × (f key ≡ some tt)
          × (freed ≡ (if free_fn then some k else none)))
  SetDeletes f key (failure, w, freed) = (w ≡ set) × (f key ≡ none) × (freed ≡ none)

  -- For keys that are compared and hashed consistently, set_delete returns -1 and leaves the set
  -- alone if the key is not in it; otherwise it returns 0, the key is not in the set any more, and the
  -- free function gets the stored key.
  pub set_delete-SetDeletes :
      (f : Key → Option NoValue) (key : Key)
      → IsKeyed siphash set.seed set.cmp_key
      → IsSetOf siphash f set
      → Returns (SetDeletes f key) (set_delete siphash free_fn set key)
  unfolding as_set freed_key ht_entry_free
  set_delete-SetDeletes f key laws models = rw (set_delete-as_set key) (
      Returns-bind _ _ (ht_delete-Deletes siphash free_fn false f (as_ht set) laws models key)
        λ (s, w, freed) d. finish s w freed d)
    where
      finish :
          (s : Status) (w : Ht NoValue) (freed : Option (Option Key × Option NoValue))
          → Deletes siphash free_fn false f (as_ht set) key (s, w, freed)
          → Returns (SetDeletes f key) (as_set (s, w, freed))
      finish success w freed (mw, len, kept, (e, hit, there, out)) = returns (
        subst (Models siphash (update set.cmp_key f key none)) kept mw,
        len,
        (e.key, hit, there, ap freed_key out),
      )
      finish failure w freed (e, gone, none_freed) = returns (
        ap (λ h. record set { len = h.len; buckets = h.buckets }) e,
        gone,
        ap freed_key none_freed,
      )
