-- ===== src/Hash/Table/Deletes.antt =====
-- ht_delete takes a key out.
use vlib.Base.{
  ◌∷◌, length-append, ◌==◌, ℕ, ◌+◌, ◌≡◌, refl, sym, ◌∙◌, List, [], Option, none, some, Bool, true,
  Bool-cases, inl, inr, ok, Returns, returns, Status, success, failure, arith, length, get_or,
  if◌then◌else◌, Option-cases, ap,
}
use vlib.Hash.{ht_entry_free, Key, Bucket, is_found, Entry, find_entry}
use vlib.Hash.Entries.{first_nil, Holds, first, first-FirstAt, first-none, erase, find_entry-first}
use vlib.Hash.Entries.Removal.{remove-Holds}
use vlib.Hash.Chains.{length-flatten-set, Chain, Backs-store}
use vlib.Hash.Places.{home, hash_at-home, update, erased-Represents}
use vlib.Hash.Table.{Ht, ht_delete}
use vlib.Hash.Table.Reads.{Models, KeysOf, bucket-Holds, chain-reads}

module _ {ℓ} {V : Type ℓ} where
  -- what ht_delete of `key` leaves of a table that means `f`
  abbrev pub Deletes :
      (Key → List ℕ → ℕ)
      → Bool
      → Bool
      → (Key → Option V)
      → Ht V
      → Key
      → Status × Ht V × Option (Option Key × Option V)
      → Type ℓ
  Deletes siphash free_key free_val f ht key (success, w, freed) =
      Models siphash (update ht.cmp_key f key none) w
      × (w.len + 1 ≡ ht.len)
      × (w ≡ record ht { len = w.len; buckets = w.buckets })
      × ((e : Entry V) × (is_found ht.cmp_key key e.key ≡ true)
          × (f key ≡ some e.value)
          × (freed ≡ some (ht_entry_free free_key free_val e)))
  Deletes siphash free_key free_val f ht key (failure, w, freed) =
      (w ≡ ht) × (f key ≡ none) × (freed ≡ none)

  module _ (siphash : Key → List ℕ → ℕ) (free_key free_val : Bool) (f : Key → Option V) (ht : Ht V)
      (laws : KeysOf siphash ht) (models : Models siphash f ht) (key : Key) where
    abbrev chain : Chain V
    chain = get_or models.chains (home siphash ht.seed ht.cap key) []

    find_unless_empty :
        (b : Bucket V)
        → Holds b chain
        → (if b.len == 0 then ok none else find_entry (is_found ht.cmp_key key) b.entries b.len 0)
          ≡ ok (first (is_found ht.cmp_key key) 0 chain)
    find_unless_empty b h =
        let counted = h.counted in
        elim (Bool-cases (b.len == 0)) [
          | inl empty ↦
              rw empty (sym (ap ok (first_nil (is_found ht.cmp_key key) 0 chain (ground arith))))
          | inr filled ↦ rw filled (find_entry-first (is_found ht.cmp_key key) b chain h)
        ]

    -- For keys that are compared and hashed consistently, and a table that stands for a map,
    -- ht_delete returns -1 and leaves the table alone if the map has no value at the key. Otherwise it
    -- returns 0, the map has no value at the key any more, there is one entry less, no other field is
    -- changed, and the free
    -- functions get the key and the value of the entry.
    pub ht_delete-Deletes :
        Returns
          (Deletes siphash free_key free_val f ht key)
          (ht_delete siphash free_key free_val ht key)
    unfolding ht_delete
    ht_delete-Deletes =
        let (b, at, hb) = bucket-Holds siphash f ht models key in
        rw (hash_at-home siphash ht.seed ht.cap key models.some_cap, at, find_unless_empty b hb)
          (elim (Option-cases (first (is_found ht.cmp_key key) 0 chain)) [
            | inl absent ↦
                let gone : f key ≡ none =
                  sym (chain-reads siphash f ht models key)
                  ∙ first-none (is_found ht.cmp_key key) chain 0 absent in
                rw absent (returns (refl, gone, refl))
            | inr ((j, e), hit) ↦
                let f_at = first-FirstAt (is_found ht.cmp_key key) chain 0 j e hit in
                let there : f key ≡ some e.value =
                  sym (chain-reads siphash f ht models key) ∙ f_at.found in
                let pos = models.some_cap in
                let width = models.meant.width in
                let counted = models.meant.counted in
                let ((freed, w), run, (same, hw)) =
                  remove-Holds (is_found ht.cmp_key key) free_key free_val b chain j e hb f_at in
                let (bs, run', backs) =
                  Backs-store ht.buckets models.chains (home siphash ht.seed ht.cap key) w
                    (erase (is_found ht.cmp_key key) chain) models.backed (omega arith) hw in
                let meant =
                  erased-Represents siphash ht.seed ht.cmp_key ht.cap laws ht.len f models.chains
                    models.meant models.some_cap key e.value f_at.found in
                rw (hit, run, run')
                  (returns (
                    record { chains = _; backed = backs; meant = meant; some_cap = pos },
                    omega (
                      arith,
                      length-flatten-set models.chains (home siphash ht.seed ht.cap key) []
                          (omega arith),
                      ap length f_at.split,
                      length-append f_at.before (e ∷ f_at.after),
                    ),
                    refl,
                    (e, f_at.hit, there, ap some same),
                  ))
          ])
