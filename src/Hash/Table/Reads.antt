-- ===== src/Hash/Table/Reads.antt =====
-- ht_get and ht_has read the map that the table means.
use vlib.Base.{
  ◌<◌, ℕ, ◌≡◌, sym, ap, ◌∙◌, List, [], Option, none, some, Bool, true, false, Bool-cases,
  Option-cases, inl, inr, ok, Returns, arith, length, get_or, ◌==◌, if◌then◌else◌,
}
use vlib.Array.{load}
use vlib.Hash.{Key, Entry, Bucket, is_found, value_at, find_entry, offset}
use vlib.Hash.Entries.{first_nil, Holds, first, lookup, find_entry-first, first-FirstAt, first-none}
use vlib.Hash.Chains.{Chain, Backs, Backs-load}
use vlib.Hash.Keys.{IsKeyed}
use vlib.Hash.Places.{home, hash_at-home, Represents}
use vlib.Hash.Table.{Ht, search, ht_get, ht_has}

module _ {ℓ} {V : Type ℓ} where
  pub value_at-same : (n : ℕ) (e : Entry V) → n ≡ length e.key → value_at n e ≡ ok e.value
  unfolding value_at
  value_at-same n e same =
      let at : (offset n == offset (length e.key)) ≡ true = ground arith in rw at

  -- a search in a bucket that may have no array yet
  pub bucket_search :
      (t : Key → Bool) (b : Bucket V) (c : Chain V)
      → Holds b c
      → (if b.cap == 0 then ok none else find_entry t b.entries b.len 0) ≡ ok (first t 0 c)
  bucket_search t b c h =
      let counted = h.counted in
      let roomy = h.roomy in
      elim (Bool-cases (b.cap == 0)) [
        | inl none_yet ↦ rw none_yet (sym (ap ok (first_nil t 0 c (ground arith))))
        | inr some_cap ↦ rw some_cap (find_entry-first t b c h)
      ]

  -- the table stands for the map `f`
  pub record Models (siphash : Key → List ℕ → ℕ) (f : Key → Option V) (ht : Ht V) : Type ℓ where
    pub chains : List (Chain V)
    pub backed : Backs ht.buckets chains
    pub meant : Represents siphash ht.seed ht.cmp_key ht.cap ht.len f chains
    pub some_cap : 0 < ht.cap

  -- what the table asks of its comparison and of the hash
  abbrev pub KeysOf : (Key → List ℕ → ℕ) → Ht V → Type 0
  KeysOf siphash ht = IsKeyed siphash ht.seed ht.cmp_key

  module _ (siphash : Key → List ℕ → ℕ) (f : Key → Option V) (ht : Ht V)
      (models : Models siphash f ht) (key : Key) where
    abbrev pub chain : Chain V
    chain = get_or models.chains (home siphash ht.seed ht.cap key) []

    pub chain-reads : lookup (is_found ht.cmp_key key) chain ≡ f key
    chain-reads = models.meant.reads key

    -- the bucket of the key
    pub bucket-Holds :
        Returns (λ b. Holds b chain) (load ht.buckets (home siphash ht.seed ht.cap key))
    bucket-Holds =
        let pos = models.some_cap in
        let width = models.meant.width in
        Backs-load ht.buckets models.chains (home siphash ht.seed ht.cap key) models.backed
          (omega arith)

    search-first : search siphash ht key ≡ ok (first (is_found ht.cmp_key key) 0 chain)
    unfolding search
    search-first =
        let (b, at, h) = bucket-Holds in
        rw (hash_at-home siphash ht.seed ht.cap key models.some_cap, at)
          (bucket_search (is_found ht.cmp_key key) b chain h)

    -- On a table that stands for a map, ht_has tells whether the map has a value at the key.
    pub ht_has-reads : ht_has siphash ht key ≡ ok (elim (f key) [ none ↦ false | some _ ↦ true ])
    unfolding ht_has
    ht_has-reads = elim (Option-cases (first (is_found ht.cmp_key key) 0 chain)) [
      | inl absent ↦
          let gone : f key ≡ none =
            sym chain-reads ∙ first-none (is_found ht.cmp_key key) chain 0 absent in
          rw (search-first, absent, gone)
      | inr ((j, e), hit) ↦
          let at = first-FirstAt (is_found ht.cmp_key key) chain 0 j e hit in
          let there : f key ≡ some e.value = sym chain-reads ∙ at.found in
          rw (search-first, hit, there)
    ]

    -- On a table that stands for a map, for keys that are compared and hashed consistently, ht_get
    -- returns the value of the map at the key, and a null pointer if there is none.
    pub ht_get-reads : KeysOf siphash ht → ht_get siphash ht key ≡ ok (f key)
    unfolding ht_get
    ht_get-reads laws = elim (Option-cases (first (is_found ht.cmp_key key) 0 chain)) [
      | inl absent ↦
          let gone : f key ≡ none =
            sym chain-reads ∙ first-none (is_found ht.cmp_key key) chain 0 absent in
          rw (search-first, absent, gone)
      | inr ((j, e), hit) ↦
          let at = first-FirstAt (is_found ht.cmp_key key) chain 0 j e hit in
          let there : f key ≡ some e.value = sym chain-reads ∙ at.found in
          rw (
            search-first,
            hit,
            there,
            value_at-same (length key) e (laws.same_length key e.key at.hit),
          )
    ]
