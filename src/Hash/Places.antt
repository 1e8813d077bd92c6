-- ===== src/Hash/Places.antt =====
-- Where the entries of a table stand, the map that it means, and the effect of changing one bucket.
use mathlib.Core.List.{flatten}
use vlib.Base.{
  Bool-cases, inl, inr, ◌-◌, ◌<◌, ◌≤◌, ℕ, ◌+◌, ◌≡◌, ◌≢◌, ap, ◌∙◌, List, [], ◌∷◌, ◌++◌, Option, none,
  some, true, false, ok, arith, length, get_or, get_or-set, length-set, set, ◌==◌, if◌then◌else◌,
  ◌%◌, length-append,
}
use vlib.Cmp.{CmpFn}
use vlib.Hash.{Key, Entry, is_found}
use vlib.Hash.Entries.{lookup, assign, erase}
use vlib.Hash.Chains.{
  Chain, count, length-flatten-set, lookup-count, count-append, lookup-append, lookup-append_other,
  length-assign, length-erase,
}
use vlib.Hash.Keys.{IsKeyed, count_absent, lookup-assign, count-assign, count-erase, lookup-erase}
use vlib.Hash.Table.{hash_at}

-- a map with one key changed
abbrev pub update {ℓ} :
    {V : Type ℓ} → Option (CmpFn Key) → (Key → Option V) → Key → Option V → Key → Option V
update cmp f key v q = if is_found cmp q key then v else f q

module _ (siphash : Key → List ℕ → ℕ) (seed : List ℕ) (cap : ℕ) where
  abbrev pub home : Key → ℕ
  home key = siphash key seed % cap

  pub hash_at-home : (key : Key) → 0 < cap → hash_at siphash seed cap key ≡ ok (home key)
  unfolding hash_at
  hash_at-home key pos = let some_cap : (cap == 0) ≡ false = ground arith in rw some_cap

module _ {ℓ} {V : Type ℓ} (siphash : Key → List ℕ → ℕ) (seed : List ℕ) (cmp : Option (CmpFn Key))
    (cap : ℕ) where
  -- a key occurs at most once, and only in its own bucket
  abbrev pub IsPlaced : List (Chain V) → Type 0
  IsPlaced cs =
      (q : Key) (i : ℕ)
      → (count (is_found cmp q) (get_or cs i []) ≤ 1)
        × (home siphash seed cap q ≢ i → count (is_found cmp q) (get_or cs i []) ≡ 0)

  abbrev pub view : List (Chain V) → Key → Option V
  view cs q = lookup (is_found cmp q) (get_or cs (home siphash seed cap q) [])

  -- `cs` are the buckets of a table with `len` entries that means the map `f`
  pub record Represents (len : ℕ) (f : Key → Option V) (cs : List (Chain V)) : Type ℓ where
    pub width : length cs ≡ cap
    pub counted : length (flatten cs) ≡ len
    pub placed : IsPlaced cs
    pub reads : (q : Key) → view cs q ≡ f q

  module _ (laws : IsKeyed siphash seed cmp) (len : ℕ) (f : Key → Option V) (cs : List (Chain V))
      (r : Represents len f cs) (pos : 0 < cap) (key : Key) where
    abbrev pub own : Chain V
    own = get_or cs (home siphash seed cap key) []

    inside : home siphash seed cap key < length cs
    inside = let width = r.width in omega arith

    home_congr :
        (q : Key) → is_found cmp q key ≡ true → home siphash seed cap q ≡ home siphash seed cap key
    home_congr q same = ap (λ h. h % cap) (laws.same_hash q key same)

    -- the bucket of `key` gets the entries `c`
    replaced-Represents :
        (v : Option V) (c : Chain V) (new_len : ℕ)
        → new_len + length own ≡ len + length c
        → ((q : Key) → is_found cmp q key ≡ true → count (is_found cmp q) c ≤ 1)
        → ((q : Key)
            → is_found cmp q key ≡ false
            → count (is_found cmp q) c ≤ count (is_found cmp q) own)
        → ((q : Key)
            → lookup (is_found cmp q) c
              ≡ (if is_found cmp q key then v else lookup (is_found cmp q) own))
        → Represents new_len (update cmp f key v) (set cs (home siphash seed cap key) c)
    replaced-Represents v c new_len size few old reads = record {
      width = length-set cs (home siphash seed cap key) c ∙ r.width;
      counted =
          let counted = r.counted in
          omega (arith, length-flatten-set cs (home siphash seed cap key) c inside);
      placed = λ q i.
          rw (get_or-set cs (home siphash seed cap key) i c [] inside)
            (ground (arith, r.placed q i, few q, old q, home_congr q));
      reads = λ q.
          rw (get_or-set cs (home siphash seed cap key) (home siphash seed cap q) c [] inside)
            (elim (Bool-cases (home siphash seed cap key == home siphash seed cap q)) [
              | inl here ↦
                  let e : home siphash seed cap key ≡ home siphash seed cap q = ground arith in
                  let old_own : lookup (is_found cmp q) own ≡ f q = rw e (r.reads q) in
                  rw here (reads q ∙ ap (λ x. if is_found cmp q key then v else x) old_own)
              | inr there ↦
                  let other : is_found cmp q key ≡ false = ground (arith, home_congr q) in
                  rw (there, other) (r.reads q)
            ]);
    }

    pub added-Represents :
        (v : V)
        → f key ≡ none
        → Represents
            (len + 1)
            (update cmp f key (some v))
            (set cs (home siphash seed cap key) (own ++ record { key = key; value = v } ∷ []))
    added-Represents v absent =
        let e : Entry V = record { key = key; value = v } in
        let none_there : lookup (is_found cmp key) own ≡ none = r.reads key ∙ absent in
        let few = λ (q : Key). count_absent siphash seed cmp laws q key own none_there in
        replaced-Represents (some v) (own ++ e ∷ []) (len + 1)
          (omega (arith, length-append own (e ∷ [])))
          (λ q same. ground (arith, count-append (is_found cmp q) own (e ∷ []), few q))
          (λ q other. ground (arith, count-append (is_found cmp q) own (e ∷ [])))
          (λ q. ground (
            arith,
            lookup-append (is_found cmp q) own e,
            lookup-append_other (is_found cmp q) own e,
            few q,
            lookup-count (is_found cmp q) own,
          ))

    pub assigned-Represents :
        (v old : V)
        → lookup (is_found cmp key) own ≡ some old
        → Represents len
            (update cmp f key (some v))
            (set cs (home siphash seed cap key) (assign (is_found cmp key) v own))
    assigned-Represents v old found =
        let counts = λ (q : Key). count-assign siphash seed cmp laws q key v own in
        replaced-Represents (some v) (assign (is_found cmp key) v own) len
          (omega (arith, length-assign (is_found cmp key) v own))
          (λ q same. ground (arith, counts q, r.placed q (home siphash seed cap key)))
          (λ q other. ground (arith, counts q))
          (λ q. lookup-assign siphash seed cmp laws q key v own old found)

    pub erased-Represents :
        (old : V)
        → lookup (is_found cmp key) own ≡ some old
        → Represents
            (len - 1)
            (update cmp f key none)
            (set cs (home siphash seed cap key) (erase (is_found cmp key) own))
    erased-Represents old found =
        let shorter = length-erase (is_found cmp key) own old found in
        let counted = r.counted in
        let sizes = length-flatten-set cs (home siphash seed cap key) [] inside in
        let counts = λ (q : Key). count-erase siphash seed cmp laws q key own in
        replaced-Represents none (erase (is_found cmp key) own) (len - 1) (omega arith)
          (λ q same. ground (arith, counts q, r.placed q (home siphash seed cap key)))
          (λ q other. ground (arith, counts q))
          (λ q.
            lookup-erase siphash seed cmp laws q key own (r.placed q (home siphash seed cap key)).0)
