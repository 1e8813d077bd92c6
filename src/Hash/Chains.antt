-- ===== src/Hash/Chains.antt =====
-- The array of buckets, over the list of their lists of entries: where the entries stand and what the
-- table means as a map.
use mathlib.Core.List.{flatten}
use vlib.Base.{
  lt→ltb, returns, ◌<◌, ◌≤◌, ℕ, zero, suc, ◌+◌, ◌≡◌, refl, List, [], ◌∷◌, ◌++◌, none, some, Bool,
  true, false, Returns, arith, length, length-append, get_or, set, if◌then◌else◌,
}
use vlib.Array.{load, store}
use vlib.Hash.{Key, Entry, Bucket}
use vlib.Hash.Entries.{Holds, lookup, assign, erase}

abbrev pub one_if : Bool → ℕ
one_if true = 1
one_if false = 0

abbrev pub Chain {ℓ} : Type ℓ → Type ℓ
Chain V = List (Entry V)

module _ {ℓ} {V : Type ℓ} where
  -- the buckets hold the lists, bucket by bucket; behind them the array may go on
  abbrev pub Backs : List (Bucket V) → List (Chain V) → Type ℓ
  Backs bs [] = Unit {ℓ}
  Backs [] (c ∷ cs) = ⊥ × Unit {ℓ}
  Backs (b ∷ bs) (c ∷ cs) = Holds b c × Backs bs cs

  pub Backs-load :
      (bs : List (Bucket V)) (cs : List (Chain V)) (i : ℕ)
      → Backs bs cs
      → i < length cs
      → Returns (λ b. Holds b (get_or cs i [])) (load bs i)
  unfolding load
  Backs-load bs [] i h lt = absurd (omega arith)
  Backs-load [] (c ∷ cs) i h lt = absurd h.0
  Backs-load (b ∷ bs) (c ∷ cs) zero h lt = (b, refl, h.0)
  Backs-load (b ∷ bs) (c ∷ cs) (suc i) h lt = Backs-load bs cs i h.1 (omega arith)

  Backs-length : (bs : List (Bucket V)) (cs : List (Chain V)) → Backs bs cs → length cs ≤ length bs
  Backs-length bs [] h = omega arith
  Backs-length [] (c ∷ cs) h = absurd h.0
  Backs-length (b ∷ bs) (c ∷ cs) h = omega (arith, Backs-length bs cs h.1)

  Backs-set :
      (bs : List (Bucket V)) (cs : List (Chain V)) (i : ℕ) (b : Bucket V) (c : Chain V)
      → Backs bs cs
      → Holds b c
      → Backs (set bs i b) (set cs i c)
  Backs-set bs [] i b c h hb = tt
  Backs-set [] (x ∷ cs) i b c h hb = absurd h.0
  Backs-set (y ∷ bs) (x ∷ cs) zero b c h hb = (hb, h.1)
  Backs-set (y ∷ bs) (x ∷ cs) (suc i) b c h hb = (h.0, Backs-set bs cs i b c h.1 hb)

  pub Backs-store :
      (bs : List (Bucket V)) (cs : List (Chain V)) (i : ℕ) (b : Bucket V) (c : Chain V)
      → Backs bs cs
      → i < length cs
      → Holds b c
      → Returns (λ r. Backs r (set cs i c)) (store bs i b)
  unfolding store
  Backs-store bs cs i b c h lt hb =
      let size = Backs-length bs cs h in
      rw (lt→ltb i (length bs) (omega arith)) (returns (Backs-set bs cs i b c h hb))

  pub length-flatten-set :
      (cs : List (Chain V)) (i : ℕ) (c : Chain V)
      → i < length cs
      → length (flatten (set cs i c)) + length (get_or cs i []) ≡ length (flatten cs) + length c
  unfolding flatten
  length-flatten-set [] i c h = absurd (omega arith)
  length-flatten-set (x ∷ cs) zero c h =
      omega (arith, length-append c (flatten cs), length-append x (flatten cs))
  length-flatten-set (x ∷ cs) (suc i) c h = omega (
    arith,
    length-append x (flatten cs),
    length-append x (flatten (set cs i c)),
    length-flatten-set cs i c (omega arith),
  )

module _ {ℓ} {V : Type ℓ} where
  -- how many entries pass the test
  abbrev pub count : (Key → Bool) → Chain V → ℕ
  count t [] = 0
  count t (e ∷ c) = one_if (t e.key) + count t c

  module _ (t : Key → Bool) where
    pub lookup-count : (c : Chain V) → count t c ≡ 0 → lookup t c ≡ none
    lookup-count [] h = refl
    lookup-count (e ∷ c) h = ground (arith, lookup-count c)

    pub count-none : (c : Chain V) → lookup t c ≡ none → count t c ≡ 0
    count-none [] h = refl
    count-none (e ∷ c) h = ground (arith, count-none c)

    pub count-append : (a b : Chain V) → count t (a ++ b) ≡ count t a + count t b
    count-append [] b = omega arith
    count-append (e ∷ a) b = omega (arith, count-append a b)

    pub lookup-append :
        (a : Chain V) (e : Entry V)
        → lookup t a ≡ none
        → lookup t (a ++ e ∷ []) ≡ (if t e.key then some e.value else none)
    lookup-append [] e h = refl
    lookup-append (x ∷ a) e h = ground (arith, lookup-append a e)

    pub lookup-append_other :
        (a : Chain V) (e : Entry V) → t e.key ≡ false → lookup t (a ++ e ∷ []) ≡ lookup t a
    lookup-append_other [] e h = rw h
    lookup-append_other (x ∷ a) e h = ground (arith, lookup-append_other a e)

    pub length-assign : (v : V) (c : Chain V) → length (assign t v c) ≡ length c
    length-assign v [] = refl
    length-assign v (e ∷ c) = ground (arith, length-assign v c)

    pub length-erase :
        (c : Chain V) (v : V) → lookup t c ≡ some v → length (erase t c) + 1 ≡ length c
    length-erase [] v h = ground arith
    length-erase (e ∷ c) v h = ground (arith, length-erase c v)
