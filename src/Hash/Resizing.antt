-- ===== src/Hash/Resizing.antt =====
-- A resize leaves every entry where it is, since the hash is taken modulo the capacity, which it does
-- not change.
use vlib.Base.{
  get_elem?, get_elem?-some, set-get_or, ◌<◌, ◌≤◌, ℕ, zero, suc, ◌+◌, ◌-◌, ◌*◌, ◌≡◌, ◌≢◌, refl, sym,
  ap, ◌∙◌, List, [], ◌∷◌, ◌++◌, Option, some, Bool, true, false, Bool-cases, inl, inr, Run, ok,
  Returns, success, failure, arith, length, drop, take, replicate, get_or, ◌==◌,
}
use vlib.Cmp.{CmpFn}
use vlib.Array.{store-ok, load, store}
use vlib.Hash.{
  Key, Entry, Bucket, Memory, is_found, close_gap, resize_bucket, resize_buckets, resize,
  zeroed_bucket,
}
use vlib.Hash.Entries.{load-drop, pointers, Holds}
use vlib.Hash.Chains.{Chain, Backs, Backs-load, count}
use vlib.Hash.Keys.{IsKeyed}
use vlib.Hash.Places.{home, hash_at-home, IsPlaced}
use vlib.Hash.Table.{hash_at}

module _ {ℓ} {A : Type ℓ} where
  store_same : (xs : List A) (i : ℕ) (x : A) → load xs i ≡ ok x → store xs i x ≡ ok xs
  unfolding load
  store_same xs i x e =
      let read : get_elem? xs i ≡ some x = ground arith in
      let (lt, same) = get_elem?-some xs i x read in
      store-ok xs i x lt ∙ ap ok (rw same at (set-get_or xs i x))

module _ {ℓ} {V : Type ℓ} where
  close_gap-full :
      (c : Chain V) (entries behind : List (Option (Entry V))) (n k j : ℕ)
      → drop k entries ≡ pointers c ++ behind
      → n ≤ length c
      → close_gap entries n k j ≡ ok entries
  unfolding close_gap
  close_gap-full c entries behind zero k j e le = refl
  close_gap-full [] entries behind (suc n) k j e le = absurd (omega arith)
  close_gap-full (x ∷ c) entries behind (suc n) k j e le =
      let (at, rest) = load-drop k entries (pointers c ++ behind) (some x) e in
      let next : k + 1 ≡ suc k = omega arith in
      rw at (close_gap-full c entries behind n (k + 1) j (rw next rest) (omega arith))

  -- all keys of the list have the hash `i`
  abbrev pub HashTo : (Key → Run ℕ) → ℕ → Chain V → Type 0
  HashTo hash i [] = Unit
  HashTo hash i (e ∷ c) = (hash e.key ≡ ok i) × HashTo hash i c

  module _ (moved : ℕ → ℕ → Bool) (hash : Key → Run ℕ) (bs : List (Bucket V)) (i : ℕ) (b : Bucket V)
      (at_i : load bs i ≡ ok b) (all : Chain V) (h : Holds b all) where
    resize_bucket-stay :
        (c : Chain V) (j : ℕ)
        → drop j b.entries ≡ pointers c ++ h.behind
        → j + length c ≡ length all
        → HashTo hash i c
        → resize_bucket moved hash bs i (length c) j ≡ ok (success, bs)
    unfolding resize_bucket
    resize_bucket-stay [] j e size hs = refl
    resize_bucket-stay (x ∷ c) j e size (hx, hs) =
        let (at, rest) = load-drop j b.entries (pointers c ++ h.behind) (some x) e in
        let next : j + 1 ≡ suc j = omega arith in
        let stays : (i == i) ≡ true = ground arith in
        rw
          (
            at_i,
            at,
            hx,
            stays,
            close_gap-full all b.entries h.behind j 0 j h.layout (omega arith),
            store_same bs i b at_i,
          )
          (resize_bucket-stay c (j + 1) (rw next rest) (omega arith) hs)

  resize_buckets-stay :
      (moved : ℕ → ℕ → Bool) (hash : Key → Run ℕ) (bs : List (Bucket V)) (cs : List (Chain V))
      (n i : ℕ)
      → Backs bs cs
      → i + n ≡ length cs
      → ((j : ℕ) → j < length cs → HashTo hash j (get_or cs j []))
      → resize_buckets moved hash bs n i ≡ ok (success, bs)
  unfolding resize_buckets
  resize_buckets-stay moved hash bs cs zero i backs size hs = refl
  resize_buckets-stay moved hash bs cs (suc n) i backs size hs =
      let (b, at, h) = Backs-load bs cs i backs (omega arith) in
      let stay =
        resize_bucket-stay moved hash bs i b at (get_or cs i []) h (get_or cs i []) 0 h.layout
          (omega arith) (hs i (omega arith)) in
      rw (at, h.counted, stay)
        (resize_buckets-stay moved hash bs cs n (i + 1) backs (omega arith) hs)

  Backs-take :
      (bs : List (Bucket V)) (cs : List (Chain V)) (ys : List (Bucket V)) (n : ℕ)
      → Backs bs cs
      → n ≡ length cs
      → Backs (take n bs ++ ys) cs
  Backs-take bs [] ys n h e = tt
  Backs-take [] (c ∷ cs) ys n h e = absurd h.0
  Backs-take (b ∷ bs) (c ∷ cs) ys zero h e = absurd (omega arith)
  Backs-take (b ∷ bs) (c ∷ cs) ys (suc n) h e = (h.0, Backs-take bs cs ys n h.1 (omega arith))

  module _ (siphash : Key → List ℕ → ℕ) (seed : List ℕ) (cmp : Option (CmpFn Key)) (cap : ℕ)
      (laws : IsKeyed siphash seed cmp) (pos : 0 < cap) where
    HashTo-absent :
        (c : Chain V) (i : ℕ)
        → ((q : Key) → home siphash seed cap q ≢ i → count (is_found cmp q) c ≡ 0)
        → HashTo (hash_at siphash seed cap) i c
    HashTo-absent [] i h = tt
    HashTo-absent (e ∷ c) i h =
        let here : home siphash seed cap e.key ≡ i =
          ground (arith, h e.key, laws.same_refl e.key) in
        (
          hash_at-home siphash seed cap e.key pos ∙ ap ok here,
          HashTo-absent c i (λ q ne. ground (arith, h q)),
        )

    -- A resize keeps the contents of all buckets, and refuses only for want of memory.
    pub resize-Backs :
        (m : Memory) (bs : List (Bucket V)) (cs : List (Chain V))
        → Backs bs cs
        → length cs ≡ cap
        → IsPlaced siphash seed cmp cap cs
        → Returns
            (λ (s, w). Backs w cs × (s ≡ failure → m.table ≡ false))
            (resize m (hash_at siphash seed cap) bs cap)
    unfolding resize
    resize-Backs m bs cs backs width placed =
        let tmp = take cap bs ++ replicate (cap * 2 - cap) zeroed_bucket in
        let kept =
          Backs-take bs cs (replicate (cap * 2 - cap) zeroed_bucket) cap backs (sym width) in
        let stay =
          resize_buckets-stay m.moved (hash_at siphash seed cap) tmp cs cap 0 kept (omega arith)
            (λ j lt. HashTo-absent (get_or cs j []) j (λ q ne. (placed q j).1 ne)) in
        elim (Bool-cases m.table) [
          | inl given ↦ ((success, tmp), rw given stay, (kept, λ e. cc))
          | inr short ↦ ((failure, bs), rw short refl, (backs, λ e. short))
        ]
