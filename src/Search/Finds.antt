-- ===== src/Search/Finds.antt =====
-- binary_search.c decides membership in an ascending array that is not empty.
use vlib.Base.{
  ℕ, zero, suc, ◌+◌, ◌-◌, ◌/◌, ◌≤◌, ◌<◌, ◌≡◌, ◌≢◌, refl, Ordering, List, [], some, fault, Returns,
  returns, Status, success, failure, arith, length, get_elem?, get_or, get_elem?-some,
  get_elem?-eq-get_or, Bool-cases, ◌∷◌, ltb, inl, ltb→lt, inr,
}
use vlib.Cmp.{CmpFn, IsCmp, Le, sign, less, same, more, le_trans_lt, lt_trans_le}
use vlib.Array.{load-ok}
use vlib.Sort.Order.{IsSorted}
use vlib.Search.{search_loop, binary_search}

module _ {ℓ} {A : Type ℓ} (cmp : CmpFn A) (arr : List A) (needle : A) where
  -- what the two results tell
  abbrev pub Finds : Status → Type ℓ
  Finds success = (i : ℕ) × (x : A) × (get_elem? arr i ≡ some x) × (cmp x needle ≡ Ordering.eq)
  Finds failure = (i : ℕ) (x : A) → get_elem? arr i ≡ some x → cmp x needle ≢ Ordering.eq

  module _ (laws : IsCmp cmp) (sorted : IsSorted cmp arr) (d : A) where
    -- all before `lo` is less than the needle, all from `hi` on is greater
    record Inv (lo hi : ℕ) : Type 0 where
      order : lo < hi
      inside : hi ≤ length arr
      below : (i : ℕ) → i < lo → cmp (get_or arr i d) needle ≡ Ordering.lt
      above : (i : ℕ) → hi ≤ i → i < length arr → cmp (get_or arr i d) needle ≡ Ordering.gt

    sorted_at : (i j : ℕ) → i < j → j < length arr → Le cmp (get_or arr i d) (get_or arr j d)
    sorted_at i j lt h =
        sorted i j _ _ lt (get_elem?-eq-get_or arr i d (omega arith))
          (get_elem?-eq-get_or arr j d h)

    less_before :
        (m i : ℕ)
        → m < length arr
        → i ≤ m
        → cmp (get_or arr m d) needle ≡ Ordering.lt
        → cmp (get_or arr i d) needle ≡ Ordering.lt
    less_before m i hm hi e =
        ground (arith, sorted_at i m, le_trans_lt cmp laws (get_or arr i d) (get_or arr m d) needle)

    greater_after :
        (m i : ℕ)
        → i < length arr
        → m ≤ i
        → cmp (get_or arr m d) needle ≡ Ordering.gt
        → cmp (get_or arr i d) needle ≡ Ordering.gt
    greater_after m i hi hm e = ground (
      arith,
      sorted_at m i,
      laws.exchange (get_or arr m d) needle,
      laws.exchange needle (get_or arr i d),
      lt_trans_le cmp laws needle (get_or arr m d) (get_or arr i d),
    )

    absent : ((i : ℕ) → i < length arr → cmp (get_or arr i d) needle ≢ Ordering.eq) → Finds failure
    absent h i x e f = ground (arith, get_elem?-some arr i d e, h i)

    -- the range that is left when the entry at `m` is greater, or less
    upper_Inv :
        (lo hi m : ℕ)
        → Inv lo hi
        → m < hi
        → lo < m
        → cmp (get_or arr m d) needle ≡ Ordering.gt
        → Inv lo m
    upper_Inv lo hi m v hm lt e =
        let inside = v.inside in
        record {
          order = lt;
          inside = omega arith;
          below = v.below;
          above = λ i le end. greater_after m i end le e;
        }

    lower_Inv :
        (lo hi m : ℕ)
        → Inv lo hi
        → m + 1 < hi
        → cmp (get_or arr m d) needle ≡ Ordering.lt
        → Inv (m + 1) hi
    lower_Inv lo hi m v lt e =
        let inside = v.inside in
        record {
          order = lt;
          inside = inside;
          below = λ i le. less_before m i (omega arith) (omega arith) e;
          above = v.above;
        }

    -- no range is left
    upper_absent :
        (lo hi m : ℕ)
        → Inv lo hi
        → m ≤ lo
        → m < length arr
        → cmp (get_or arr m d) needle ≡ Ordering.gt
        → Finds failure
    upper_absent lo hi m v le hm e =
        absent λ i end. ground (arith, v.below i, greater_after m i end)

    lower_absent :
        (lo hi m : ℕ)
        → Inv lo hi
        → hi ≤ m + 1
        → m < length arr
        → cmp (get_or arr m d) needle ≡ Ordering.lt
        → Finds failure
    lower_absent lo hi m v le hm e = absent λ i end. ground (arith, v.above i, less_before m i hm)

    search_loop-Finds :
        (k lo hi : ℕ) → hi - lo < k → Inv lo hi → Returns Finds (search_loop cmp k arr needle lo hi)
    unfolding search_loop
    search_loop-Finds zero lo hi f v = absurd (omega arith)
    search_loop-Finds (suc k) lo hi f v =
        let m = lo + (hi - lo) / 2 in
        let order = v.order in
        let inside = v.inside in
        let hm : m < length arr = omega arith in
        rw (load-ok arr m d hm) (elim (sign (cmp (get_or arr m d) needle)) [
          | same e ↦ rw e (returns (m, get_or arr m d, get_elem?-eq-get_or arr m d hm, e))
          | more e ↦ rw e (elim (Bool-cases (ltb lo m)) [
            | inl lt ↦ rw lt (
                search_loop-Finds k lo m (omega arith)
                  (upper_Inv lo hi m v (omega arith) (ltb→lt lo m lt) e))
            | inr ge ↦ rw ge (returns (upper_absent lo hi m v (ground arith) hm e))
          ])
          | less e ↦ rw e (elim (Bool-cases (ltb (m + 1) hi)) [
            | inl lt ↦ rw lt (
                search_loop-Finds k (m + 1) hi (omega arith)
                  (lower_Inv lo hi m v (ltb→lt (m + 1) hi lt) e))
            | inr ge ↦ rw ge (returns (lower_absent lo hi m v (ground arith) hm e))
          ])
        ])

  -- For a total preorder and an ascending array with at least one element, binary_search returns,
  -- within the bounds of the array: 0 only if some element compares equal to the needle, and -1
  -- only if none does.
  pub binary_search-Finds :
      IsCmp cmp
      → IsSorted cmp arr
      → 0 < length arr
      → Returns Finds (binary_search cmp arr needle (length arr))
  unfolding binary_search
  binary_search-Finds laws sorted h =
      let (d, e) = first arr h in
      search_loop-Finds laws sorted d (length arr + 1) 0 (length arr) (omega arith) (record {
        order = h;
        inside = omega arith;
        below = λ i lt. absurd (omega arith);
        above = λ i le end. absurd (omega arith);
      })
    where
      first : (a : List A) → 0 < length a → (x : A) × (get_elem? a 0 ≡ some x)
      first [] h = absurd (omega arith)
      first (x ∷ a) h = (x, refl)

  -- At length 0 the loop body still reads the first element, outside the array.
  pub binary_search-empty : binary_search cmp [] needle 0 ≡ fault
  unfolding binary_search
  binary_search-empty = refl
