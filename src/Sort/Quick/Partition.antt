-- ===== src/Sort/Quick/Partition.antt =====
-- `partition` of quick_sort.c splits a range at its pivot.
use vlib.Base.{
  ℕ, zero, suc, ◌+◌, ◌-◌, ◌≤◌, ◌<◌, ◌≡◌, List, Returns, returns, Returns-bind, Returns-map,
  Bool-cases, inl, inr, true, arith, length, get_or,
}
use vlib.Cmp.{CmpFn, IsCmp, is_pos, Le, Le-total}
use vlib.Array.{load-ok, swap-ok, swapped, length-swapped, get_or-swapped}
use vlib.Sort.Quick.{partition_loop, partition}
use vlib.Sort.Quick.Ranges.{Within, Within-refl, Within-trans, Within-swapped}

module _ {ℓ} {A : Type ℓ} (cmp : CmpFn A) (d : A) where
  -- at `i`, what has been seen is split at `next`
  record Seen (lo next i hi : ℕ) (a : List A) : Type 0 where
    inside : hi < length a
    order : (lo ≤ next) × (next ≤ i) × (i ≤ hi)
    low : (q : ℕ) → lo ≤ q → q < next → Le cmp (get_or a q d) (get_or a hi d)
    high : (q : ℕ) → next ≤ q → q < i → is_pos (cmp (get_or a q d) (get_or a hi d)) ≡ true

  pub record Parted (lo hi : ℕ) (a : List A) (r : ℕ × List A) : Type ℓ where
    pub change : Within d lo (hi + 1) a r.1
    pub place : (lo ≤ r.0) × (r.0 ≤ hi)
    pub low : (q : ℕ) → lo ≤ q → q < r.0 → Le cmp (get_or r.1 q d) (get_or r.1 r.0 d)
    pub high : (q : ℕ) → r.0 < q → q ≤ hi → Le cmp (get_or r.1 r.0 d) (get_or r.1 q d)

  abbrev Looped : ℕ → ℕ → List A → ℕ × List A → Type ℓ
  Looped lo hi a (next, b) = Within d lo (hi + 1) a b × Seen lo next hi hi b

  module _ (laws : IsCmp cmp) where
    Seen-skip :
        (lo next i hi : ℕ) (a : List A)
        → Seen lo next i hi a
        → i < hi
        → is_pos (cmp (get_or a i d) (get_or a hi d)) ≡ true
        → Seen lo next (i + 1) hi a
    Seen-skip lo next i hi a s lt gt =
        let order = s.order in
        record {
          inside = s.inside;
          order = omega arith;
          low = s.low;
          high = λ q le lt. ground (arith, s.high q);
        }

    Seen-move :
        (lo next i hi : ℕ) (a : List A)
        → Seen lo next i hi a
        → i < hi
        → Le cmp (get_or a i d) (get_or a hi d)
        → Seen lo (next + 1) (i + 1) hi (swapped d a next i)
    Seen-move lo next i hi a s lt le =
        let order = s.order in
        let inside = s.inside in
        let at = get_or-swapped d a next i (omega arith) (omega arith) in
        record {
          inside = omega (arith, length-swapped d a next i);
          order = omega arith;
          low = λ q ge end. ground (arith, at q, at hi, s.low q);
          high = λ q ge end. ground (arith, at q, at hi, s.high q, s.high next);
        }

    partition_loop-Looped :
        (n lo i next hi : ℕ) (a : List A)
        → i + n ≡ hi
        → Seen lo next i hi a
        → Returns (Looped lo hi a) (partition_loop cmp n i next hi a)
    unfolding partition_loop
    partition_loop-Looped zero lo i next hi a e s =
        let order = s.order in
        returns (
          Within-refl d lo (hi + 1) a,
          record {
            inside = s.inside;
            order = omega arith;
            low = s.low;
            high = λ q ge end. s.high q ge (omega arith);
          },
        )
    partition_loop-Looped (suc n) lo i next hi a e s =
        let order = s.order in
        let inside = s.inside in
        rw (load-ok a i d (omega arith), load-ok a hi d inside)
          (elim (Bool-cases (is_pos (cmp (get_or a i d) (get_or a hi d)))) [
            | inl gt ↦ rw gt (
                partition_loop-Looped n lo (i + 1) next hi a (omega arith)
                  (Seen-skip lo next i hi a s (omega arith) gt))
            | inr le ↦
                rw (le, swap-ok d a next i (omega arith) (omega arith))
                  (Returns-map _
                    (partition_loop-Looped n lo (i + 1) (next + 1) hi (swapped d a next i)
                      (omega arith) (Seen-move lo next i hi a s (omega arith) le))
                    λ (m, b) (change, seen). (
                      Within-trans d lo (hi + 1) a (swapped d a next i) b
                          (Within-swapped d lo (hi + 1) next i a (omega arith) (omega arith)
                            (omega arith) (omega arith) (omega arith))
                          change,
                      seen,
                    ))
          ])

    Seen-Parted :
        (lo next hi : ℕ) (a b : List A)
        → Within d lo (hi + 1) a b
        → Seen lo next hi hi b
        → Parted lo hi a (next, swapped d b next hi)
    Seen-Parted lo next hi a b change s =
        let order = s.order in
        let inside = s.inside in
        let at = get_or-swapped d b next hi (omega arith) inside in
        record {
          change = Within-trans d lo (hi + 1) a b _ change (
              Within-swapped d lo (hi + 1) next hi b (omega arith) (omega arith) (omega arith)
                (omega arith) (omega arith));
          place = omega arith;
          low = λ q ge lt. ground (arith, at q, at next, s.low q);
          high = λ q gt le. ground (
            arith,
            at q,
            at next,
            s.high q,
            s.high next,
            Le-total cmp laws (get_or b next d) (get_or b hi d),
            Le-total cmp laws (get_or b q d) (get_or b hi d),
          );
        }

    -- `partition` leaves the pivot in its place, what is no greater before it and the rest behind.
    pub partition-Parted :
        (lo hi : ℕ) (a : List A)
        → lo ≤ hi
        → hi < length a
        → Returns (Parted lo hi a) (partition cmp a lo hi)
    unfolding partition
    partition-Parted lo hi a le lt =
        Returns-bind _ _
          (partition_loop-Looped (hi - lo) lo lo lo hi a (omega arith) (record {
            inside = lt;
            order = omega arith;
            low = λ q ge lt. absurd (omega arith);
            high = λ q ge lt. absurd (omega arith);
          }))
          λ (next, b) (change, s).
            let order = s.order in
            let inside = s.inside in
            rw (swap-ok d b next hi (omega arith) inside)
              (returns (Seen-Parted lo next hi a b change s))
