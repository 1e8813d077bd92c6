-- ===== src/PriorityQueue/Sink.antt =====
-- The root of a heap is least, and heapify_down stops and only exchanges elements.
use mathlib.Core.List.Perm
use vlib.Array.{swap}
use vlib.Base.{
  false, if◌then◌else◌, Bool, true, false, ℕ, zero, suc, ◌+◌, ◌*◌, ◌<◌, ◌≤◌, ◌≡◌, refl, List, ◌++◌,
  Option, none, some, Perm, ok, ◌>>=◌, Returns, returns, Returns-bind, Returns-map, Bool-cases, inl,
  inr, arith, word, length, get_or, leb, ltb, get_elem?-eq-get_or,
}
use vlib.Cmp.{CmpFn, IsCmp, Le, cmp_self}
use vlib.Array.{swapped, length-swapped, swapped-perm}
use vlib.Array.Prefix.{load-append, swap-append}
use vlib.PriorityQueue.{heapify_down, smaller_child, parent_idx, left_child_idx, right_child_idx}
use vlib.PriorityQueue.Heap.{IsHeap}

module _ {ℓ} {A : Type ℓ} (fn : CmpFn A) where
  -- the root of a heap is a least element
  pub root-Le :
      IsCmp fn
      → (xs : List A) (d : A) → IsHeap fn xs
      → (fuel i : ℕ) → i < fuel
      → i < length xs
      → Le fn (get_or xs 0 d) (get_or xs i d)
  root-Le laws xs d h zero i lt inside = absurd (omega arith)
  root-Le laws xs d h (suc fuel) zero lt inside = ground (arith, cmp_self fn laws (get_or xs 0 d))
  root-Le laws xs d h (suc fuel) (suc i) lt inside =
      let p = parent_idx (suc i) in
      let hp : p < length xs = omega arith in
      laws.trans (get_or xs 0 d) (get_or xs p d) (get_or xs (suc i) d)
        (root-Le laws xs d h fuel p (omega arith) hp)
        (h (suc i) (get_or xs p d) (get_or xs (suc i) d) (omega arith)
          (get_elem?-eq-get_or xs p d hp) (get_elem?-eq-get_or xs (suc i) d inside))

  -- a child stands behind its parent
  abbrev Chosen : ℕ → ℕ → Option ℕ → Type 0
  Chosen idx len none = Unit
  Chosen idx len (some c) = (idx < c) × (c < len)

  -- what heapify_down leaves of an array whose first part is `a`
  abbrev pub Sunk : List A → List A → List A → Type ℓ
  Sunk a rest b = (c : List A) × (b ≡ c ++ rest) × Perm c a

  pick :
      (p q : Bool) (idx len l r : ℕ)
      → idx < l
      → l < len
      → idx < r
      → r < len
      → Returns (Chosen idx len) (ok (if p then some r else if q then some l else none))
  pick true q idx len l r hl bl hr br = returns (hr, br)
  pick false true idx len l r hl bl hr br = returns (hl, bl)
  pick false false idx len l r hl bl hr br = returns tt

  module _ (d : A) where
    smaller_child-Chosen :
        (a rest : List A) (idx : ℕ)
        → length a * 2 < word
        → idx < length a
        → Returns (Chosen idx (length a)) (smaller_child fn (a ++ rest) (length a) idx)
    unfolding smaller_child
    smaller_child-Chosen a rest idx small h =
        elim (Bool-cases (leb (length a) (left_child_idx idx))) [
          | inl past ↦ rw past (returns tt)
          | inr left ↦ elim (Bool-cases (leb (length a) (right_child_idx idx))) [
            | inl past ↦ rw (left, past) (returns tt)
            | inr right ↦
                rw
                  (
                    left,
                    right,
                    load-append d a rest (left_child_idx idx) (ground arith),
                    load-append d a rest (right_child_idx idx) (ground arith),
                    load-append d a rest idx h,
                  )
                  (pick _ _ idx (length a) (left_child_idx idx) (right_child_idx idx) (ground arith)
                    (ground arith) (ground arith) (ground arith))
          ]
        ]

    -- the rounds from an index on, where the first part of the array has `n` elements
    abbrev pub Sinks : ℕ → List A → ℕ → Type ℓ
    Sinks fuel rest n =
        (a : List A) (idx : ℕ)
        → length a ≡ n
        → n * 2 < word
        → idx ≤ n
        → n < idx + fuel
        → Returns (Sunk a rest) (heapify_down fn fuel (a ++ rest) n idx)

    exchange :
        (fuel : ℕ) (a rest : List A) (n idx : ℕ)
        → Sinks fuel rest n
        → length a ≡ n
        → n * 2 < word
        → n < idx + suc fuel
        → idx < n
        → (child : Option ℕ) → Chosen idx n child
        → Returns (Sunk a rest) (elim child [
          | none ↦ ok (a ++ rest)
          | some c ↦ swap (a ++ rest) idx c >>= λ b. heapify_down fn fuel b n c
        ])
    exchange fuel a rest n idx ih size small enough hi none h = returns (a, refl, Perm.rfl)
    exchange fuel a rest n idx ih size small enough hi (some c) (behind, inside) =
        rw (swap-append d a rest idx (omega arith) c (omega arith)) (
          Returns-map _
            (ih (swapped d a idx c) c (omega (arith, length-swapped d a idx c)) small (omega arith)
              (omega arith))
            λ b (front, e, same).
              (front, e, Perm.trans same (swapped-perm d a idx c (omega arith) (omega arith))))

    pub heapify_down-Sunk : (fuel : ℕ) (rest : List A) (n : ℕ) → Sinks fuel rest n
    unfolding heapify_down
    heapify_down-Sunk zero rest n a idx size small h enough = absurd (omega arith)
    heapify_down-Sunk (suc fuel) rest n a idx size small h enough = elim (Bool-cases (ltb idx n)) [
      | inr past ↦ rw past (returns (a, refl, Perm.rfl))
      | inl inside ↦
          let child = smaller_child-Chosen a rest idx (omega arith) (ground arith) in
          rw inside (
            Returns-bind _ _ (rw size at child) (
              exchange fuel a rest n idx (heapify_down-Sunk fuel rest n) size small enough
                (ground arith)))
    ]
