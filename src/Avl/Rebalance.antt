-- ===== src/Avl/Rebalance.antt =====
-- The rotations after an insertion restore the balance and keep the keys.
use mathlib.Core.List.{append_assoc}
use vlib.Base.{
  refl, leb, lt→ltb, ltb-false, ℕ, suc, ◌+◌, ◌≤◌, ◌≡◌, ◌⊎◌, inl, inr, ◌∷◌, ◌++◌, Ordering, ok,
  Returns, returns, arith, Bool-cases,
}
use vlib.Cmp.{CmpFn}
use vlib.Avl.{Tree, nil, node, height, height_over, insert_rebalance}
use vlib.Avl.Shape.{keys, IsAvl}

module _ {ℓ} {A : Type ℓ} (cmp : CmpFn A) (key : A) where
  -- a tree that has grown by `key`: a new leaf, or higher on the side of the key
  abbrev pub Tilted : Tree A → Type 0
  Tilted nil = ⊥
  Tilted (node h l k r) =
      (h ≡ 1)
      ⊎ (((cmp key k ≡ Ordering.lt) × (height l ≡ suc (height r)))
          ⊎ ((cmp key k ≡ Ordering.gt) × (height r ≡ suc (height l))))

  -- what insert_rebalance makes of `l`, `k` and `r`, where the height was `old` before
  pub record Rebalanced (old : ℕ) (l : Tree A) (k : A) (r : Tree A) (t : Tree A) : Type ℓ where
    pub avl : IsAvl t
    pub same : keys t ≡ keys l ++ k ∷ keys r
    pub low : old ≤ height t
    pub high : height t ≤ old + 1
    pub tilted : height t ≡ old + 1 → Tilted t

  module _ (l : Tree A) (k : A) (r : Tree A) (al : IsAvl l) (ar : IsAvl r) where
    -- no rotation where the heights differ by at most one
    pub insert_rebalance-even :
        height l ≤ height r + 1
        → height r ≤ height l + 1
        → insert_rebalance cmp key l k r ≡ ok (node (height_over l r) l k r)
    unfolding insert_rebalance
    insert_rebalance-even p q =
        rw (ltb-false (height r + 1) (height l) p, ltb-false (height l + 1) (height r) q)

  -- the left side is too high
  left_heavy-Rebalanced :
      (l : Tree A) (k : A) (r : Tree A)
      → IsAvl l
      → IsAvl r
      → height l ≡ height r + 2
      → Tilted l
      → Returns (Rebalanced (height r + 2) l k r) (insert_rebalance cmp key l k r)
  unfolding insert_rebalance keys
  left_heavy-Rebalanced nil k r al ar e t = absurd (omega arith)
  left_heavy-Rebalanced (node h a x b) k r al ar e (inl one) = absurd (omega arith)
  left_heavy-Rebalanced (node h a x b) k r al ar e (inr (inl (lt, up))) =
      let heavy = lt→ltb (height r + 1) h (omega arith) in
      let light = ltb-false (h + 1) (height r) (omega arith) in
      rw (heavy, light, lt)
        (returns (record {
          avl = (al.0, (al.1, ar, refl, omega arith, omega arith), refl, omega arith, omega arith);
          same = simp append_assoc;
          low = omega arith;
          high = omega arith;
          tilted = λ f. absurd (omega arith);
        }))
  left_heavy-Rebalanced (node h a x nil) k r al ar e (inr (inr (gt, up))) = absurd (omega arith)
  left_heavy-Rebalanced (node h a x (node h' b y c)) k r al ar e (inr (inr (gt, up))) =
      let heavy = lt→ltb (height r + 1) h (omega arith) in
      let light = ltb-false (h + 1) (height r) (omega arith) in
      rw (heavy, light, gt)
        (returns (record {
          avl = (
            (al.0, al.1.0, refl, omega arith, omega arith),
            (al.1.1, ar, refl, omega arith, omega arith),
            refl,
            omega arith,
            omega arith,
          );
          same = simp append_assoc;
          low = omega arith;
          high = omega arith;
          tilted = λ f. absurd (omega arith);
        }))

  -- the right side is too high
  right_heavy-Rebalanced :
      (l : Tree A) (k : A) (r : Tree A)
      → IsAvl l
      → IsAvl r
      → height r ≡ height l + 2
      → Tilted r
      → Returns (Rebalanced (height l + 2) l k r) (insert_rebalance cmp key l k r)
  unfolding insert_rebalance keys
  right_heavy-Rebalanced l k nil al ar e t = absurd (omega arith)
  right_heavy-Rebalanced l k (node h a x b) al ar e (inl one) = absurd (omega arith)
  right_heavy-Rebalanced l k (node h a x b) al ar e (inr (inr (gt, up))) =
      let heavy = lt→ltb (height l + 1) h (omega arith) in
      let light = ltb-false (h + 1) (height l) (omega arith) in
      rw (heavy, light, gt)
        (returns (record {
          avl = ((al, ar.0, refl, omega arith, omega arith), ar.1, refl, omega arith, omega arith);
          same = simp append_assoc;
          low = omega arith;
          high = omega arith;
          tilted = λ f. absurd (omega arith);
        }))
  right_heavy-Rebalanced l k (node h nil x b) al ar e (inr (inl (lt, up))) = absurd (omega arith)
  right_heavy-Rebalanced l k (node h (node h' b y c) x a) al ar e (inr (inl (lt, up))) =
      let heavy = lt→ltb (height l + 1) h (omega arith) in
      let light = ltb-false (h + 1) (height l) (omega arith) in
      rw (heavy, light, lt)
        (returns (record {
          avl = (
            (al, ar.0.0, refl, omega arith, omega arith),
            (ar.0.1, ar.1, refl, omega arith, omega arith),
            refl,
            omega arith,
            omega arith,
          );
          same = simp append_assoc;
          low = omega arith;
          high = omega arith;
          tilted = λ f. absurd (omega arith);
        }))

  -- what an insertion into one subtree leaves, before the rotations
  module _ (l l' : Tree A) (k : A) (r : Tree A) where
    pub insert_left-Rebalanced :
        IsAvl l'
        → IsAvl r
        → height l ≤ height r + 1
        → height r ≤ height l + 1
        → height l ≤ height l'
        → height l' ≤ height l + 1
        → (height l' ≡ height l + 1 → Tilted l')
        → cmp key k ≡ Ordering.lt
        → Returns (Rebalanced (height_over l r) l' k r) (insert_rebalance cmp key l' k r)
    unfolding keys
    insert_left-Rebalanced al ar p q low high t lt =
        elim (Bool-cases (leb (height l') (height r + 1))) [
          | inl even ↦
              let even' : height l' ≤ height r + 1 = ground arith in
              rw (insert_rebalance-even l' k r al ar even' (omega arith)) (
                returns (record {
                  avl = (al, ar, refl, even', omega arith);
                  same = refl;
                  low = omega arith;
                  high = omega arith;
                  tilted = λ f. inr (inl (lt, omega arith));
                }))
          | inr heavy ↦
              let up : height l' ≡ height r + 2 = ground arith in
              let old : height_over l r ≡ height r + 2 = omega arith in
              rw old (left_heavy-Rebalanced l' k r al ar up (t (omega arith)))
        ]

  module _ (l : Tree A) (k : A) (r r' : Tree A) where
    pub insert_right-Rebalanced :
        IsAvl l
        → IsAvl r'
        → height l ≤ height r + 1
        → height r ≤ height l + 1
        → height r ≤ height r'
        → height r' ≤ height r + 1
        → (height r' ≡ height r + 1 → Tilted r')
        → cmp key k ≡ Ordering.gt
        → Returns (Rebalanced (height_over l r) l k r') (insert_rebalance cmp key l k r')
    unfolding keys
    insert_right-Rebalanced al ar p q low high t gt =
        elim (Bool-cases (leb (height r') (height l + 1))) [
          | inl even ↦
              let even' : height r' ≤ height l + 1 = ground arith in
              rw (insert_rebalance-even l k r' al ar (omega arith) even') (
                returns (record {
                  avl = (al, ar, refl, omega arith, even');
                  same = refl;
                  low = omega arith;
                  high = omega arith;
                  tilted = λ f. inr (inr (gt, omega arith));
                }))
          | inr heavy ↦
              let up : height r' ≡ height l + 2 = ground arith in
              let old : height_over l r ≡ height l + 2 = omega arith in
              rw old (right_heavy-Rebalanced l k r' al ar up (t (omega arith)))
        ]
