-- ===== src/Avl/Delete/Restore.antt =====
-- The rotations after a deletion restore the balance and keep the keys.
use mathlib.Core.List.{append_assoc}
use vlib.Base.{
  refl, leb, lt→ltb, ℕ, suc, ◌+◌, ◌≤◌, ◌≡◌, inl, inr, ◌∷◌, ◌++◌, Returns, returns, arith,
  Bool-cases, ltb-false,
}
use vlib.Avl.{left_right, right_left, Tree, nil, node, height, height_over, ltb}
use vlib.Avl.Shape.{keys, IsAvl}
use vlib.Avl.Delete.{delete_rebalance}

module _ {ℓ} {A : Type ℓ} where
  -- what delete_rebalance makes of `l`, `k` and `r`
  pub record Restored (l : Tree A) (k : A) (r : Tree A) (t : Tree A) : Type ℓ where
    pub avl : IsAvl t
    pub same : keys t ≡ keys l ++ k ∷ keys r
    pub low : height_over l r ≤ height t + 1
    pub high : height t ≤ height_over l r
    pub even : height l ≤ height r + 1 → height r ≤ height l + 1 → height t ≡ height_over l r

  left_heavy-Restored :
      (l : Tree A) (k : A) (r : Tree A)
      → IsAvl l
      → IsAvl r
      → height l ≡ height r + 2
      → Returns (Restored l k r) (delete_rebalance l k r)
  unfolding delete_rebalance keys
  left_heavy-Restored nil k r al ar e = absurd (omega arith)
  left_heavy-Restored (node h a x b) k r al ar e =
      let heavy = lt→ltb (height r + 1) h (omega arith) in
      elim (Bool-cases (leb (height b) (height a))) [
        | inl outer ↦
            let le : height b ≤ height a = ground arith in
            rw (heavy, outer)
              (returns (record {
                avl = (
                  al.0,
                  (al.1, ar, refl, omega arith, omega arith),
                  refl,
                  omega arith,
                  omega arith,
                );
                same = simp append_assoc;
                low = omega arith;
                high = omega arith;
                even = λ p q. absurd (omega arith);
              }))
        | inr inner ↦ rw (heavy, inner) (twice h a x b k r al ar e (ground arith))
      ]
    where
      twice :
          (h : ℕ) (a : Tree A) (x : A) (b : Tree A) (k : A) (r : Tree A)
          → IsAvl (node h a x b)
          → IsAvl r
          → h ≡ height r + 2
          → suc (height a) ≤ height b
          → Returns
              (Restored (node h a x b) k r)
              (left_right (height_over (node h a x b) r) (node h a x b) k r)
      twice h a x nil k r al ar e lt = absurd (omega arith)
      twice h a x (node h' b y c) k r al ar e lt = returns (record {
        avl = (
          (al.0, al.1.0, refl, omega arith, omega arith),
          (al.1.1, ar, refl, omega arith, omega arith),
          refl,
          omega arith,
          omega arith,
        );
        same = simp append_assoc;
        low = omega arith;
        high = omega arith;
        even = λ p q. absurd (omega arith);
      })

  right_heavy-Restored :
      (l : Tree A) (k : A) (r : Tree A)
      → IsAvl l
      → IsAvl r
      → height r ≡ height l + 2
      → Returns (Restored l k r) (delete_rebalance l k r)
  unfolding delete_rebalance keys
  right_heavy-Restored l k nil al ar e = absurd (omega arith)
  right_heavy-Restored l k (node h a x b) al ar e =
      let light = ltb-false (h + 1) (height l) (omega arith) in
      let heavy = lt→ltb (height l + 1) h (omega arith) in
      elim (Bool-cases (leb (height a) (height b))) [
        | inl outer ↦
            let le : height a ≤ height b = ground arith in
            rw (light, heavy, outer)
              (returns (record {
                avl = (
                  (al, ar.0, refl, omega arith, omega arith),
                  ar.1,
                  refl,
                  omega arith,
                  omega arith,
                );
                same = simp append_assoc;
                low = omega arith;
                high = omega arith;
                even = λ p q. absurd (omega arith);
              }))
        | inr inner ↦ rw (light, heavy, inner) (twice l k h a x b al ar e (ground arith))
      ]
    where
      twice :
          (l : Tree A) (k : A) (h : ℕ) (a : Tree A) (x : A) (b : Tree A)
          → IsAvl l
          → IsAvl (node h a x b)
          → h ≡ height l + 2
          → suc (height b) ≤ height a
          → Returns
              (Restored l k (node h a x b))
              (right_left (height_over l (node h a x b)) l k (node h a x b))
      twice l k h nil x b al ar e lt = absurd (omega arith)
      twice l k h (node h' c y d) x b al ar e lt = returns (record {
        avl = (
          (al, ar.0.0, refl, omega arith, omega arith),
          (ar.0.1, ar.1, refl, omega arith, omega arith),
          refl,
          omega arith,
          omega arith,
        );
        same = simp append_assoc;
        low = omega arith;
        high = omega arith;
        even = λ p q. absurd (omega arith);
      })

  -- Two balanced subtrees whose heights differ by at most two are joined to a balanced tree with the
  -- same keys, at most one lower than without a rotation.
  pub delete_rebalance-Restored :
      (l : Tree A) (k : A) (r : Tree A)
      → IsAvl l
      → IsAvl r
      → height l ≤ height r + 2
      → height r ≤ height l + 2
      → Returns (Restored l k r) (delete_rebalance l k r)
  unfolding delete_rebalance keys
  delete_rebalance-Restored l k r al ar p q = elim (Bool-cases (ltb (height r + 1) (height l))) [
    | inl left ↦ left_heavy-Restored l k r al ar (ground arith)
    | inr light ↦ elim (Bool-cases (ltb (height l + 1) (height r))) [
      | inl right ↦ right_heavy-Restored l k r al ar (ground arith)
      | inr even ↦
          let hl : height l ≤ height r + 1 = ground arith in
          let hr : height r ≤ height l + 1 = ground arith in
          rw (light, even)
            (returns (record {
              avl = (al, ar, refl, hl, hr);
              same = refl;
              low = omega arith;
              high = omega arith;
              even = λ u v. refl;
            }))
    ]
  ]
