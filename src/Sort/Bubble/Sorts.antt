-- ===== src/Sort/Bubble/Sorts.antt =====
-- bubble_sort.c sorts every array.
use mathlib.Core.List.Perm
use vlib.Base.{
  ℕ, zero, suc, ◌+◌, ◌-◌, ◌<◌, ◌≡◌, refl, List, [], ◌∷◌, Perm, Returns, returns, Returns-bind,
  Returns-map, Bool-cases, inl, inr, arith, length, get_or, length-perm, true,
}
use vlib.Cmp.{CmpFn, IsCmp, is_pos, Le, Le-total}
use vlib.Array.{load-ok, swapped, swap-ok, length-swapped, get_or-swapped, swapped-perm}
use vlib.Sort.Order.{Sorts, IsSettled, IsSettled-IsSorted}
use vlib.Sort.Bubble.{bubble_pass, bubble_passes, bubble_sort}

module _ {ℓ} {A : Type ℓ} (cmp : CmpFn A) (laws : IsCmp cmp) (d : A) where
  -- nothing before `j` is greater than the entry at `j`
  abbrev IsTop : ℕ → List A → Type 0
  IsTop j a = (p : ℕ) → p < j → Le cmp (get_or a p d) (get_or a j d)

  -- the state of a pass that ends at `m` and has reached `j`
  record Pass (j m : ℕ) (a : List A) : Type 0 where
    inside : m < length a
    settled : IsSettled cmp d (m + 1) a
    top : IsTop j a

  abbrev Passed : ℕ → List A → List A → Type ℓ
  Passed m a b = Perm b a × IsSettled cmp d m b

  module _ (j m : ℕ) (a : List A) (p : Pass j m a) (h : j < m) where
    Pass-keep : Le cmp (get_or a j d) (get_or a (j + 1) d) → Pass (j + 1) m a
    Pass-keep le = record {
      inside = p.inside;
      settled = p.settled;
      top = λ i lt.
          ground (arith, p.top i, laws.trans (get_or a i d) (get_or a j d) (get_or a (j + 1) d));
    }

    Pass-swap :
        is_pos (cmp (get_or a j d) (get_or a (j + 1) d)) ≡ true
        → Pass (j + 1) m (swapped d a j (j + 1))
    Pass-swap gt =
        let inside = p.inside in
        let at = get_or-swapped d a j (j + 1) (omega arith) (omega arith) in
        let size = length-swapped d a j (j + 1) in
        record {
          inside = omega (arith, size);
          settled = λ i k lt le end.
              ground (arith, size, at i, at k, p.settled i k, p.settled j k, p.settled (j + 1) k);
          top = λ i lt. ground (
            arith,
            at i,
            at (j + 1),
            p.top i,
            Le-total cmp laws (get_or a j d) (get_or a (j + 1) d),
          );
        }

  bubble_pass-Passed :
      (n j m : ℕ) (a : List A)
      → j + n ≡ m
      → Pass j m a
      → Returns (Passed m a) (bubble_pass cmp n j a)
  unfolding bubble_pass
  bubble_pass-Passed zero j m a e p =
      returns (Perm.rfl, λ i k lt le end. ground (arith, p.settled i k, p.top i))
  bubble_pass-Passed (suc n) j m a e p =
      let inside = p.inside in
      let hj : j < length a = omega arith in
      let hk : j + 1 < length a = omega arith in
      rw (load-ok a j d hj, load-ok a (j + 1) d hk)
        (elim (Bool-cases (is_pos (cmp (get_or a j d) (get_or a (j + 1) d)))) [
          | inl gt ↦
              rw (gt, swap-ok d a j (j + 1) hj hk)
                (Returns-map _
                  (bubble_pass-Passed n (j + 1) m (swapped d a j (j + 1)) (omega arith)
                    (Pass-swap j m a p (omega arith) gt))
                  λ b (same, done). (Perm.trans same (swapped-perm d a j (j + 1) hj hk), done))
          | inr le ↦
              rw le (
                bubble_pass-Passed n (j + 1) m a (omega arith) (Pass-keep j m a p (omega arith) le))
        ])

  bubble_passes-Passed :
      (len n i : ℕ) (a : List A)
      → len ≡ length a
      → i + n ≡ len
      → IsSettled cmp d (len - i) a
      → Returns (Passed 0 a) (bubble_passes cmp len n i a)
  unfolding bubble_passes
  bubble_passes-Passed len zero i a size e s =
      returns (Perm.rfl, λ p q lt le end. s p q lt (omega arith) end)
  bubble_passes-Passed len (suc n) i a size e s =
      Returns-bind _ _
        (bubble_pass-Passed (len - 1 - i) 0 (len - 1 - i) a (omega arith) (record {
          inside = omega arith;
          settled = λ p q lt le end. s p q lt (omega arith) end;
          top = λ p lt. absurd (omega arith);
        }))
        λ b (same, done).
          Returns-map _
            (bubble_passes-Passed len n (i + 1) b (omega (arith, length-perm same)) (omega arith)
              (λ p q lt le end. done p q lt (omega arith) end))
            λ c (again, all). (Perm.trans again same, all)

module _ {ℓ} {A : Type ℓ} (cmp : CmpFn A) (laws : IsCmp cmp) where
  -- On every array, for a comparison that is a total preorder, bubble_sort returns, within the
  -- bounds of the array, an ascending array of the same elements.
  pub bubble_sort-Sorts : (a : List A) → Returns (Sorts cmp a) (bubble_sort cmp a (length a))
  unfolding bubble_sort
  bubble_sort-Sorts [] = returns (λ i j x y lt e f. ground arith, Perm.rfl)
  bubble_sort-Sorts (x ∷ a) =
      Returns-map _
        (bubble_passes-Passed cmp laws x (length (x ∷ a)) (length (x ∷ a)) 0 (x ∷ a) refl
          (omega arith) (λ p q lt le end. absurd (omega arith)))
        λ b (same, done). (IsSettled-IsSorted cmp x b done, same)
