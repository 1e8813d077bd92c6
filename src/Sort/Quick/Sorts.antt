-- ===== src/Sort/Quick/Sorts.antt =====
-- quick_sort.c sorts every array.
use mathlib.Core.List.Perm
use vlib.Base.{
  ℕ, zero, suc, ◌+◌, ◌-◌, ◌≤◌, ◌<◌, ◌≡◌, ◌∙◌, List, [], ◌∷◌, Returns, returns, Returns-bind,
  Returns-map, Bool-cases, inl, inr, arith, length, get_or, length-perm, ltb, ltb-false, ltb→lt,
}
use vlib.Cmp.{CmpFn, IsCmp, Le}
use vlib.Sort.Order.{Sorts, IsSettled-IsSorted}
use vlib.Sort.Quick.{qs, quick_sort}
use vlib.Sort.Quick.Ranges.{IsFrom, Within, Within-refl, Within-trans, Within-wider, IsSortedIn}
use vlib.Sort.Quick.Partition.{Parted, partition-Parted}

module _ {ℓ} {A : Type ℓ} (cmp : CmpFn A) (laws : IsCmp cmp) (d : A) where
  abbrev SortsIn : ℕ → ℕ → List A → List A → Type ℓ
  SortsIn lo end a b = Within d lo end a b × IsSortedIn d cmp lo end b

  -- ordered parts on either side of the pivot make an ordered range
  join :
      (lo p end : ℕ) (a b e : List A)
      → Parted cmp d lo (end - 1) a (p, b)
      → lo < end
      → ((q : ℕ) → lo ≤ q → q < p → IsFrom d lo p b e q)
      → ((q : ℕ) → p + 1 ≤ q → q < end → IsFrom d (p + 1) end b e q)
      → get_or e p d ≡ get_or b p d
      → IsSortedIn d cmp lo p e
      → IsSortedIn d cmp (p + 1) end e
      → IsSortedIn d cmp lo end e
  join lo p end a b e part ne left right pivot sl sr u v lu uv ve = ground (
    arith,
    sl u v lu uv,
    sr u v,
    low u lu,
    high v,
    laws.trans (get_or e u d) (get_or e p d) (get_or e v d),
  )
    where
      low : (q : ℕ) → lo ≤ q → q < p → Le cmp (get_or e q d) (get_or e p d)
      low q ge lt = let (r, ge', lt', same) = left q ge lt in rw (same, pivot) (part.low r ge' lt')

      high : (q : ℕ) → p + 1 ≤ q → q < end → Le cmp (get_or e p d) (get_or e q d)
      high q ge lt =
          let (r, ge', lt', same) = right q ge lt in
          rw (same, pivot) (part.high r (omega arith) (omega arith))

  module _ (lo p end : ℕ) (a b c e : List A) (part : Parted cmp d lo (end - 1) a (p, b))
      (ne : lo < end) where
    place : (lo ≤ p) × (p < end)
    place = let at = part.place in omega arith

    -- the change by `partition`
    parted : Within d lo end a b
    parted = let full : end - 1 + 1 ≡ end = omega arith in rw full at part.change

    -- the part before the pivot is sorted first
    left_then_right : SortsIn lo p b c → SortsIn (p + 1) end c e → SortsIn lo end a e
    left_then_right (u, sl) (v, sr) =
        let at = place in
        let first = Within-wider d lo end lo p b c (omega arith) (omega arith) u in
        let second = Within-wider d lo end (p + 1) end c e (omega arith) (omega arith) v in
        (
          Within-trans d lo end a b e parted (Within-trans d lo end b c e first second),
          join lo p end a b e part ne
              (λ q ge lt.
                let (r, ge', lt', same) = u.moved q ge lt in
                (r, ge', lt', v.before q (omega arith) ∙ same))
              (λ q ge lt.
                let (r, ge', lt', same) = v.moved q ge lt in
                (r, ge', lt', same ∙ u.behind r (omega arith)))
              (v.before p (omega arith) ∙ u.behind p (omega arith))
              (λ q r ge lt lt'. ground (arith, v.before q, v.before r, sl q r ge lt lt')) sr,
        )

    -- the part behind the pivot is sorted first
    right_then_left : SortsIn (p + 1) end b c → SortsIn lo p c e → SortsIn lo end a e
    right_then_left (v, sr) (u, sl) =
        let at = place in
        let first = Within-wider d lo end (p + 1) end b c (omega arith) (omega arith) v in
        let second = Within-wider d lo end lo p c e (omega arith) (omega arith) u in
        (
          Within-trans d lo end a b e parted (Within-trans d lo end b c e first second),
          join lo p end a b e part ne
              (λ q ge lt.
                let (r, ge', lt', same) = u.moved q ge lt in
                (r, ge', lt', same ∙ v.before r (omega arith)))
              (λ q ge lt.
                let (r, ge', lt', same) = v.moved q ge lt in
                (r, ge', lt', u.behind q (omega arith) ∙ same))
              (u.behind p (omega arith) ∙ v.before p (omega arith)) sl
              (λ q r ge lt lt'. ground (arith, u.behind q, u.behind r, sr q r ge lt lt')),
        )

  qs-SortsIn :
      (k lo end : ℕ) (a : List A)
      → end - lo ≤ k
      → end ≤ length a
      → Returns (SortsIn lo end a) (qs cmp k a lo end)
  unfolding qs
  qs-SortsIn zero lo end a f h =
      rw (ltb-false (lo + 1) end (omega arith))
        (returns (Within-refl d lo end a, λ p q le lt lt'. absurd (omega arith)))
  qs-SortsIn (suc k) lo end a f h = elim (Bool-cases (ltb (lo + 1) end)) [
    | inr short ↦
        rw short (returns (Within-refl d lo end a, λ p q le lt lt'. absurd (ground arith)))
    | inl long ↦
        let long' : lo + 1 < end = ltb→lt (lo + 1) end long in
        rw long (
          Returns-bind _ _ (partition-Parted cmp d laws lo (end - 1) a (omega arith) (omega arith))
            λ (p, b) part.
              let (ge, lt) = place lo p end a b b b part (omega arith) in
              let size = length-perm part.change.same in
              elim (Bool-cases (ltb (p - lo) (end - 1 - p))) [
                | inl smaller ↦ rw smaller (
                    Returns-bind _ _ (qs-SortsIn k lo p b (omega arith) (omega arith)) λ c left.
                      Returns-map _
                        (qs-SortsIn k (p + 1) end c (omega arith)
                          (omega (arith, length-perm left.0.same)))
                        λ e right. left_then_right lo p end a b c e part (omega arith) left right)
                | inr larger ↦ rw larger (
                    Returns-bind _ _ (qs-SortsIn k (p + 1) end b (omega arith) (omega arith))
                      λ c right.
                        Returns-map _
                          (qs-SortsIn k lo p c (omega arith)
                            (omega (arith, length-perm right.0.same)))
                          λ e left. right_then_left lo p end a b c e part (omega arith) right left)
              ])
  ]

module _ {ℓ} {A : Type ℓ} (cmp : CmpFn A) (laws : IsCmp cmp) where
  -- On every array, for a comparison that is a total preorder, quick_sort returns, within the bounds
  -- of the array, an ascending array of the same elements.
  pub quick_sort-Sorts : (a : List A) → Returns (Sorts cmp a) (quick_sort cmp a (length a))
  unfolding quick_sort
  quick_sort-Sorts [] = returns (λ i j x y lt e f. ground arith, Perm.rfl)
  quick_sort-Sorts (x ∷ a) =
      Returns-map _
        (qs-SortsIn cmp laws x (length (x ∷ a)) 0 (length (x ∷ a)) (x ∷ a) (omega arith)
          (omega arith))
        λ b (change, sorted). (
          IsSettled-IsSorted cmp x b (λ p q lt le end.
              sorted p q (omega arith) lt (omega (arith, length-perm change.same))),
          change.same,
        )
