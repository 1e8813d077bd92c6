-- ===== src/Sort/Merge/Sorts.antt =====
-- merge_sort sorts.
use mathlib.Core.Path.{subst}
use mathlib.Core.List.Perm
use mathlib.Core.List.{append-nil, append_assoc}
use vlib.Base.{
  ℕ, zero, suc, ◌+◌, ◌-◌, ◌/◌, ◌%◌, ◌++◌, ◌≤◌, ◌<◌, ◌≡◌, refl, sym, ap, ◌∙◌, List, [], ◌∷◌, true,
  false, Perm, ok, aborted, ◌>>=◌, Returns, returns, Returns-bind, Returns-map, arith, length, take,
  drop, replicate, Bool-cases, inl, inr, if◌then◌else◌, ltb, word, length-append, length-perm,
  length-take, length-drop, length-replicate,
}
use vlib.Cmp.{CmpFn, IsCmp, is_pos}
use vlib.Array.{load}
use vlib.Array.Prefix.{take-drop, drop-append}
use vlib.Sort.Order.{IsOrdered, IsOrdered-IsSorted, Sorts}
use vlib.Sort.Merge.{ms, merge, merge_sort}
use vlib.Sort.Merge.Joining.{joined, merge-joined, load-drop, drop_whole}
use vlib.Sort.Merge.Ordered.{joined-IsOrdered, joined-perm, append-IsOrdered, load-last, last}

module _ {ℓ} {A : Type ℓ} (cmp : CmpFn A) (laws : IsCmp cmp) where
  -- the entries `x` between `p` and `s` have been put in order
  abbrev pub Ranged : List A → List A → List A → List A → List A × List A → Type ℓ
  Ranged p x s tmp (b, t) =
      (y : List A) × (b ≡ p ++ (y ++ s)) × IsOrdered cmp y × Perm y x × (length t ≡ length tmp)

  -- a list in three parts
  parts :
      (u : List A) (n m : ℕ)
      → n + m ≤ length u
      → (t1 : List A) × (t2 : List A) × (t : List A) × (u ≡ t1 ++ (t2 ++ t))
        × (length t1 ≡ n)
        × (length t2 ≡ m)
  parts u n m room = (
    take n u,
    take m (drop n u),
    drop m (drop n u),
    sym (ap (λ l. take n u ++ l) (take-drop m (drop n u)) ∙ take-drop n u),
    omega (arith, length-take n u),
    omega (arith, length-take m (drop n u), length-drop n u),
  )

  -- the comparison at the middle, and merge
  merge_halves :
      (p s u xs ys : List A) (m r : ℕ)
      → IsOrdered cmp xs
      → IsOrdered cmp ys
      → 0 < length xs
      → 0 < length ys
      → m + 1 ≡ length p + length xs
      → r ≡ m + length ys
      → length xs + length ys ≤ length u
      → Returns (Ranged p (xs ++ ys) s u) (
          load (p ++ (xs ++ (ys ++ s))) m >>= λ before.
          load (p ++ (xs ++ (ys ++ s))) (m + 1) >>= λ behind.
          if is_pos (cmp before behind)
          then merge cmp (p ++ (xs ++ (ys ++ s))) (length p) m r u
          else ok (p ++ (xs ++ (ys ++ s)), u))
  merge_halves p s u [] ys m r ox oy some_x some_y at_m at_r room = absurd (omega arith)
  merge_halves p s u (x ∷ xs) [] m r ox oy some_x some_y at_m at_r room = absurd (omega arith)
  merge_halves p s u (x ∷ xs) (y ∷ ys) m r ox oy some_x some_y at_m at_r room =
      let c : List A = p ++ ((x ∷ xs) ++ ((y ∷ ys) ++ s)) in
      let front = load-last cmp laws y p (x ∷ xs) ((y ∷ ys) ++ s) m some_x at_m in
      let at_next : drop (m + 1) c ≡ y ∷ (ys ++ s) = rw at_m (
        drop-append p ((x ∷ xs) ++ ((y ∷ ys) ++ s)) (length (x ∷ xs))
        ∙ drop_whole (x ∷ xs) ((y ∷ ys) ++ s)) in
      let back = load-drop c (m + 1) y (ys ++ s) at_next in
      rw (front, back)
        (elim (Bool-cases (is_pos (cmp (last cmp laws y (x ∷ xs)) y))) [
          | inr fine ↦ rw fine (
              returns (
                (x ∷ xs) ++ (y ∷ ys),
                ap (λ l. p ++ l) (sym (append_assoc (x ∷ xs) (y ∷ ys) s)),
                append-IsOrdered cmp laws y x y xs ys ox oy fine,
                Perm.rfl,
                refl,
              ))
          | inl later ↦
              let (t1, t2, t, e, e1, e2) = parts u (length (x ∷ xs)) (length (y ∷ ys)) room in
              let run : merge cmp c (length p) m r u
                  ≡ ok (p ++ (joined cmp (x ∷ xs) (y ∷ ys) ++ s), (x ∷ xs) ++ ((y ∷ ys) ++ t)) =
                ap (merge cmp c (length p) m r) e
                ∙ merge-joined cmp p (x ∷ xs) (y ∷ ys) s t1 t2 t m r (omega arith) at_m at_r e1
                    e2 in
              rw (later, run)
                (returns (
                  joined cmp (x ∷ xs) (y ∷ ys),
                  refl,
                  joined-IsOrdered cmp laws (x ∷ xs) (y ∷ ys) ox oy,
                  joined-perm cmp laws (x ∷ xs) (y ∷ ys),
                  omega (
                    arith,
                    length-append (x ∷ xs) ((y ∷ ys) ++ t),
                    length-append (y ∷ ys) t,
                    ap length e,
                    length-append t1 (t2 ++ t),
                    length-append t2 t,
                  ),
                ))
        ])

  -- what a call of ms with `n` units of fuel does
  abbrev Sorter : ℕ → Type ℓ
  Sorter n =
      (p x s tmp : List A) (r : ℕ)
      → 0 < length x
      → length x ≤ suc n
      → r + 1 ≡ length p + length x
      → length x ≤ length tmp
      → Returns (Ranged p x s tmp) (ms cmp n (p ++ (x ++ s)) (length p) r tmp)

  sorted_halves :
      (n : ℕ) (sort : Sorter n) (p xs ys s tmp : List A) (m r : ℕ)
      → 0 < length xs
      → 0 < length ys
      → length xs ≤ suc n
      → length ys ≤ suc n
      → m + 1 ≡ length p + length xs
      → r ≡ m + length ys
      → length xs + length ys ≤ length tmp
      → Returns (Ranged p (xs ++ ys) s tmp) (
          ms cmp n (p ++ ((xs ++ ys) ++ s)) (length p) m tmp >>= λ (b, t).
          ms cmp n b (m + 1) r t >>= λ (c, u). load c m >>= λ before. load c (m + 1) >>= λ behind.
          if is_pos (cmp before behind) then merge cmp c (length p) m r u else ok (c, u))
  sorted_halves n sort p xs ys s tmp m r some_x some_y few_x few_y at_m at_r room =
      rw (append_assoc xs ys s) (
        Returns-bind _ _ (sort p xs (ys ++ s) tmp m some_x few_x at_m (omega arith))
          λ (b, t) (xs', eb, ox, px, lt). second b t xs' eb ox px lt)
    where
      third :
          (c u xs' ys' t : List A)
          → c ≡ p ++ (xs' ++ (ys' ++ s))
          → IsOrdered cmp xs'
          → IsOrdered cmp ys'
          → Perm xs' xs
          → Perm ys' ys
          → length u ≡ length tmp
          → Returns (Ranged p (xs ++ ys) s tmp) (
              load c m >>= λ before. load c (m + 1) >>= λ behind.
              if is_pos (cmp before behind) then merge cmp c (length p) m r u else ok (c, u))
      third c u xs' ys' t ec ox oy px py lu =
          let sx = length-perm px in
          let sy = length-perm py in
          rw ec (
            Returns-map _
              (merge_halves p s u xs' ys' m r ox oy (omega arith) (omega arith) (omega arith)
                (omega arith) (omega arith))
              λ (d, v) (z, ez, oz, pz, lv). (z, ez, oz, Perm.trans pz (Perm.append px py), lv ∙ lu))

      second :
          (b t xs' : List A)
          → b ≡ p ++ (xs' ++ (ys ++ s))
          → IsOrdered cmp xs'
          → Perm xs' xs
          → length t ≡ length tmp
          → Returns (Ranged p (xs ++ ys) s tmp) (
              ms cmp n b (m + 1) r t >>= λ (c, u). load c m >>= λ before.
              load c (m + 1) >>= λ behind.
              if is_pos (cmp before behind) then merge cmp c (length p) m r u else ok (c, u))
      second b t xs' eb ox px lt =
          let sx = length-perm px in
          let e : b ≡ (p ++ xs') ++ (ys ++ s) = eb ∙ sym (append_assoc p xs' (ys ++ s)) in
          let at : m + 1 ≡ length (p ++ xs') = omega (arith, length-append p xs') in
          let ((c, u), ran, (ys', ec, oy, py, lu)) =
            sort (p ++ xs') ys s t r some_y few_y (omega (arith, length-append p xs'))
              (omega arith) in
          let run : ms cmp n b (m + 1) r t ≡ ok (c, u) =
            ap (λ l. ms cmp n l (m + 1) r t) e
            ∙ ap (λ k. ms cmp n ((p ++ xs') ++ (ys ++ s)) k r t) at
            ∙ ran in
          rw run (third c u xs' ys' t (ec ∙ append_assoc p xs' (ys' ++ s)) ox oy px py (lu ∙ lt))

  single-IsOrdered : (x : List A) → length x ≤ 1 → IsOrdered cmp x
  single-IsOrdered [] h = tt
  single-IsOrdered (c ∷ []) h = (tt, tt)
  single-IsOrdered (c ∷ d ∷ x) h = absurd (omega arith)

  ms-Ranged : (n : ℕ) → Sorter n
  unfolding ms
  ms-Ranged zero p x s tmp r some few at room =
      let done : ltb (length p) r ≡ false = ground arith in
      rw done (returns (x, refl, single-IsOrdered x few, Perm.rfl, refl))
  ms-Ranged (suc n) p x s tmp r some few at room = elim (Bool-cases (ltb (length p) r)) [
    | inr done ↦ rw done (returns (x, refl, single-IsOrdered x (ground arith), Perm.rfl, refl))
    | inl long ↦
        let h : ℕ = suc ((r - length p) / 2) in
        let size_x : length (take h x) ≡ h = ground (arith, length-take h x) in
        let size_y : length (drop h x) ≡ length x - h = length-drop h x in
        let halves =
          sorted_halves n (ms-Ranged n) p (take h x) (drop h x) s tmp
            (length p + (r - length p) / 2) r (omega arith) (ground arith) (ground arith)
            (ground arith) (ground arith) (ground arith) (ground arith) in
        let joined_up : Returns (Ranged p (take h x ++ drop h x) s tmp)
            (ms cmp (suc n) (p ++ ((take h x ++ drop h x) ++ s)) (length p) r tmp) =
          rw long halves in
        subst (λ l. Returns (Ranged p l s tmp) (ms cmp (suc n) (p ++ (l ++ s)) (length p) r tmp))
          (take-drop h x) joined_up
  ]

  -- For a comparison that is a total preorder, merge_sort leaves the elements of a non-empty array in
  -- order, when there is memory for the copy; otherwise it stops the program.
  pub merge_sort-Sorts :
      (zeroed : A) (a : List A)
      → 0 < length a
      → length a < word
      → (merge_sort cmp zeroed false a (length a) ≡ aborted)
        × Returns (Sorts cmp a) (merge_sort cmp zeroed true a (length a))
  unfolding merge_sort
  merge_sort-Sorts zeroed a some small =
      let wrap : (length a + word - 1) % word ≡ length a - 1 = omega arith in
      let tmp = replicate (length a) zeroed in
      let sorted : Returns (Ranged [] a [] tmp) (ms cmp (length a + 64) a 0 (length a - 1) tmp) =
        subst (λ l. Returns (Ranged [] a [] tmp) (ms cmp (length a + 64) l 0 (length a - 1) tmp))
          (append-nil a)
          (ms-Ranged (length a + 64) [] a [] tmp (length a - 1) some (omega arith) (omega arith)
            (omega (arith, length-replicate (length a) zeroed))) in
      (
        refl,
        rw wrap (
            Returns-bind _ _ sorted λ (b, t) (y, eb, oy, py, lt).
              returns
                (subst (Sorts cmp a) (sym (eb ∙ append-nil y)) (IsOrdered-IsSorted cmp y oy, py))),
      )
