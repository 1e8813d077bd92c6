-- ===== src/Sort/Merge/Joining.antt =====
-- The loop of merge and the two copies behind it join two runs.
use mathlib.Core.List.{append_assoc}
use vlib.Base.{
  ℕ, zero, suc, ◌+◌, ◌-◌, ◌++◌, ◌≤◌, ◌⊎◌, ◌<◌, set, ◌≡◌, refl, sym, ap, ◌∙◌, List, [], ◌∷◌, true,
  false, ok, Run, ◌>>=◌, ◌&&◌, arith, ltb, leb, Bool-cases, inl, inr, if◌then◌else◌, length, drop,
  length-append, take-append_whole,
}
use vlib.Cmp.{CmpFn, is_pos}
use vlib.Array.{load, store, memcpy, store-ok}
use vlib.Array.Prefix.{drop-append}
use vlib.Sort.Merge.{merge_loop, merge}

module _ {ℓ} {A : Type ℓ} where
  pub load-drop : (t : List A) (i : ℕ) (x : A) (u : List A) → drop i t ≡ x ∷ u → load t i ≡ ok x
  unfolding load
  load-drop [] zero x u e = cc
  load-drop [] (suc i) x u e = cc
  load-drop (y ∷ t) zero x u e = cc
  load-drop (y ∷ t) (suc i) x u e = load-drop t i x u e

  drop-next : (t : List A) (i : ℕ) (x : A) (u : List A) → drop i t ≡ x ∷ u → drop (i + 1) t ≡ u
  drop-next [] zero x u e = cc
  drop-next [] (suc i) x u e = cc
  drop-next (y ∷ t) zero x u e = cc
  drop-next (y ∷ t) (suc i) x u e =
      let one_more : suc i + 1 ≡ suc (i + 1) = omega arith in rw one_more (drop-next t i x u e)

  set_at : (p : List A) (w x : A) (v : List A) → set (p ++ w ∷ v) (length p) x ≡ (p ++ x ∷ []) ++ v
  set_at [] w x v = refl
  set_at (y ∷ p) w x v = ap (◌∷◌ y) (set_at p w x v)

  pub store_at :
      (p : List A) (w x : A) (v : List A)
      → store (p ++ w ∷ v) (length p) x ≡ ok ((p ++ x ∷ []) ++ v)
  unfolding store
  store_at p w x v =
      let inside : length p < length (p ++ w ∷ v) = omega (arith, length-append p (w ∷ v)) in
      rw (store-ok (p ++ w ∷ v) (length p) x inside, set_at p w x v)

  nil_of : (xs : List A) → length xs ≡ 0 → xs ≡ []
  nil_of [] e = refl
  nil_of (x ∷ xs) e = absurd (omega arith)

  pub drop_whole : (w s : List A) → drop (length w) (w ++ s) ≡ s
  drop_whole [] s = refl
  drop_whole (x ∷ w) s = drop_whole w s

  pub memcpy_at :
      (p w s xs y : List A)
      → length w ≡ length xs
      → memcpy (p ++ (w ++ s)) (length p) (xs ++ y) (length xs) ≡ ok (p ++ (xs ++ s))
  unfolding memcpy
  memcpy_at p w s xs y e =
      let readable : leb (length xs) (length (xs ++ y)) ≡ true =
        ground (arith, length-append xs y) in
      let inside : leb (length p + length xs) (length (p ++ (w ++ s))) ≡ true =
        ground (arith, length-append p (w ++ s), length-append w s) in
      let behind : drop (length xs) (w ++ s) ≡ s = rw (← e) (drop_whole w s) in
      rw
        (
          readable,
          inside,
          take-append_whole (length p) p (w ++ s) refl,
          take-append_whole (length xs) xs y refl,
          drop-append p (w ++ s) (length xs),
          behind,
        )
        refl

module _ {ℓ} {A : Type ℓ} (cmp : CmpFn A) where
  -- two runs joined, the left one first where the comparison is not positive
  abbrev pub joined : List A → List A → List A
  joined [] ys = ys
  joined (x ∷ xs) [] = x ∷ xs
  joined (x ∷ xs) (y ∷ ys) =
      let left = x ∷ joined xs (y ∷ ys) in
      let right = y ∷ joined (x ∷ xs) ys in if is_pos (cmp x y) then right else left

  module _ (n1 n2 : ℕ) (tmp : List A) where
    -- merge behind its loop
    abbrev finish : ℕ × ℕ × ℕ × List A → Run (List A × List A)
    finish (i, j, k, b) = (if ltb i n1 then memcpy b k (drop i tmp) (n1 - i) else ok b) >>= λ c.
        (if ltb j n2 then memcpy c k (drop (n1 + j) tmp) (n2 - j) else ok c) >>= λ d. ok (d, tmp)

    loop_stops :
        (n i j k : ℕ) (a : List A)
        → (ltb i n1 ≡ false) ⊎ (ltb j n2 ≡ false)
        → merge_loop cmp n1 n2 tmp n i j k a ≡ ok (i, j, k, a)
    unfolding merge_loop
    loop_stops zero i j k a done =
        let stop : (ltb i n1 && ltb j n2) ≡ false = ground arith in rw stop
    loop_stops (suc n) i j k a done =
        let stop : (ltb i n1 && ltb j n2) ≡ false = ground arith in rw stop

    -- From a state in which the runs `xs` and `ys` are left, `p` is in its final place and `w` are
    -- entries to be overwritten, the rest of merge puts both runs behind `p`.
    pub merge_loop-joined :
        (n i j : ℕ) (p w s xs ys u v : List A)
        → length xs + length ys ≤ n
        → drop i tmp ≡ xs ++ u
        → drop (n1 + j) tmp ≡ ys ++ v
        → i + length xs ≡ n1
        → j + length ys ≡ n2
        → length w ≡ length xs + length ys
        → (merge_loop cmp n1 n2 tmp n i j (length p) (p ++ (w ++ s)) >>= finish)
          ≡ ok (p ++ (joined xs ys ++ s), tmp)
    unfolding merge_loop
    merge_loop-joined n i j p w s [] ys u v fuel at_i at_j size1 size2 room =
        let i_done : ltb i n1 ≡ false = ground arith in
        rw (loop_stops n i j (length p) (p ++ (w ++ s)) (inl i_done), i_done)
          (elim (Bool-cases (ltb j n2)) [
            | inl more ↦
                let count : n2 - j ≡ length ys = omega arith in
                rw (more, at_j, count, memcpy_at p w s ys v (omega arith)) refl
            | inr done ↦ rw (done, nil_of w (ground arith), nil_of ys (ground arith)) refl
          ])
    merge_loop-joined n i j p w s (x ∷ xs) [] u v fuel at_i at_j size1 size2 room =
        let j_done : ltb j n2 ≡ false = ground arith in
        let i_left : ltb i n1 ≡ true = ground arith in
        let count : n1 - i ≡ length (x ∷ xs) = omega arith in
        rw
          (
            loop_stops n i j (length p) (p ++ (w ++ s)) (inr j_done),
            i_left,
            at_i,
            count,
            memcpy_at p w s (x ∷ xs) u (omega arith),
            j_done,
          )
          refl
    merge_loop-joined zero i j p w s (x ∷ xs) (y ∷ ys) u v fuel at_i at_j size1 size2 room =
        absurd (omega arith)
    merge_loop-joined (suc n) i j p [] s (x ∷ xs) (y ∷ ys) u v fuel at_i at_j size1 size2 room =
        absurd (omega arith)
    merge_loop-joined (suc n) i j p (c ∷ w) s (x ∷ xs) (y ∷ ys) u v fuel at_i at_j size1 size2
          room =
        let i_left : ltb i n1 ≡ true = ground arith in
        let j_left : ltb j n2 ≡ true = ground arith in
        let next : (z : A) → length p + 1 ≡ length (p ++ z ∷ []) =
          λ z. sym (length-append p (z ∷ [])) in
        let next_j : n1 + (j + 1) ≡ n1 + j + 1 = omega arith in
        rw
          (
            i_left,
            j_left,
            load-drop tmp i x (xs ++ u) at_i,
            load-drop tmp (n1 + j) y (ys ++ v) at_j,
          )
          (elim (Bool-cases (is_pos (cmp x y))) [
            | inl later ↦
                let rest =
                  merge_loop-joined n i (j + 1) (p ++ y ∷ []) w s (x ∷ xs) ys u v (omega arith) at_i
                    (rw next_j (drop-next tmp (n1 + j) y (ys ++ v) at_j)) size1 (omega arith)
                    (omega arith) in
                rw (later, store_at p c y (w ++ s), next y)
                  (rest ∙ ap (λ l. ok (l, tmp)) (append_assoc p (y ∷ []) (joined (x ∷ xs) ys ++ s)))
            | inr first ↦
                let rest =
                  merge_loop-joined n (i + 1) j (p ++ x ∷ []) w s xs (y ∷ ys) u v (omega arith)
                    (drop-next tmp i x (xs ++ u) at_i) at_j (omega arith) size2 (omega arith) in
                rw (first, store_at p c x (w ++ s), next x)
                  (rest ∙ ap (λ l. ok (l, tmp)) (append_assoc p (x ∷ []) (joined xs (y ∷ ys) ++ s)))
          ])

  -- merge of two neighbouring runs
  pub merge-joined :
      (p xs ys s t1 t2 t : List A) (m r : ℕ)
      → length p ≤ m
      → m + 1 ≡ length p + length xs
      → r ≡ m + length ys
      → length t1 ≡ length xs
      → length t2 ≡ length ys
      → merge cmp (p ++ (xs ++ (ys ++ s))) (length p) m r (t1 ++ (t2 ++ t))
        ≡ ok (p ++ (joined xs ys ++ s), xs ++ (ys ++ t))
  unfolding merge
  merge-joined p xs ys s t1 t2 t m r some at_m at_r e1 e2 =
      let n1 : m - length p + 1 ≡ length xs = omega arith in
      let n2 : r - m ≡ length ys = omega arith in
      let left : drop (length p) (p ++ (xs ++ (ys ++ s))) ≡ xs ++ (ys ++ s) =
        drop_whole p (xs ++ (ys ++ s)) in
      let right : drop (m + 1) (p ++ (xs ++ (ys ++ s))) ≡ ys ++ s =
        rw at_m (drop-append p (xs ++ (ys ++ s)) (length xs) ∙ drop_whole xs (ys ++ s)) in
      let both : drop (length xs + 0) (xs ++ (ys ++ t)) ≡ ys ++ t = drop-append xs (ys ++ t) 0 in
      let loop =
        merge_loop-joined (length xs) (length ys) (xs ++ (ys ++ t)) (length xs + length ys) 0 0 p
          (xs ++ ys) s xs ys (ys ++ t) t (omega arith) refl both (omega arith) (omega arith)
          (length-append xs ys) in
      rw
        (
          n1,
          n2,
          left,
          right,
          memcpy_at [] t1 (t2 ++ t) xs (ys ++ s) e1,
          memcpy_at xs t2 t ys s e2,
          ← append_assoc xs ys s,
        )
        loop
