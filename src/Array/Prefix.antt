-- ===== src/Array/Prefix.antt =====
-- Access within the first part of an array leaves the rest alone.
use vlib.Base.{
  ◌+◌, ◌<◌, zero, suc, ℕ, ◌≡◌, refl, ap, List, [], ◌∷◌, ◌++◌, ok, arith, length, get_or, set,
  length-append, take, drop, length-set,
}
use vlib.Array.{load, store, swap, swapped, load-ok, store-ok, swap-ok}

module _ {ℓ} {A : Type ℓ} where
  pub take-drop : (n : ℕ) (xs : List A) → take n xs ++ drop n xs ≡ xs
  take-drop zero xs = refl
  take-drop (suc n) [] = refl
  take-drop (suc n) (x ∷ xs) = ap (λ l. x ∷ l) (take-drop n xs)

  pub drop-append : (s t : List A) (j : ℕ) → drop (length s + j) (s ++ t) ≡ drop j t
  drop-append [] t j = let none_dropped : 0 + j ≡ j = omega arith in rw none_dropped
  drop-append (c ∷ s) t j =
      let one_more : suc (length s) + j ≡ suc (length s + j) = omega arith in
      rw (one_more, drop-append s t j)

  pub get_or-append :
      (xs ys : List A) (i : ℕ) (d : A) → i < length xs → get_or (xs ++ ys) i d ≡ get_or xs i d
  get_or-append [] ys i d h = absurd (omega arith)
  get_or-append (x ∷ xs) ys zero d h = refl
  get_or-append (x ∷ xs) ys (suc i) d h = get_or-append xs ys i d (omega arith)

  set-append :
      (xs ys : List A) (i : ℕ) (v : A) → i < length xs → set (xs ++ ys) i v ≡ set xs i v ++ ys
  set-append [] ys i v h = absurd (omega arith)
  set-append (x ∷ xs) ys zero v h = refl
  set-append (x ∷ xs) ys (suc i) v h = ap (λ l. x ∷ l) (set-append xs ys i v (omega arith))

  module _ (d : A) (xs ys : List A) (i : ℕ) (h : i < length xs) where
    inside : i < length (xs ++ ys)
    inside = omega (arith, length-append xs ys)

    pub load-append : load (xs ++ ys) i ≡ ok (get_or xs i d)
    load-append = rw (load-ok (xs ++ ys) i d inside, get_or-append xs ys i d h)

    pub store-append : (v : A) → store (xs ++ ys) i v ≡ ok (set xs i v ++ ys)
    store-append v = rw (store-ok (xs ++ ys) i v inside, set-append xs ys i v h)

    pub swap-append : (j : ℕ) → j < length xs → swap (xs ++ ys) i j ≡ ok (swapped d xs i j ++ ys)
    swap-append j hj =
        let hx : j < length (xs ++ ys) = omega (arith, length-append xs ys) in
        rw (
          swap-ok d (xs ++ ys) i j inside hx,
          get_or-append xs ys i d h,
          get_or-append xs ys j d hj,
          set-append xs ys i (get_or xs j d) h,
          set-append (set xs i (get_or xs j d)) ys j (get_or xs i d) (rw length-set hj),
        )
