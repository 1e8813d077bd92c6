-- ===== src/LinkedList/Insertion.antt =====
-- list_insert_at at the two ends of a list and beyond them.
use vlib.Base.{
  ℕ, suc, ◌<◌, ◌++◌, ◌≡◌, refl, List, [], ◌∷◌, true, false, ok, failure, arith, ◌==◌, length, ltb,
}
use vlib.Heap.{Malloc, IsMalloc}
use vlib.LinkedList.{Node, LinkedList, list_append, list_prepend, list_insert_at}
use vlib.LinkedList.Contents.{IsList, len-IsList}
use vlib.LinkedList.Growth.{Grows, list_append-list_prepend}
use vlib.LinkedList.Positions.{not_ltb}

module _ {ℓ} {A : Type ℓ} (malloc : Malloc (Node A)) (laws : IsMalloc malloc) (l : LinkedList A)
    (z : A) where
  at_front : list_insert_at malloc l z 0 ≡ list_prepend malloc l z
  unfolding list_insert_at
  at_front = let inside = not_ltb l.len 0 (omega arith) in rw inside refl

  at_back : (n : ℕ) → l.len ≡ suc n → list_insert_at malloc l z (suc n) ≡ list_append malloc l z
  unfolding list_insert_at
  at_back n e =
      let inside : ltb l.len (suc n) ≡ false = not_ltb l.len (suc n) (omega arith) in
      let later : (suc n == 0) ≡ false = ground arith in
      let last : (suc n == l.len) ≡ true = ground arith in rw (inside, later, last) refl

  inserts_at_back :
      (xs : List A)
      → IsList l xs
      → Grows malloc l (xs ++ z ∷ []) (list_insert_at malloc l z (length xs))
  inserts_at_back [] h = rw at_front ((list_append-list_prepend malloc laws l [] h z).1)
  inserts_at_back (x ∷ xs) h =
      rw (at_back (length xs) (len-IsList l (x ∷ xs) h))
        ((list_append-list_prepend malloc laws l (x ∷ xs) h z).0)

  inserts_beyond :
      (xs : List A) (idx : ℕ)
      → IsList l xs
      → length xs < idx
      → list_insert_at malloc l z idx ≡ ok (failure, l)
  unfolding list_insert_at
  inserts_beyond xs idx h far =
      let beyond : ltb l.len idx ≡ true = ground (arith, len-IsList l xs h) in rw beyond refl

  -- With a malloc that hands out unused addresses, list_insert_at on a list that stands for `xs` adds
  -- the element at the front for index 0 and at the end for the length, unless malloc refuses the
  -- node, and fails with the list as it was for an index beyond the length.
  pub list_insert_at-ends :
      (xs : List A) (idx : ℕ)
      → IsList l xs
      → length xs < idx
      → Grows malloc l (z ∷ xs) (list_insert_at malloc l z 0)
        × Grows malloc l (xs ++ z ∷ []) (list_insert_at malloc l z (length xs))
        × (list_insert_at malloc l z idx ≡ ok (failure, l))
  list_insert_at-ends xs idx h far = (
    rw at_front ((list_append-list_prepend malloc laws l xs h z).1),
    inserts_at_back xs h,
    inserts_beyond xs idx h far,
  )
