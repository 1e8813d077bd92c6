-- ===== src/Sort/Order.antt =====
-- What the sorts promise: an ascending array of the same elements.
use vlib.Base.{
  zero, suc, [], ◌∷◌, ℕ, zero, suc, ◌≤◌, ◌<◌, ◌≡◌, List, [], ◌∷◌, Perm, some, arith, length,
  get_elem?, get_or, get_elem?-some,
}
use vlib.Cmp.{CmpFn, Le}

module _ {ℓ} {A : Type ℓ} (cmp : CmpFn A) where
  -- an earlier element may stand before a later one
  abbrev pub IsSorted : List A → Type ℓ
  IsSorted a =
      (i j : ℕ) (x y : A) → i < j → get_elem? a i ≡ some x → get_elem? a j ≡ some y → Le cmp x y

  -- `b` is what sorting `a` shall leave
  abbrev pub Sorts : List A → List A → Type ℓ
  Sorts a b = IsSorted b × Perm b a

  -- the entries from index `k` on are in their final place
  abbrev pub IsSettled : A → ℕ → List A → Type 0
  IsSettled d k a = (p q : ℕ) → p < q → k ≤ q → q < length a → Le cmp (get_or a p d) (get_or a q d)

  pub IsSettled-IsSorted : (d : A) (a : List A) → IsSettled d 0 a → IsSorted a
  IsSettled-IsSorted d a h i j x y lt e f =
      ground (arith, h i j, get_elem?-some a i d e, get_elem?-some a j d f)

  -- order by recursion, for concrete arrays
  abbrev pub IsBelow : A → List A → Type 0
  IsBelow x [] = Unit
  IsBelow x (y ∷ ys) = Le cmp x y × IsBelow x ys

  abbrev pub IsOrdered : List A → Type 0
  IsOrdered [] = Unit
  IsOrdered (x ∷ xs) = IsBelow x xs × IsOrdered xs

  pub IsBelow-at :
      (x : A) (xs : List A) → IsBelow x xs → (i : ℕ) (y : A) → get_elem? xs i ≡ some y → Le cmp x y
  IsBelow-at x [] h i y e = ground arith
  IsBelow-at x (z ∷ xs) (le, h) zero y e = ground arith
  IsBelow-at x (z ∷ xs) (le, h) (suc i) y e = IsBelow-at x xs h i y e

  pub IsOrdered-IsSorted : (xs : List A) → IsOrdered xs → IsSorted xs
  IsOrdered-IsSorted [] h i j x y lt e f = ground arith
  IsOrdered-IsSorted (z ∷ xs) (b, h) zero zero x y lt e f = absurd (omega arith)
  IsOrdered-IsSorted (z ∷ xs) (b, h) (suc i) zero x y lt e f = absurd (omega arith)
  IsOrdered-IsSorted (z ∷ xs) (b, h) zero (suc j) x y lt e f =
      ground (arith, IsBelow-at z xs b j y f)
  IsOrdered-IsSorted (z ∷ xs) (b, h) (suc i) (suc j) x y lt e f =
      IsOrdered-IsSorted xs h i j x y (omega arith) e f
