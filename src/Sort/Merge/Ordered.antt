-- ===== src/Sort/Merge/Ordered.antt =====
-- Joining two ordered runs gives an ordered one of the same elements.
use mathlib.Core.List.Perm
use mathlib.Core.List.{append-nil, perm_middle}
use vlib.Base.{
  ℕ, zero, suc, ◌+◌, ◌++◌, ◌<◌, ◌≡◌, refl, List, [], ◌∷◌, Perm, arith, length, ok, Bool-cases, inl,
  inr,
}
use vlib.Cmp.{CmpFn, Le, IsCmp, Le-total, is_pos}
use vlib.Array.{load}
use vlib.Sort.Order.{IsBelow, IsOrdered}
use vlib.Sort.Merge.Joining.{joined}

module _ {ℓ} {A : Type ℓ} (cmp : CmpFn A) (laws : IsCmp cmp) where
  IsBelow-trans : (x y : A) (zs : List A) → Le cmp x y → IsBelow cmp y zs → IsBelow cmp x zs
  IsBelow-trans x y [] le h = tt
  IsBelow-trans x y (z ∷ zs) le (le', h) = (laws.trans x y z le le', IsBelow-trans x y zs le h)

  IsBelow-append :
      (x : A) (ys zs : List A) → IsBelow cmp x ys → IsBelow cmp x zs → IsBelow cmp x (ys ++ zs)
  IsBelow-append x [] zs h k = k
  IsBelow-append x (y ∷ ys) zs (le, h) k = (le, IsBelow-append x ys zs h k)

  IsBelow-joined :
      (z : A) (xs ys : List A)
      → IsBelow cmp z xs
      → IsBelow cmp z ys
      → IsBelow cmp z (joined cmp xs ys)
  IsBelow-joined z [] ys h k = k
  IsBelow-joined z (x ∷ xs) [] h k = h
  IsBelow-joined z (x ∷ xs) (y ∷ ys) (le, h) (le', k) = elim (Bool-cases (is_pos (cmp x y))) [
    | inl later ↦ rw later (le', IsBelow-joined z (x ∷ xs) ys (le, h) k)
    | inr first ↦ rw first (le, IsBelow-joined z xs (y ∷ ys) h (le', k))
  ]

  pub joined-IsOrdered :
      (xs ys : List A) → IsOrdered cmp xs → IsOrdered cmp ys → IsOrdered cmp (joined cmp xs ys)
  joined-IsOrdered [] ys h k = k
  joined-IsOrdered (x ∷ xs) [] h k = h
  joined-IsOrdered (x ∷ xs) (y ∷ ys) (below, h) (below', k) = elim (Bool-cases (is_pos (cmp x y))) [
    | inl later ↦
        let le : Le cmp y x = Le-total cmp laws x y later in
        rw later (
          IsBelow-joined y (x ∷ xs) ys (le, IsBelow-trans y x xs le below) below',
          joined-IsOrdered (x ∷ xs) ys (below, h) k,
        )
    | inr first ↦ rw first (
      IsBelow-joined x xs (y ∷ ys) below (first, IsBelow-trans x y ys first below'),
      joined-IsOrdered xs (y ∷ ys) h (below', k),
    )
  ]

  pub joined-perm : (xs ys : List A) → Perm (joined cmp xs ys) (xs ++ ys)
  joined-perm [] ys = Perm.rfl
  joined-perm (x ∷ xs) [] = rw append-nil Perm.rfl
  joined-perm (x ∷ xs) (y ∷ ys) = elim (Bool-cases (is_pos (cmp x y))) [
    | inl later ↦
        rw later
          (Perm.trans (Perm.cons y (joined-perm (x ∷ xs) ys)) (Perm.symm (perm_middle (x ∷ xs) ys)))
    | inr first ↦ rw first (Perm.cons x (joined-perm xs (y ∷ ys)))
  ]

  -- the last element of a run
  abbrev pub last : A → List A → A
  last d [] = d
  last d (x ∷ xs) = last x xs

  -- two ordered runs one after the other
  pub append-IsOrdered :
      (d x y : A) (xs ys : List A)
      → IsOrdered cmp (x ∷ xs)
      → IsOrdered cmp (y ∷ ys)
      → Le cmp (last d (x ∷ xs)) y
      → IsOrdered cmp ((x ∷ xs) ++ (y ∷ ys))
  append-IsOrdered d x y [] ys h (below, k) le = ((le, IsBelow-trans x y ys le below), (below, k))
  append-IsOrdered d x y (x' ∷ xs) ys ((le', below'), h) k le =
      let rest : IsOrdered cmp ((x' ∷ xs) ++ (y ∷ ys)) = append-IsOrdered d x' y xs ys h k le in
      ((le', IsBelow-trans x x' (xs ++ (y ∷ ys)) le' (rest.0)), rest)

  pub load-last :
      (d : A) (p xs t : List A) (k : ℕ)
      → 0 < length xs
      → k + 1 ≡ length p + length xs
      → load (p ++ (xs ++ t)) k ≡ ok (last d xs)
  unfolding load
  load-last d (c ∷ p) xs t zero some e = absurd (omega arith)
  load-last d (c ∷ p) xs t (suc k) some e = load-last d p xs t k some (omega arith)
  load-last d [] [] t k some e = absurd (omega arith)
  load-last d [] (x ∷ []) t zero some e = refl
  load-last d [] (x ∷ []) t (suc k) some e = absurd (omega arith)
  load-last d [] (x ∷ x' ∷ xs) t zero some e = absurd (omega arith)
  load-last d [] (x ∷ x' ∷ xs) t (suc k) some e =
      load-last x [] (x' ∷ xs) t k (omega arith) (omega arith)
