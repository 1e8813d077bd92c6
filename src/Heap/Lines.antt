-- ===== src/Heap/Lines.antt =====
-- The nodes of a chain on the heap: their addresses and elements, in order.
use vlib.Base.{◌++◌, ◌≡◌, refl, ap, List, [], ◌∷◌, Bool, false, ◌||◌, arith, ◌==◌, map, length, suc}
use vlib.Heap.{Ptr}

-- the address and the element of each node, in order
abbrev pub Line {ℓ} : Type ℓ → Type ℓ
Line A = List (Ptr × A)

module _ {ℓ} {A : Type ℓ} where
  abbrev pub has : Ptr → Line A → Bool
  has a [] = false
  has a ((p, x) ∷ line) = (a == p) || has a line

  abbrev pub values : Line A → List A
  values line = map (λ (p, x). x) line

  pub has-append : (a : Ptr) (l m : Line A) → has a (l ++ m) ≡ (has a l || has a m)
  has-append a [] m = refl
  has-append a ((p, x) ∷ l) m = ground (arith, has-append a l m)

  pub length-values : (l : Line A) → length (values l) ≡ length l
  length-values [] = refl
  length-values ((p, x) ∷ l) = ap suc (length-values l)

  pub values-append :
      (l : Line A) (p : Ptr) (x : A) → values (l ++ (p, x) ∷ []) ≡ values l ++ x ∷ []
  values-append [] p x = refl
  values-append ((q, y) ∷ l) p x = ap (◌∷◌ y) (values-append l p x)
