-- ===== src/Examples/Malloc.antt =====
-- A malloc that grants every request: the address above all that were written to.
use vlib.Base.{◌+◌, ◌≡◌, refl, [], ◌∷◌, none, some, arith, ◌≤◌}
use vlib.Heap.{Ptr, Heap, Cells, find, Malloc, IsMalloc, Grants}

abbrev pub no_nodes {ℓ} : {N : Type ℓ} → Heap N
no_nodes = record { cells = []; requests = 0 }

abbrev pub above {ℓ} : {N : Type ℓ} → Cells N → Ptr
above [] = 1
above ((p, n) ∷ c) = p + above c

abbrev pub counting {ℓ} : {N : Type ℓ} → Malloc N
counting n c = some (above c)

above-pos {ℓ} : {N : Type ℓ} (c : Cells N) → 1 ≤ above c
above-pos [] = omega arith
above-pos ((p, n) ∷ c) = omega (arith, above-pos c)

above-unused {ℓ} : {N : Type ℓ} (c : Cells N) (a : Ptr) → above c ≤ a → find c a ≡ none
above-unused [] a h = refl
above-unused ((p, n) ∷ c) a h = ground (arith, above-pos c, above-unused c a)

pub counting-IsMalloc {ℓ} : {N : Type ℓ} → IsMalloc (counting {N = N})
counting-IsMalloc n c p e = ground (arith, above-pos c, above-unused c (above c))

pub counting-Grants {ℓ} : {N : Type ℓ} → Grants (counting {N = N})
counting-Grants n c e = ground arith
