-- ===== src/Array.antt =====
-- A `void*` array of fixed-size elements, with the access that C makes through
-- `arr + idx * data_size`. An element is one block of `data_size` bytes, always copied whole.
pub mod Prefix
use mathlib.Core.List.Perm
use vlib.Base.{
  take, drop, replicate, leb, ◌&&◌, ◌++◌, ◌+◌, ℕ, ◌<◌, ◌≡◌, List, Perm, Run, ok, fault, ◌>>=◌,
  from_option, some, arith, ltb, ◌==◌, if◌then◌else◌, length, get_elem?, get_or, set, length-set,
  get_elem?-eq-get_or, get_or-set, set-perm, lt→ltb,
}

module _ {ℓ} {A : Type ℓ} where
  -- a read, and a write, of one element; outside the array they are undefined
  unfoldable pub load : List A → ℕ → Run A
  load a i = from_option (get_elem? a i)

  unfoldable pub store : List A → ℕ → A → Run (List A)
  store a i v = if ltb i (length a) then ok (set a i v) else fault

  -- the macro `swap` of vlib.h at two elements: byte by byte, it exchanges the blocks
  unfoldable pub swap : List A → ℕ → ℕ → Run (List A)
  unfolding load store
  swap a i j = do x ← load a i; y ← load a j; b ← store a i y; store b j x

  -- `memmove` of `n` elements, and `memset` to 0 of `n` elements
  unfoldable pub memmove : List A → ℕ → ℕ → ℕ → Run (List A)
  memmove a to from n =
      if leb (to + n) (length a) && leb (from + n) (length a)
      then ok (take to a ++ (take n (drop from a) ++ drop (to + n) a))
      else fault

  -- `memcpy` of the first `n` elements of `src` to the position `at` of another array
  unfoldable pub memcpy : List A → ℕ → List A → ℕ → Run (List A)
  memcpy dst at src n =
      if leb n (length src) && leb (at + n) (length dst)
      then ok (take at dst ++ (take n src ++ drop (at + n) dst))
      else fault

  unfoldable pub clear : A → List A → ℕ → ℕ → Run (List A)
  clear zeroed a at n =
      if leb (at + n) (length a)
      then ok (take at a ++ (replicate n zeroed ++ drop (at + n) a))
      else fault

  pub load-ok : (a : List A) (i : ℕ) (d : A) → i < length a → load a i ≡ ok (get_or a i d)
  unfolding load
  load-ok a i d h = rw (get_elem?-eq-get_or a i d h)

  pub store-ok : (a : List A) (i : ℕ) (v : A) → i < length a → store a i v ≡ ok (set a i v)
  unfolding store
  store-ok a i v h = rw (lt→ltb i (length a) h)

  -- the array after a swap
  abbrev pub swapped : A → List A → ℕ → ℕ → List A
  swapped d a i j = set (set a i (get_or a j d)) j (get_or a i d)

  pub length-swapped : (d : A) (a : List A) (i j : ℕ) → length (swapped d a i j) ≡ length a
  length-swapped d a i j = simp length-set

  module _ (d : A) (a : List A) (i j : ℕ) (hi : i < length a) (hj : j < length a) where
    pub swap-ok : swap a i j ≡ ok (swapped d a i j)
    unfolding swap
    swap-ok =
        rw (load-ok a i d hi, load-ok a j d hj, store-ok a i (get_or a j d) hi)
          (store-ok (set a i (get_or a j d)) j (get_or a i d) (rw length-set hj))

    pub get_or-swapped :
        (c : ℕ)
        → get_or (swapped d a i j) c d
          ≡ (if j == c then get_or a i d else if i == c then get_or a j d else get_or a c d)
    get_or-swapped c = rw (
      get_or-set (set a i (get_or a j d)) j c (get_or a i d) d (rw length-set hj),
      get_or-set a i c (get_or a j d) d hi,
    )

    pub swapped-perm : Perm (swapped d a i j) a
    swapped-perm =
        let b = set a i (get_or a j d) in
        let hb : j < length b = rw length-set hj in
        let kept : get_elem? b j ≡ some (get_or a j d) =
          ground (arith, get_elem?-eq-get_or b j d, get_or-set a i j (get_or a j d) d) in
        let first = set-perm a i (get_or a j d) (get_elem?-eq-get_or a i d hi) in
        Perm.cons_inv (Perm.trans (set-perm b j (get_or a i d) kept) first)
