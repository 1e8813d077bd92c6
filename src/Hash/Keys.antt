-- ===== src/Hash/Keys.antt =====
-- What the tables ask of the comparison of keys and of the hash.
use mathlib.Core.Path.{fun_ext}
use vlib.Base.{
  ◌≤◌, ℕ, ◌≡◌, refl, sym, ap, List, [], ◌∷◌, Option, none, some, true, arith, length, if◌then◌else◌,
}
use vlib.Cmp.{CmpFn}
use vlib.Hash.{Key, is_found, is_taken, bytes_equal}
use vlib.Hash.Chains.{lookup-count, Chain, count}
use vlib.Hash.Entries.{lookup, assign, erase}

-- Comparing equal is an equivalence; keys that compare equal have one hash and one length.
pub record IsKeyed (siphash : Key → List ℕ → ℕ) (seed : List ℕ) (cmp : Option (CmpFn Key))
    : Type 0 where
  pub same_refl : (a : Key) → is_found cmp a a ≡ true
  pub same_symm : (a b : Key) → is_found cmp a b ≡ is_found cmp b a
  pub same_trans :
      (a b c : Key) → is_found cmp a b ≡ true → is_found cmp b c ≡ true → is_found cmp a c ≡ true
  pub same_hash : (a b : Key) → is_found cmp a b ≡ true → siphash a seed ≡ siphash b seed
  pub same_length : (a b : Key) → is_found cmp a b ≡ true → length a ≡ length b

bytes_equal_refl : (a : Key) → bytes_equal a a ≡ true
unfolding bytes_equal
bytes_equal_refl [] = refl
bytes_equal_refl (x ∷ a) = ground (arith, bytes_equal_refl a)

bytes_equal_eq : (a b : Key) → bytes_equal a b ≡ true → a ≡ b
unfolding bytes_equal
bytes_equal_eq [] [] h = refl
bytes_equal_eq [] (y ∷ b) h = ground arith
bytes_equal_eq (x ∷ a) [] h = ground arith
bytes_equal_eq (x ∷ a) (y ∷ b) h = ground (arith, bytes_equal_eq a b)

bytes_equal_symm : (a b : Key) → bytes_equal a b ≡ bytes_equal b a
unfolding bytes_equal
bytes_equal_symm [] [] = refl
bytes_equal_symm [] (y ∷ b) = refl
bytes_equal_symm (x ∷ a) [] = refl
bytes_equal_symm (x ∷ a) (y ∷ b) = ground (arith, bytes_equal_symm a b)

-- Without a comparison function, the bytes are compared, and every hash will do.
pub bytes-IsKeyed : (siphash : Key → List ℕ → ℕ) (seed : List ℕ) → IsKeyed siphash seed none
bytes-IsKeyed siphash seed = record {
  same_refl = bytes_equal_refl;
  same_symm = bytes_equal_symm;
  same_trans = λ a b c p q. rw (bytes_equal_eq a b p) q;
  same_hash = λ a b p. ap (λ k. siphash k seed) (bytes_equal_eq a b p);
  same_length = λ a b p. ap length (bytes_equal_eq a b p);
}

module _ (siphash : Key → List ℕ → ℕ) (seed : List ℕ) (cmp : Option (CmpFn Key))
    (laws : IsKeyed siphash seed cmp) where
  pub congr_left : (a b c : Key) → is_found cmp a b ≡ true → is_found cmp a c ≡ is_found cmp b c
  congr_left a b c e =
      ground (arith, laws.same_symm a b, laws.same_trans a b c, laws.same_trans b a c)

  pub congr_right : (a b c : Key) → is_found cmp b c ≡ true → is_found cmp a b ≡ is_found cmp a c
  congr_right a b c e =
      ground (arith, laws.same_symm b c, laws.same_trans a b c, laws.same_trans a c b)

  -- the test of the insertions is that of the searches
  pub is_taken-is_found : (key : Key) → is_taken cmp key ≡ is_found cmp key
  is_taken-is_found key = fun_ext (λ cur. swap_test cmp key cur (laws.same_symm key cur))
    where
      swap_test :
          (f : Option (CmpFn Key)) (key cur : Key)
          → is_found f key cur ≡ is_found f cur key
          → is_taken f key cur ≡ is_found f key cur
      swap_test none key cur e = refl
      swap_test (some fn) key cur e = sym e

  module _ {ℓ} {V : Type ℓ} (q k : Key) where
    pub count_absent :
        (c : Chain V)
        → lookup (is_found cmp k) c ≡ none
        → is_found cmp q k ≡ true
        → count (is_found cmp q) c ≡ 0
    count_absent [] h same = refl
    count_absent (e ∷ c) h same = ground (arith, count_absent c, congr_left q k e.key)

    pub lookup-assign :
        (v : V) (c : Chain V) (old : V)
        → lookup (is_found cmp k) c ≡ some old
        → lookup (is_found cmp q) (assign (is_found cmp k) v c)
          ≡ (if is_found cmp q k then some v else lookup (is_found cmp q) c)
    lookup-assign v [] old h = ground arith
    lookup-assign v (e ∷ c) old h =
        ground (arith, lookup-assign v c old, congr_left q k e.key, congr_right q k e.key)

    pub count-assign :
        (v : V) (c : Chain V)
        → count (is_found cmp q) (assign (is_found cmp k) v c) ≡ count (is_found cmp q) c
    count-assign v [] = refl
    count-assign v (e ∷ c) = ground (arith, count-assign v c)

    pub count-erase :
        (c : Chain V) → count (is_found cmp q) (erase (is_found cmp k) c) ≤ count (is_found cmp q) c
    count-erase [] = omega arith
    count-erase (e ∷ c) = ground (arith, count-erase c)

    pub lookup-erase :
        (c : Chain V)
        → count (is_found cmp q) c ≤ 1
        → lookup (is_found cmp q) (erase (is_found cmp k) c)
          ≡ (if is_found cmp q k then none else lookup (is_found cmp q) c)
    lookup-erase [] h = ground arith
    lookup-erase (e ∷ c) h = ground (
      arith,
      lookup-erase c,
      lookup-count (is_found cmp q) c,
      congr_left q k e.key,
      congr_right q k e.key,
    )
