-- ===== src/Cmp.antt =====
-- src/vlib.h: `CmpFn`, the caller's comparison, and `FreeFn`. The library reads only the sign of the `int`
-- that a comparison returns, so a comparison is modelled by that sign.
use vlib.Base.{Ordering, ◌≡◌, Bool, true, false, arith, refl}

abbrev pub CmpFn {ℓ} : Type ℓ → Type ℓ
CmpFn A = A → A → Ordering

-- `cmp > 0`, `cmp < 0` and `cmp == 0`
abbrev pub is_pos : Ordering → Bool
is_pos Ordering.gt = true
is_pos _ = false

abbrev pub is_neg : Ordering → Bool
is_neg Ordering.lt = true
is_neg _ = false

abbrev pub is_zero : Ordering → Bool
is_zero Ordering.eq = true
is_zero _ = false

-- the sign of `-cmp`
abbrev pub converse : Ordering → Ordering
converse Ordering.lt = Ordering.gt
converse Ordering.eq = Ordering.eq
converse Ordering.gt = Ordering.lt

-- To split on a comparison and keep the equation.
pub data Sign (o : Ordering) : Type 0 where
  less : o ≡ Ordering.lt → Sign o
  same : o ≡ Ordering.eq → Sign o
  more : o ≡ Ordering.gt → Sign o

pub sign : (o : Ordering) → Sign o
sign Ordering.lt = less refl
sign Ordering.eq = same refl
sign Ordering.gt = more refl

-- What a sort expects of the comparison: a total preorder, by which exchanging the arguments
-- changes the sign.
pub record IsCmp {ℓ} {A : Type ℓ} (cmp : CmpFn A) : Type ℓ where
  pub exchange : (a b : A) → cmp b a ≡ converse (cmp a b)
  pub trans :
      (a b c : A) → is_pos (cmp a b) ≡ false → is_pos (cmp b c) ≡ false → is_pos (cmp a c) ≡ false

module _ {ℓ} {A : Type ℓ} (cmp : CmpFn A) where
  -- `a` may stand before `b`
  abbrev pub Le : A → A → Type 0
  Le a b = is_pos (cmp a b) ≡ false

  module _ (laws : IsCmp cmp) where
    pub cmp_self : (a : A) → cmp a a ≡ Ordering.eq
    cmp_self a = ground (arith, laws.exchange a a)

    pub Le-total : (a b : A) → is_pos (cmp a b) ≡ true → Le b a
    Le-total a b h = ground (arith, laws.exchange a b)

    -- a strict step before or after a weak one is strict
    pub lt_trans_le : (a b c : A) → cmp a b ≡ Ordering.lt → Le b c → cmp a c ≡ Ordering.lt
    lt_trans_le a b c p q = ground (arith, laws.exchange a b, laws.exchange a c, laws.trans b c a q)

    pub le_trans_lt : (a b c : A) → Le a b → cmp b c ≡ Ordering.lt → cmp a c ≡ Ordering.lt
    le_trans_lt a b c p q =
        ground (arith, laws.exchange b c, laws.exchange a c, λ (h : Le c a). laws.trans c a b h p)
