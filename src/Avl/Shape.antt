-- ===== src/Avl/Shape.antt =====
-- What makes a tree of avl_tree.c correct: its keys in order, its heights, its balance.
use vlib.Base.{◌+◌, ◌≤◌, ◌≡◌, refl, List, [], ◌∷◌, ◌++◌, Ordering, arith}
use vlib.Cmp.{CmpFn, IsCmp, lt_trans_le, Le, sign, less, same, more}
use vlib.Avl.{Tree, nil, node, height, height_over}

module _ {ℓ} {A : Type ℓ} where
  -- the keys from left to right
  unfoldable pub keys : Tree A → List A
  keys nil = []
  keys (node h l k r) = keys l ++ k ∷ keys r

  -- every node stores its height, and the heights below it differ by at most one
  abbrev pub IsAvl : Tree A → Type 0
  IsAvl nil = Unit
  IsAvl (node h l k r) =
      IsAvl l
      × IsAvl r
      × (h ≡ height_over l r)
      × (height l ≤ height r + 1)
      × (height r ≤ height l + 1)

module _ {ℓ} {A : Type ℓ} (cmp : CmpFn A) where
  -- `x` stands before all of the list
  abbrev pub IsBefore : A → List A → Type 0
  IsBefore x [] = Unit
  IsBefore x (y ∷ ys) = (cmp x y ≡ Ordering.lt) × IsBefore x ys

  -- all of the list stands before `x`
  abbrev pub IsBehind : A → List A → Type 0
  IsBehind x [] = Unit
  IsBehind x (y ∷ ys) = (cmp x y ≡ Ordering.gt) × IsBehind x ys

  -- strictly ascending
  abbrev pub IsAscending : List A → Type 0
  IsAscending [] = Unit
  IsAscending (x ∷ xs) = IsBefore x xs × IsAscending xs

  -- an ordered list as a set: the key is added in its place, or is there already
  unfoldable pub ordered_insert : A → List A → List A
  ordered_insert key [] = key ∷ []
  ordered_insert key (x ∷ xs) = elim (cmp key x) [
    | Ordering.lt ↦ key ∷ x ∷ xs
    | Ordering.eq ↦ x ∷ xs
    | Ordering.gt ↦ x ∷ ordered_insert key xs
  ]

  -- the key is taken out
  unfoldable pub ordered_delete : A → List A → List A
  ordered_delete key [] = []
  ordered_delete key (x ∷ xs) = elim (cmp key x) [
    | Ordering.lt ↦ x ∷ xs
    | Ordering.eq ↦ xs
    | Ordering.gt ↦ x ∷ ordered_delete key xs
  ]

  module _ (laws : IsCmp cmp) where
    gt_of_lt : (x y : A) → cmp x y ≡ Ordering.lt → cmp y x ≡ Ordering.gt
    gt_of_lt x y e = ground (arith, laws.exchange x y)

    pub IsBefore-append :
        (x y : A) (xs ys : List A)
        → IsBefore x (xs ++ y ∷ ys)
        → IsBefore x xs × (cmp x y ≡ Ordering.lt) × IsBefore x ys
    IsBefore-append x y [] ys h = (tt, h.0, h.1)
    IsBefore-append x y (z ∷ xs) ys (e, h) =
        let (u, v, w) = IsBefore-append x y xs ys h in ((e, u), v, w)

    -- an ascending list around one of its elements
    pub IsAscending-split :
        (y : A) (xs ys : List A)
        → IsAscending (xs ++ y ∷ ys)
        → IsAscending xs × IsBehind y xs × IsBefore y ys × IsAscending ys
    IsAscending-split y [] ys (h, a) = (tt, tt, h, a)
    IsAscending-split y (x ∷ xs) ys (h, a) =
        let (b, e, c) = IsBefore-append x y xs ys h in
        let (p, q, r, s) = IsAscending-split y xs ys a in ((b, p), (gt_of_lt x y e, q), r, s)

    -- what stands before the element at hand stands before a greater key
    pub IsBehind-trans : (key y : A) (xs : List A) → Le cmp y key → IsBehind y xs → IsBehind key xs
    IsBehind-trans key y [] le h = tt
    IsBehind-trans key y (x ∷ xs) le (e, h) = (
      ground (arith, laws.exchange y x, laws.exchange x key, lt_trans_le cmp laws x y key),
      IsBehind-trans key y xs le h,
    )

  pub ordered_insert-lt :
      (key y : A) (xs ys : List A)
      → cmp key y ≡ Ordering.lt
      → ordered_insert key (xs ++ y ∷ ys) ≡ ordered_insert key xs ++ y ∷ ys
  unfolding ordered_insert
  ordered_insert-lt key y [] ys e = rw e
  ordered_insert-lt key y (x ∷ xs) ys e = ground (arith, ordered_insert-lt key y xs ys e)

  pub ordered_insert-behind :
      (key : A) (xs ys : List A)
      → IsBehind key xs
      → ordered_insert key (xs ++ ys) ≡ xs ++ ordered_insert key ys
  unfolding ordered_insert
  ordered_insert-behind key [] ys h = refl
  ordered_insert-behind key (x ∷ xs) ys (e, h) = ground (arith, ordered_insert-behind key xs ys h)

  module _ (laws : IsCmp cmp) where
    IsBefore-ordered_insert :
        (x key : A) (xs : List A)
        → cmp x key ≡ Ordering.lt
        → IsBefore x xs
        → IsBefore x (ordered_insert key xs)
    unfolding ordered_insert
    IsBefore-ordered_insert x key [] e h = (e, tt)
    IsBefore-ordered_insert x key (y ∷ xs) e (f, h) =
        ground (arith, IsBefore-ordered_insert x key xs e h)

    pub IsBefore-trans :
        (x y : A) (xs : List A) → cmp x y ≡ Ordering.lt → IsBefore y xs → IsBefore x xs
    IsBefore-trans x y [] e h = tt
    IsBefore-trans x y (z ∷ xs) e (f, h) =
        (ground (arith, lt_trans_le cmp laws x y z), IsBefore-trans x y xs e h)

    pub ordered_insert-IsAscending :
        (key : A) (xs : List A) → IsAscending xs → IsAscending (ordered_insert key xs)
    unfolding ordered_insert
    ordered_insert-IsAscending key [] h = (tt, tt)
    ordered_insert-IsAscending key (x ∷ xs) (b, h) = elim (sign (cmp key x)) [
      | less e ↦ rw (e, IsAscending) ((e, IsBefore-trans key x xs e b), (b, h))
      | same e ↦ rw (e, IsAscending) (b, h)
      | more e ↦
          rw (e, IsAscending)
            (
              IsBefore-ordered_insert x key xs (ground (arith, laws.exchange key x)) b,
              ordered_insert-IsAscending key xs h,
            )
    ]
