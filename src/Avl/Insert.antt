-- ===== src/Avl/Insert.antt =====
-- avl_insert adds a key to the set of keys and keeps the tree ordered and balanced.
use vlib.Base.{
  ℕ, ◌+◌, ◌≤◌, ◌≡◌, ◌⊎◌, inl, inr, refl, ◌∷◌, ◌++◌, Ordering, ok, Returns, returns, Returns-bind,
  arith, Bool, true, false, Status, success, failure, ◌∙◌, ap, sym, length, length-append, ◌>>=◌,
}
use vlib.Cmp.{CmpFn, IsCmp, sign, less, same, more}
use vlib.Avl.{Tree, nil, node, height, insert_rebalance, insert, AvlTree, avl_insert}
use vlib.Avl.Shape.{
  keys, IsAvl, IsAscending, IsAscending-split, IsBehind-trans, ordered_insert, ordered_insert-lt,
  ordered_insert-behind, ordered_insert-IsAscending, IsBehind,
}
use vlib.Avl.Rebalance.{
  Tilted, insert_rebalance-even, insert_left-Rebalanced, insert_right-Rebalanced,
}

module _ {ℓ} {A : Type ℓ} (cmp : CmpFn A) (laws : IsCmp cmp) (key : A) where
  -- what insert makes of a balanced, ordered tree
  record Inserted (allocated : Bool) (t : Tree A) (r : Tree A × Status) : Type ℓ where
    avl : IsAvl r.0
    low : height t ≤ height r.0
    high : height r.0 ≤ height t + 1
    tilted : height r.0 ≡ height t + 1 → Tilted cmp key r.0
    added :
        r.1 ≡ success
        → (keys r.0 ≡ ordered_insert cmp key (keys t)) × (length (keys r.0) ≡ length (keys t) + 1)
    kept :
        r.1 ≡ failure
        → (r.0 ≡ t) × ((allocated ≡ false) ⊎ (ordered_insert cmp key (keys t) ≡ keys t))

  module _ (allocated : Bool) (h : ℕ) (l : Tree A) (k : A) (r : Tree A)
      (avl : IsAvl (node h l k r)) where
    -- no key was added below, so that there is nothing to rebalance
    rebalance_kept :
        (l' r' t : Tree A)
        → l' ≡ l
        → r' ≡ r
        → insert_rebalance cmp key l' k r' ≡ ok t
        → t ≡ node h l k r
    rebalance_kept l' r' t e f run =
        cc (insert_rebalance-even cmp key l k r avl.0 avl.1 avl.3 avl.4, avl.2)

    insert_less :
        (l' : Tree A) (s : Status)
        → cmp key k ≡ Ordering.lt
        → Inserted allocated l (l', s)
        → Returns
            (Inserted allocated (node h l k r))
            (insert_rebalance cmp key l' k r >>= λ t. ok (t, s))
    unfolding keys
    insert_less l' s lt i =
        let (t, run, reb) =
          insert_left-Rebalanced cmp key l l' k r i.avl avl.1 avl.3 avl.4 i.low i.high i.tilted
            lt in
        let (al, ar, top, p, q) = avl in
        let low = reb.low in
        let high = reb.high in
        let inserted = ordered_insert-lt cmp key k (keys l) (keys r) lt in
        rw run (
          returns (record {
            avl = reb.avl;
            low = omega arith;
            high = omega arith;
            tilted = λ e. reb.tilted (omega arith);
            added = λ e.
                let (ks, n) = i.added e in
                (
                  reb.same ∙ (ap (λ xs. xs ++ k ∷ keys r) ks ∙ sym inserted),
                  omega (
                    arith,
                    ap (length {ℓ}) reb.same,
                    length-append (keys l') (k ∷ keys r),
                    length-append (keys l) (k ∷ keys r),
                  ),
                );
            kept = λ e.
                let (old_sub, why) = i.kept e in
                (
                  rebalance_kept l' r t old_sub refl run,
                  elim why [
                    | inl short ↦ inl short
                    | inr old ↦ inr (inserted ∙ ap (λ xs. xs ++ k ∷ keys r) old)
                  ],
                );
          }))

    insert_more :
        (r' : Tree A) (s : Status)
        → cmp key k ≡ Ordering.gt
        → IsBehind cmp key (keys l)
        → Inserted allocated r (r', s)
        → Returns
            (Inserted allocated (node h l k r))
            (insert_rebalance cmp key l k r' >>= λ t. ok (t, s))
    unfolding keys ordered_insert
    insert_more r' s gt bl i =
        let (t, run, reb) =
          insert_right-Rebalanced cmp key l k r r' avl.0 i.avl avl.3 avl.4 i.low i.high i.tilted
            gt in
        let (al, ar, top, p, q) = avl in
        let low = reb.low in
        let high = reb.high in
        let inserted : ordered_insert cmp key (keys l ++ k ∷ keys r)
            ≡ keys l ++ k ∷ ordered_insert cmp key (keys r) =
          ordered_insert-behind cmp key (keys l) (k ∷ keys r) bl ∙ rw (gt, ordered_insert) in
        rw run (
          returns (record {
            avl = reb.avl;
            low = omega arith;
            high = omega arith;
            tilted = λ e. reb.tilted (omega arith);
            added = λ e.
                let (ks, n) = i.added e in
                (
                  reb.same ∙ (ap (λ xs. keys l ++ k ∷ xs) ks ∙ sym inserted),
                  omega (
                    arith,
                    ap (length {ℓ}) reb.same,
                    length-append (keys l) (k ∷ keys r'),
                    length-append (keys l) (k ∷ keys r),
                  ),
                );
            kept = λ e.
                let (old_sub, why) = i.kept e in
                (
                  rebalance_kept l r' t refl old_sub run,
                  elim why [
                    | inl short ↦ inl short
                    | inr old ↦ inr (inserted ∙ ap (λ xs. keys l ++ k ∷ xs) old)
                  ],
                );
          }))

    insert_same :
        cmp key k ≡ Ordering.eq
        → IsBehind cmp key (keys l)
        → Inserted allocated (node h l k r) (node h l k r, failure)
    unfolding keys ordered_insert
    insert_same e bl = record {
      avl = avl;
      low = omega arith;
      high = omega arith;
      tilted = λ f. absurd (omega arith);
      added = λ f. cc;
      kept = λ f. (
        refl,
        inr (ordered_insert-behind cmp key (keys l) (k ∷ keys r) bl ∙ rw (e, ordered_insert)),
      );
    }

  insert-Inserted :
      (allocated : Bool) (t : Tree A)
      → IsAvl t
      → IsAscending cmp (keys t)
      → Returns (Inserted allocated t) (insert cmp key allocated t)
  unfolding insert keys ordered_insert
  insert-Inserted true nil avl asc = returns (record {
    avl = (tt, tt, omega arith, omega arith, omega arith);
    low = omega arith;
    high = omega arith;
    tilted = λ f. inl (omega arith);
    added = λ f. (refl, omega arith);
    kept = λ f. cc;
  })
  insert-Inserted false nil avl asc = returns (record {
    avl = tt;
    low = omega arith;
    high = omega arith;
    tilted = λ f. absurd (omega arith);
    added = λ f. cc;
    kept = λ f. (refl, inl refl);
  })
  insert-Inserted allocated (node h l k r) avl asc =
      let (al, bl, br, ar) = IsAscending-split cmp laws k (keys l) (keys r) asc in
      elim (sign (cmp key k)) [
        | same e ↦
            rw (e, insert)
              (returns (
                insert_same allocated h l k r avl e (
                  IsBehind-trans cmp laws key k (keys l) (ground (arith, laws.exchange key k)) bl)))
        | less e ↦
            rw (e, insert)
              (Returns-bind _ _ (insert-Inserted allocated l avl.0 al)
                λ (l', s) i. insert_less allocated h l k r avl l' s e i)
        | more e ↦
            rw (e, insert)
              (Returns-bind _ _ (insert-Inserted allocated r avl.1 ar) λ (r', s) i.
                insert_more allocated h l k r avl r' s e
                  (IsBehind-trans cmp laws key k (keys l) (ground (arith, laws.exchange key k)) bl)
                  i)
      ]

module _ {ℓ} {A : Type ℓ} (cmp : CmpFn A) where
  -- an AVL tree: ordered, balanced, and with its number of elements
  pub record IsValid (tree : AvlTree A) : Type ℓ where
    pub ordered : IsAscending cmp (keys tree.root)
    pub balanced : IsAvl tree.root
    pub counted : tree.num_el ≡ length (keys tree.root)

  -- what avl_insert leaves: the key in its place among the keys, or the tree as it was, because the
  -- key was there or for want of memory
  pub record AddsKey (key : A) (allocated : Bool) (tree : AvlTree A) (r : Status × AvlTree A)
      : Type ℓ where
    pub valid : IsValid r.1
    pub added :
        r.0 ≡ success
        → (keys r.1.root ≡ ordered_insert cmp key (keys tree.root)) × (r.1.num_el ≡ tree.num_el + 1)
    pub kept :
        r.0 ≡ failure
        → (r.1 ≡ tree)
          × ((allocated ≡ false) ⊎ (ordered_insert cmp key (keys tree.root) ≡ keys tree.root))

  avl_insert_result :
      (laws : IsCmp cmp) (key : A) (allocated : Bool) (tree : AvlTree A)
      → IsValid tree
      → (root : Tree A) (s : Status) → Inserted cmp laws key allocated tree.root (root, s)
      → AddsKey key allocated tree (elim s [
        | success ↦ (success, record tree { root = root; num_el = tree.num_el + 1 })
        | failure ↦ (failure, tree)
      ])
  avl_insert_result laws key allocated tree v root success i =
      let (ks, n) = i.added refl in
      record {
        valid = record {
          ordered = rw ks (ordered_insert-IsAscending cmp laws key (keys tree.root) v.ordered);
          balanced = i.avl;
          counted = let counted = v.counted in omega arith;
        };
        added = λ e. (ks, refl);
        kept = λ e. cc;
      }
  avl_insert_result laws key allocated tree v root failure i = record {
    valid = v;
    added = λ e. cc;
    kept = λ e. let (old, why) = i.kept e in (refl, why);
  }

  -- For a total preorder and a valid tree, avl_insert returns without touching a null pointer and
  -- leaves a valid tree. If it returns 0, the keys are the old ones with the new key in its place and
  -- num_el is one more; if it returns -1, the tree is unchanged, and there was no memory or the key
  -- was there.
  pub avl_insert-AddsKey :
      IsCmp cmp
      → (key : A) (allocated : Bool) (tree : AvlTree A) → IsValid tree
      → Returns (AddsKey key allocated tree) (avl_insert cmp allocated tree key)
  unfolding avl_insert
  avl_insert-AddsKey laws key allocated tree v =
      Returns-bind _ _ (insert-Inserted cmp laws key allocated tree.root v.balanced v.ordered)
        λ (root, s) i. returns (avl_insert_result laws key allocated tree v root s i)
