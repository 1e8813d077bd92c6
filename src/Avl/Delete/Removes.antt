-- ===== src/Avl/Delete/Removes.antt =====
-- avl_delete takes the key out of the set of keys and keeps the tree ordered and balanced.
use mathlib.Core.List.{append-nil}
use vlib.Base.{
  ℕ, ◌+◌, ◌≤◌, ◌≡◌, refl, List, [], ◌∷◌, ◌++◌, Ordering, ok, Returns, returns, Returns-bind,
  Returns-map, arith, Status, ◌∙◌, ap, sym, ◌>>=◌,
}
use vlib.Cmp.{less, same, more, Le, CmpFn, IsCmp, cmp_self, sign, same}
use vlib.Avl.{Tree, nil, node, height, Run, success}
use vlib.Avl.Shape.{
  keys, IsAvl, IsBehind, ordered_delete, IsAscending, IsAscending-split, IsBehind-trans,
}
use vlib.Avl.Delete.{delete_rebalance, min_value_node, delete_root, delete_node}
use vlib.Avl.Delete.Restore.{delete_rebalance-Restored}

module _ {ℓ} {A : Type ℓ} (cmp : CmpFn A) where
  ordered_delete-lt :
      (key y : A) (xs ys : List A)
      → cmp key y ≡ Ordering.lt
      → ordered_delete cmp key (xs ++ y ∷ ys) ≡ ordered_delete cmp key xs ++ y ∷ ys
  unfolding ordered_delete
  ordered_delete-lt key y [] ys e = rw e
  ordered_delete-lt key y (x ∷ xs) ys e = ground (arith, ordered_delete-lt key y xs ys e)

  ordered_delete-behind :
      (key : A) (xs ys : List A)
      → IsBehind cmp key xs
      → ordered_delete cmp key (xs ++ ys) ≡ xs ++ ordered_delete cmp key ys
  unfolding ordered_delete
  ordered_delete-behind key [] ys h = refl
  ordered_delete-behind key (x ∷ xs) ys (e, h) = ground (arith, ordered_delete-behind key xs ys h)

  -- the least key is the first
  pub min_value_node-first :
      (h : ℕ) (l : Tree A) (k : A) (r : Tree A)
      → Returns
          (λ m. (rest : List A) × (keys (node h l k r) ≡ m ∷ rest))
          (min_value_node (node h l k r))
  unfolding min_value_node keys
  min_value_node-first h nil k r = returns (keys r, refl)
  min_value_node-first h (node h' a x b) k r =
      Returns-map _ (min_value_node-first h' a x b)
        λ m (rest, e). (rest ++ k ∷ keys r, ap (λ xs. xs ++ k ∷ keys r) e)

  -- what delete_node makes of a balanced, ordered tree
  pub record Deleted (key : A) (t : Tree A) (r : Tree A × Status × List A) : Type ℓ where
    pub avl : IsAvl r.0
    low : height t ≤ height r.0 + 1
    high : height r.0 ≤ height t
    pub removed : keys r.0 ≡ ordered_delete cmp key (keys t)

  module _ (key : A) (h : ℕ) (l : Tree A) (k : A) (r : Tree A) (avl : IsAvl (node h l k r)) where
    delete_less :
        (l' : Tree A) (s : Status) (freed : List A)
        → cmp key k ≡ Ordering.lt
        → Deleted key l (l', s, freed)
        → Returns (Deleted key (node h l k r)) (delete_rebalance l' k r >>= λ t. ok (t, s, freed))
    unfolding keys
    delete_less l' s freed lt i =
        let (al, ar, top, p, q) = avl in
        let low = i.low in
        let high = i.high in
        Returns-bind _ _ (delete_rebalance-Restored l' k r i.avl ar (omega arith) (omega arith))
          λ t reb.
            let bottom = reb.low in
            let ceiling = reb.high in
            let even = reb.even in
            returns (record {
              avl = reb.avl;
              low = ground arith;
              high = ground arith;
              removed =
                  reb.same
                  ∙ ap (λ xs. xs ++ k ∷ keys r) i.removed
                  ∙ sym (ordered_delete-lt key k (keys l) (keys r) lt);
            })

    delete_more :
        (r' : Tree A) (s : Status) (freed : List A)
        → cmp key k ≡ Ordering.gt
        → IsBehind cmp key (keys l)
        → Deleted key r (r', s, freed)
        → Returns (Deleted key (node h l k r)) (delete_rebalance l k r' >>= λ t. ok (t, s, freed))
    unfolding keys ordered_delete
    delete_more r' s freed gt bl i =
        let (al, ar, top, p, q) = avl in
        let low = i.low in
        let high = i.high in
        let deleted : ordered_delete cmp key (keys l ++ k ∷ keys r)
            ≡ keys l ++ k ∷ ordered_delete cmp key (keys r) =
          ordered_delete-behind key (keys l) (k ∷ keys r) bl ∙ rw (gt, ordered_delete) in
        Returns-bind _ _ (delete_rebalance-Restored l k r' al i.avl (omega arith) (omega arith))
          λ t reb.
            let bottom = reb.low in
            let ceiling = reb.high in
            let even = reb.even in
            returns (record {
              avl = reb.avl;
              low = ground arith;
              high = ground arith;
              removed = reb.same ∙ ap (λ xs. keys l ++ k ∷ xs) i.removed ∙ sym deleted;
            })

    -- the key of the node itself is taken out
    gone :
        cmp key k ≡ Ordering.eq
        → IsBehind cmp key (keys l)
        → ordered_delete cmp key (keys (node h l k r)) ≡ keys l ++ keys r
    unfolding keys ordered_delete
    gone eq bl = ordered_delete-behind key (keys l) (k ∷ keys r) bl ∙ rw (eq, ordered_delete)

  only_child-Deleted :
      (key : A) (t : Tree A) (s : Status) (freed : List A) (h : ℕ) (l : Tree A) (k : A) (r : Tree A)
      → IsAvl (node h l k r)
      → height t ≡ h + 1
      → keys l ++ k ∷ keys r ≡ ordered_delete cmp key (keys t)
      → Returns (Deleted key t) (delete_rebalance l k r >>= λ u. ok (u, s, freed))
  only_child-Deleted key t s freed h l k r avl up e =
      let (al, ar, top, p, q) = avl in
      Returns-bind _ _ (delete_rebalance-Restored l k r al ar (omega arith) (omega arith)) λ u reb.
        let even = reb.even in
        returns (record {
          avl = reb.avl;
          low = ground arith;
          high = ground arith;
          removed = reb.same ∙ e;
        })

  module _ (laws : IsCmp cmp) where
    delete_root-Deleted :
        (key : A) (s : Status) (h : ℕ) (l : Tree A) (k : A) (r : Tree A)
        → IsAvl (node h l k r)
        → ordered_delete cmp key (keys (node h l k r)) ≡ keys l ++ keys r
        → (from : A → Run (Tree A × Status × List A))
        → ((m : A) (rest : List A) → keys r ≡ m ∷ rest → Returns (Deleted m r) (from m))
        → Returns (Deleted key (node h l k r)) (delete_root s l r from)
    unfolding delete_root keys ordered_delete
    delete_root-Deleted key s h nil k nil avl e from ih =
        returns (record { avl = tt; low = omega arith; high = omega arith; removed = sym e })
    delete_root-Deleted key s h nil k (node h' a x b) avl e from ih =
        only_child-Deleted key (node h nil k (node h' a x b)) success (x ∷ []) h' a x b avl.1
          (omega arith) (sym e)
    delete_root-Deleted key s h (node h' a x b) k nil avl e from ih =
        only_child-Deleted key (node h (node h' a x b) k nil) success (x ∷ []) h' a x b avl.0
          (omega arith) (sym (append-nil (keys a ++ x ∷ keys b)) ∙ sym e)
    delete_root-Deleted key s h (node h₁ a x b) k (node h₂ c y d) avl e from ih =
        let (al, ar, top, p, q) = avl in
        Returns-bind _ _ (min_value_node-first h₂ c y d) λ m (rest, first).
          Returns-bind _ _ (ih m rest first) λ (r', done, freed) i.
            let low = i.low in
            let high = i.high in
            let tail : ordered_delete cmp m (m ∷ rest) ≡ rest =
              rw (cmp_self cmp laws m, ordered_delete) in
            Returns-bind _ _
              (delete_rebalance-Restored (node h₁ a x b) m r' al i.avl (omega arith) (omega arith))
              λ t reb.
                let bottom = reb.low in
                let ceiling = reb.high in
                let even = reb.even in
                returns (record {
                  avl = reb.avl;
                  low = ground arith;
                  high = ground arith;
                  removed =
                      reb.same
                      ∙ ap (λ xs. keys (node h₁ a x b) ++ m ∷ xs)
                          (i.removed ∙ ap (ordered_delete cmp m) first ∙ tail)
                      ∙ ap (λ xs. keys (node h₁ a x b) ++ xs) (sym first)
                      ∙ sym e;
                })

    pub delete_node-Deleted :
        (s : Status) (key : A) (t : Tree A)
        → IsAvl t
        → IsAscending cmp (keys t)
        → Returns (Deleted key t) (delete_node cmp s key t)
    unfolding delete_node keys ordered_delete
    delete_node-Deleted s key nil avl asc =
        returns (record { avl = tt; low = omega arith; high = omega arith; removed = refl })
    delete_node-Deleted s key (node h l k r) avl asc =
        let (al, bl, br, ar) = IsAscending-split cmp laws k (keys l) (keys r) asc in
        let behind = λ (le : Le cmp k key). IsBehind-trans cmp laws key k (keys l) le bl in
        elim (sign (cmp key k)) [
          | same e ↦
              rw (e, delete_node)
                (delete_root-Deleted key s h l k r avl
                  (gone key h l k r avl e (behind (ground (arith, laws.exchange key k)))) _
                  λ m rest first. delete_node-Deleted s m r avl.1 ar)
          | less e ↦
              rw (e, delete_node)
                (Returns-bind _ _ (delete_node-Deleted s key l avl.0 al)
                  λ (l', done, freed) i. delete_less key h l k r avl l' done freed e i)
          | more e ↦
              rw (e, delete_node)
                (Returns-bind _ _ (delete_node-Deleted s key r avl.1 ar) λ (r', done, freed) i.
                  delete_more key h l k r avl r' done freed e
                    (behind (ground (arith, laws.exchange key k))) i)
        ]
