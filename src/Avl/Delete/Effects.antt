-- ===== src/Avl/Delete/Effects.antt =====
-- avl_delete on a whole tree: the keys that are left.
use vlib.Base.{◌≡◌, List, [], ◌∷◌, Returns, returns, Returns-bind, arith, failure}
use vlib.Cmp.{CmpFn, IsCmp, sign, less, same, more}
use vlib.Avl.{AvlTree}
use vlib.Avl.Shape.{keys, IsAvl, IsAscending, IsBefore, ordered_delete}
use vlib.Avl.Delete.{avl_delete}
use vlib.Avl.Delete.Removes.{delete_node-Deleted}

module _ {ℓ} {A : Type ℓ} (cmp : CmpFn A) where
  IsBefore-ordered_delete :
      (laws : IsCmp cmp) (x key : A) (xs : List A)
      → IsAscending cmp xs
      → IsBefore cmp x xs
      → IsBefore cmp x (ordered_delete cmp key xs)
  unfolding ordered_delete
  IsBefore-ordered_delete laws x key [] a h = tt
  IsBefore-ordered_delete laws x key (y ∷ xs) (b, a) (e, h) =
      ground (arith, IsBefore-ordered_delete laws x key xs a h)

  ordered_delete-IsAscending :
      IsCmp cmp
      → (key : A) (xs : List A) → IsAscending cmp xs
      → IsAscending cmp (ordered_delete cmp key xs)
  unfolding ordered_delete
  ordered_delete-IsAscending laws key [] h = tt
  ordered_delete-IsAscending laws key (x ∷ xs) (b, h) = elim (sign (cmp key x)) [
    | less e ↦ rw (e, IsAscending) (b, h)
    | same e ↦ rw (e, IsAscending) h
    | more e ↦
        rw (e, IsAscending)
          (IsBefore-ordered_delete laws x key xs h b, ordered_delete-IsAscending laws key xs h)
  ]

  -- an ordered and balanced tree, whatever its num_el
  abbrev pub IsSearchTree : AvlTree A → Type 0
  IsSearchTree tree = IsAscending cmp (keys tree.root) × IsAvl tree.root

  -- For a total preorder and a tree that is ordered and balanced, avl_delete returns without touching
  -- a null pointer, and leaves an ordered and balanced tree of the old keys without the given key; a
  -- key that is not there leaves the keys as they were.
  pub avl_delete-RemovesKey :
      IsCmp cmp
      → (tree : AvlTree A) (key : A) → IsSearchTree tree
      → Returns
          (λ (s, w, freed).
            IsSearchTree w × (keys w.root ≡ ordered_delete cmp key (keys tree.root)))
          (avl_delete cmp tree key)
  unfolding avl_delete
  avl_delete-RemovesKey laws tree key (asc, avl) =
      Returns-bind _ _ (delete_node-Deleted cmp laws failure key tree.root avl asc)
        λ (root, done, freed) i. returns (
          (rw i.removed (ordered_delete-IsAscending laws key (keys tree.root) asc), i.avl),
          i.removed,
        )
