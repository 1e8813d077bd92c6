-- ===== src/GenericTree/Parents.antt =====
-- The parent of a node in a linked tree, and the removal of a child.
use mathlib.Core.Path.{subst, ap}
use mathlib.Core.List.Perm
use mathlib.Core.List.{perm_middle}
use vlib.Base.{
  ℕ, zero, suc, ◌++◌, ◌≡◌, ◌≢◌, refl, sym, ◌∙◌, List, [], ◌∷◌, Perm, ok, Returns, returns,
  Returns-bind, ◌==◌, arith, true,
}
use vlib.Heap.{Ptr, null}
use vlib.GenericTree.{
  TreeNode, tree_node, Children, no_child, child, Slot, node_at, child_at, parent_of, parent_slot,
  tree_node_free, children_free, len_of, tree_node_delete, remove_child,
}
use vlib.GenericTree.Slots.{
  keys, children_keys, IsLinked, AreLinked, IsRoomy, AreRoomy, child_at-append, perm_shift,
  children_free-perm,
}
use vlib.GenericTree.Depth.{last_index, key_of}

module _ {ℓ} {A : Type ℓ} where
  mutual
    unfolding node_at IsLinked

    pub node_at-IsLinked :
        (t n : TreeNode A) (path : Slot) → node_at t path ≡ ok n → IsLinked t → IsLinked n
    node_at-IsLinked t n [] e h = let same : t ≡ n = cc in subst IsLinked same h
    node_at-IsLinked (tree_node a c p k ts) n (i ∷ path) e (na, h) =
        child_at-IsLinked a ts n i path e h

    child_at-IsLinked :
        (a : Ptr) (ts : Children A) (n : TreeNode A) (i : ℕ) (path : Slot)
        → child_at ts i path ≡ ok n
        → AreLinked a ts
        → IsLinked n
    child_at-IsLinked a no_child n i path e h = cc
    child_at-IsLinked a (child u ts) n zero path e (pu, h, hs) = node_at-IsLinked u n path e h
    child_at-IsLinked a (child u ts) n (suc i) path e (pu, h, hs) =
        child_at-IsLinked a ts n i path e hs

  child_at-split :
      (ts : Children A) (n : TreeNode A) (i : ℕ) (path : Slot)
      → child_at ts i path ≡ ok n
      → (u : TreeNode A) × (child_at ts i [] ≡ ok u) × (node_at u path ≡ ok n)
  unfolding node_at
  child_at-split no_child n i path e = cc
  child_at-split (child u ts) n zero path e = (u, refl, e)
  child_at-split (child u ts) n (suc i) path e = child_at-split ts n i path e

  -- the parent of the node in a slot below the root
  pub parent_slot-parent :
      (t n : TreeNode A) (i : ℕ) (path : Slot)
      → node_at t (i ∷ path) ≡ ok n
      → (a c p : ℕ) × (k : A) × (ts : Children A) × (node_at t (parent_slot (i ∷ path))
          ≡ ok (tree_node a c p k ts))
        × (child_at ts (last_index i path) [] ≡ ok n)
  unfolding node_at
  parent_slot-parent (tree_node a c p k ts) n i [] e = (a, c, p, k, ts, refl, e)
  parent_slot-parent (tree_node a c p k ts) n i (j ∷ path) e =
      let (u, at, below) = child_at-split ts n i (j ∷ path) e in
      let (a', c', p', k', us, par, last) = parent_slot-parent u n j path below in
      (a', c', p', k', us, child_at-append ts u i [] (parent_slot (j ∷ path)) at ∙ par, last)

  -- the children `us` are `ts` without `n`
  abbrev pub Loses : ℕ → Ptr → TreeNode A → Children A → TreeNode A × Children A → Type ℓ
  Loses m a n ts (u, us) =
      (u ≡ n)
      × Perm (keys n ++ children_keys us) (children_keys ts)
      × AreLinked a us
      × (parent_of n ≡ a)
      × (len_of ts ≡ suc (len_of us))
      × AreRoomy m us

  pub remove_child-Loses :
      (m : ℕ) (a : Ptr) (ts : Children A) (n : TreeNode A) (i : ℕ)
      → child_at ts i [] ≡ ok n
      → AreLinked a ts
      → AreRoomy m ts
      → Returns (Loses m a n ts) (remove_child ts i)
  unfolding remove_child node_at keys IsLinked IsRoomy
  remove_child-Loses m a no_child n i e h rooms = cc
  remove_child-Loses m a (child t ts) n zero e (pt, ht, hs) (rt, rs) =
      let same : t ≡ n = cc in
      subst (λ z. Returns (Loses m a z (child t ts)) (ok (t, ts))) same
        (returns (refl, Perm.rfl, hs, pt, refl, rs))
  remove_child-Loses m a (child t ts) n (suc i) e (pt, ht, hs) (rt, rs) =
      Returns-bind _ _ (remove_child-Loses m a ts n i e hs rs) λ (u, us) (same, e, hu, pn, len, ru).
        returns (
          same,
          Perm.trans (perm_shift (keys n) (keys t) (children_keys us))
              (Perm.append_left (keys t) e),
          (pt, ht, hu),
          pn,
          ap suc len,
          (rt, ru),
        )

  -- the keys that are freed are those of the node and of all nodes below it, its own at the end
  abbrev pub Frees : TreeNode A → List A → Type ℓ
  Frees n freed =
      (below : List A) × (freed ≡ below ++ key_of n ∷ []) × Perm (key_of n ∷ below) (keys n)

  tree_node_free-Frees : (n : TreeNode A) → Frees n (tree_node_free n)
  unfolding tree_node_free keys
  tree_node_free-Frees (tree_node a c p k ts) =
      (children_free ts, refl, Perm.cons k (children_free-perm ts))

  -- tree_node_delete on the parent takes the node out and frees it
  abbrev pub Deleted : ℕ → TreeNode A → TreeNode A → List A × TreeNode A → Type ℓ
  Deleted m n par (freed, par') =
      Frees n freed
      × Perm (keys n ++ keys par') (keys par)
      × IsLinked par'
      × IsRoomy m par'
      × (parent_of par' ≡ parent_of par)

  pub tree_node_delete-Deleted :
      (m : ℕ) (par n : TreeNode A) (i : ℕ)
      → node_at par (i ∷ []) ≡ ok n
      → IsLinked par
      → IsRoomy m par
      → (parent_of n ≢ null) × Returns (Deleted m n par) (tree_node_delete i par)
  unfolding tree_node_delete node_at IsLinked IsRoomy keys
  tree_node_delete-Deleted m (tree_node a c p k ts) n i at (na, h) (fits, few, rooms) =
      let ((u, us), e, (same, swapped, hu, pn, len, ru)) =
        remove_child-Loses m a ts n i at h rooms in
      let mine : (parent_of u == a) ≡ true = ground (arith, same, pn) in
      let below = perm_middle (keys n) (children_keys us) in
      (
        λ z. na (sym pn ∙ z),
        rw (e, mine)
            (returns (
              subst (λ z. Frees n (tree_node_free z)) (sym same) (tree_node_free-Frees n),
              Perm.trans below (Perm.cons k swapped),
              (na, hu),
              (omega arith, few, ru),
              refl,
            )),
      )
