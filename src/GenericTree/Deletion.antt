-- ===== src/GenericTree/Deletion.antt =====
-- The deletion behind a search: what it does to the keys, the places and the links of the tree, and
-- what it frees.
use mathlib.Core.Path.{subst}
use vlib.Base.{
  ℕ, ◌+◌, ◌-◌, ◌%◌, ◌++◌, ◌≡◌, refl, sym, ap, ◌∙◌, List, [], ◌∷◌, Option, none, some, Perm, ok,
  Returns, returns, Returns-bind, Status, success, failure, ◌==◌, arith, if◌then◌else◌, true, false,
  Bool, word,
}
use vlib.Heap.{null}
use vlib.GenericTree.{
  TreeNode, tree_node, GenericTree, Slot, node_at, parent_of, parent_slot, tree_node_delete,
}
use vlib.GenericTree.Operations.{delete_found}
use vlib.GenericTree.Slots.{keys, IsLinked, IsRoomy, node_at-IsRoomy, change_at-Replaces}
use vlib.GenericTree.Parents.{Frees, tree_node_delete-Deleted, parent_slot-parent, node_at-IsLinked}
use vlib.GenericTree.Depth.{key_of, occurs, last_index}
use vlib.GenericTree.Changes.{Located}

module _ {ℓ} {A : Type ℓ} where
  -- what the free function is called on, if there is one: the keys of the node and of all nodes below
  -- it, its own at the end
  abbrev pub Freed : Bool → TreeNode A → List A → Type ℓ
  Freed true n freed =
      (below : List A) × (freed ≡ below ++ key_of n ∷ []) × Perm (key_of n ∷ below) (keys n)
  Freed false n freed = (freed ≡ []) × Unit {ℓ}

  free-Freed :
      (free_fn : Bool) (n : TreeNode A) (freed : List A)
      → Frees n freed
      → Freed free_fn n (if free_fn then freed else [])
  free-Freed true n freed h = h
  free-Freed false n freed h = (refl, tt)

module _ {ℓ} {A : Type ℓ} (test : A → Bool) (root : TreeNode A) where
  module _ (m : ℕ) (free_fn : Bool) (tree : GenericTree A) where
    -- The outcome of a deletion: a node that passes the test is taken out with all that is below it,
    -- and the free function is called on the keys there; or nothing, as there is no such node.
    abbrev pub Deletes : Status × GenericTree A × List A → Type ℓ
    Deletes (success, tree', freed) =
        (root' : TreeNode A) × (tree'.root ≡ some root')
        × (tree'.num_el ≡ (tree.num_el + word - 1) % word)
        × (slot : Slot) × (n : TreeNode A) × (node_at root slot ≡ ok n)
        × (test (key_of n) ≡ true)
        × Freed free_fn n freed
        × Perm (keys n ++ keys root') (keys root)
        × IsLinked root'
        × IsRoomy m root'
    Deletes (failure, tree', freed) = (tree' ≡ tree) × (freed ≡ []) × (occurs test root ≡ false)

    pub delete_found-Deletes :
        (found : Option (Slot × ℕ))
        → IsLinked root
        → IsRoomy m root
        → test (key_of root) ≡ false
        → Located test root found
        → Returns Deletes (delete_found free_fn tree root found)
    unfolding delete_found node_at
    delete_found-Deletes none linked rooms other (absent, u) = returns (refl, refl, absent)
    delete_found-Deletes (some ([], idx)) linked rooms other (n, at, hit, index) =
        let same : root ≡ n = cc in cc
    delete_found-Deletes (some (i ∷ path, idx)) linked rooms other (n, at, hit, index) =
        let (a, c, p, k, ts, at_par, below) = parent_slot-parent root n i path at in
        let par = tree_node a c p k ts in
        let (nonnull, ((freed, par'), e, (frees, swapped, linked', rooms', kept))) =
          tree_node_delete-Deleted m par n (last_index i path) below
            (node_at-IsLinked root par (parent_slot (i ∷ path)) at_par linked)
            (node_at-IsRoomy m root par (parent_slot (i ∷ path)) at_par rooms) in
        let inner_node : (parent_of n == null) ≡ false = ground arith in
        let here : tree_node_delete idx par ≡ ok (freed, par') =
          ap (λ m. tree_node_delete m par) index ∙ e in
        rw (at, inner_node)
          (Returns-bind _ _
            (change_at-Replaces (tree_node_delete idx) par par' freed here root
              (parent_slot (i ∷ path)) at_par)
            λ (out, r) (same_out, h). returns (
              r,
              refl,
              refl,
              i ∷ path,
              n,
              at,
              hit,
              subst (λ z. Freed free_fn n (if free_fn then z else [])) (sym same_out)
                  (free-Freed free_fn n freed frees),
              h.swaps (keys n) [] swapped,
              h.links kept linked' linked,
              h.rooms m rooms' rooms,
            ))
