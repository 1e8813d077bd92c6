-- ===== src/Avl/Delete.antt =====
-- src/avl_tree.c: avl_delete. The keys handed to the free function are the last result.
pub mod Restore
pub mod Removes
pub mod Effects
pub mod Reports
use vlib.Base.{
  ◌+◌, ◌%◌, word, ℕ, ◌-◌, List, [], ◌∷◌, Bool, true, not, ◌&&◌, Ordering, Run, ok, fault, ◌>>=◌,
  Status, success, failure, leb, if◌then◌else◌,
}
use vlib.Cmp.{CmpFn}
use vlib.Avl.{
  Tree, nil, node, height, height_over, is_left_heavy, is_right_heavy, right_rotate, left_rotate,
  left_right, right_left, AvlTree,
}

module _ {ℓ} {A : Type ℓ} where
  -- `get_balance(node) >= 0` and `get_balance(node) <= 0`
  abbrev pub leans_left : Tree A → Bool
  leans_left nil = true
  leans_left (node h l k r) = leb (height r) (height l)

  abbrev pub leans_right : Tree A → Bool
  leans_right nil = true
  leans_right (node h l k r) = leb (height l) (height r)

  -- the part of delete_node behind `root == NULL`, on `root` with its new subtrees
  unfoldable pub delete_rebalance : Tree A → A → Tree A → Run (Tree A)
  unfolding right_rotate left_rotate
  delete_rebalance l k r =
      let h = height_over l r in
      let root = node h l k r in
      if is_left_heavy l r && leans_left l
      then right_rotate root
      else if is_left_heavy l r && not (leans_left l)
      then left_right h l k r
      else if is_right_heavy l r && leans_right r
      then left_rotate root
      else if is_right_heavy l r && not (leans_right r)
      then right_left h l k r
      else ok root

  -- the key of the node
  unfoldable pub min_value_node : Tree A → Run A
  min_value_node nil = fault
  min_value_node (node h nil k r) = ok k
  min_value_node (node h (node h' l x r') k r) = min_value_node (node h' l x r')

  -- The subtrees of the node with the key. A single child is copied over the node, and its key
  -- handed to the free function; a leaf is only unlinked. With two children, `from` deletes the least
  -- key of the right subtree, which has taken the place of the key.
  unfoldable pub delete_root :
      Status
      → Tree A
      → Tree A
      → (A → Run (Tree A × Status × List A))
      → Run (Tree A × Status × List A)
  unfolding delete_rebalance min_value_node
  delete_root s nil nil from = ok (nil, s, [])
  delete_root s nil (node h l k r) from = delete_rebalance l k r >>= λ t. ok (t, success, k ∷ [])
  delete_root s (node h l k r) nil from = delete_rebalance l k r >>= λ t. ok (t, success, k ∷ [])
  delete_root s (node h l k r) (node h' l' k' r') from = do
    tmp ← min_value_node (node h' l' k' r')
    (rest, done, freed) ← from tmp
    t ← delete_rebalance (node h l k r) tmp rest
    ok (t, done, freed)

  -- `s` is the `*success` that the call finds, and the second result the one it leaves
  unfoldable pub delete_node : CmpFn A → Status → A → Tree A → Run (Tree A × Status × List A)
  unfolding delete_rebalance delete_root
  delete_node fn s key nil = ok (nil, s, [])
  delete_node fn s key (node h l k r) =
      let left = delete_node fn s key l >>= λ (l', done, freed).
      delete_rebalance l' k r >>= λ t. ok (t, done, freed) in
      let right = delete_node fn s key r >>= λ (r', done, freed).
      delete_rebalance l k r' >>= λ t. ok (t, done, freed) in
      let here = delete_root s l r (λ tmp. delete_node fn s tmp r) in
      elim (fn key k) [ Ordering.lt ↦ left | Ordering.gt ↦ right | Ordering.eq ↦ here ]

  unfoldable pub avl_delete : CmpFn A → AvlTree A → A → Run (Status × AvlTree A × List A)
  unfolding delete_node
  avl_delete fn tree key = do
    (root, done, freed) ← delete_node fn failure key tree.root
    let num_el : ℕ = elim done [ success ↦ (tree.num_el + word - 1) % word | failure ↦ tree.num_el ]
    ok (done, record tree { root = root; num_el = num_el }, freed)
