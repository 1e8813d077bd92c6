-- ===== src/BinaryTree.antt =====
-- src/binary_node.c, binary_tree.c, bt_pre_order.c, bt_in_order.c, bt_post_order.c, bt_compare.c:
-- the binary tree. Nodes are not shared, so that a tree of nodes is a value; `null` is the null
-- pointer.
pub mod Walks
pub mod Compare
pub mod Bfs
use vlib.Base.{
  ℕ, ◌+◌, List, [], ◌∷◌, ◌++◌, Option, none, some, Bool, true, false, ◌&&◌, Run, ok, ◌>>=◌, ◌==◌,
  if◌then◌else◌,
}
use vlib.Cmp.{CmpFn, is_zero}
use vlib.Vec.{Vec, vec_push, vec_new_with_capacity}

pub data BinaryNode {ℓ} (A : Type ℓ) : Type ℓ where
  null : BinaryNode A
  branch : BinaryNode A → A → BinaryNode A → BinaryNode A

pub record BinaryTree {ℓ} (A : Type ℓ) : Type ℓ where
  pub num_el : ℕ
  pub data_size : ℕ
  pub root : BinaryNode A

module _ {ℓ} {A : Type ℓ} where
  -- `malloc`, the zeroed links and the copied data
  unfoldable pub binary_node_new : Bool → A → BinaryNode A
  binary_node_new allocated x = if allocated then branch null x null else null

  -- the data handed to the free function, in order
  unfoldable pub free_walk : BinaryNode A → List A
  free_walk null = []
  free_walk (branch l x r) = free_walk l ++ (free_walk r ++ x ∷ [])

  unfoldable pub binary_tree_free : Bool → BinaryTree A → List A × ℕ
  unfolding free_walk
  binary_tree_free fn tree = (if fn then free_walk tree.root else [], 0)

  unfoldable pub binary_node_compare : CmpFn A → BinaryNode A → BinaryNode A → Bool
  binary_node_compare fn null null = true
  binary_node_compare fn null (branch l x r) = false
  binary_node_compare fn (branch l x r) null = false
  binary_node_compare fn (branch l x r) (branch l' y r') =
      if is_zero (fn x y) then binary_node_compare fn l l' && binary_node_compare fn r r' else false

  unfoldable pub bt_compare : CmpFn A → BinaryTree A → BinaryTree A → Bool
  unfolding binary_node_compare
  bt_compare fn a b = if a.num_el == b.num_el then binary_node_compare fn a.root b.root else false

-- The walks ignore the result of vec_push; `allocated` is the outcome of any realloc in it.
module _ {ℓ} {A : Type ℓ} (zeroed : A) (allocated : Bool) where
  unfoldable pub push : Vec A → A → Run (Vec A)
  push v x = vec_push zeroed allocated v x >>= λ (_, w). ok w

  unfoldable pub pre_order_walk : BinaryNode A → Vec A → Run (Vec A)
  unfolding push
  pre_order_walk null v = ok v
  pre_order_walk (branch l x r) v = push v x >>= λ u. pre_order_walk l u >>= λ w. pre_order_walk r w

  unfoldable pub in_order_walk : BinaryNode A → Vec A → Run (Vec A)
  unfolding push
  in_order_walk null v = ok v
  in_order_walk (branch l x r) v = in_order_walk l v >>= λ u. push u x >>= λ w. in_order_walk r w

  unfoldable pub post_order_walk : BinaryNode A → Vec A → Run (Vec A)
  unfolding push
  post_order_walk null v = ok v
  post_order_walk (branch l x r) v =
      post_order_walk l v >>= λ u. post_order_walk r u >>= λ w. push w x

  -- a new vector with room for `num_el` elements, handed to a walk
  unfoldable pub walked : (Vec A → Run (Vec A)) → ℕ → ℕ → Run (Option (Vec A))
  walked walk data_size num_el = elim (vec_new_with_capacity zeroed allocated data_size num_el) [
    | none ↦ ok none
    | some v ↦ walk v >>= λ w. ok (some w)
  ]

  unfoldable pub bt_pre_order : BinaryTree A → Run (Option (Vec A))
  unfolding walked pre_order_walk
  bt_pre_order tree = walked (pre_order_walk tree.root) tree.data_size tree.num_el

  unfoldable pub bt_in_order : BinaryTree A → Run (Option (Vec A))
  unfolding walked in_order_walk
  bt_in_order tree = walked (in_order_walk tree.root) tree.data_size tree.num_el

  unfoldable pub bt_post_order : BinaryTree A → Run (Option (Vec A))
  unfolding walked post_order_walk
  bt_post_order tree = walked (post_order_walk tree.root) tree.data_size tree.num_el
