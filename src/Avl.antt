-- ===== src/Avl.antt =====
-- src/avl_tree.c: the AVL tree. Nodes are not shared, so that a tree of nodes is a value; a null
-- pointer is `nil`. `height` and `get_balance` are of type ssize_t: a test of the difference of two
-- heights is written as a comparison of sums.
pub mod Shape
pub mod Rebalance
pub mod Insert
pub mod Delete
pub mod Walks
use Prim.Native.Nat.{max}
use vlib.Base.{
  ℕ, ◌+◌, Bool, false, Ordering, Run, ok, fault, ◌>>=◌, Status, success, failure, ltb,
  if◌then◌else◌,
}
use vlib.Cmp.{CmpFn, is_neg, is_pos}

-- `b && m`
abbrev pub and_then : Bool → Run Bool → Run Bool
and_then b m = if b then m else ok false

pub data Tree {ℓ} (A : Type ℓ) : Type ℓ where
  nil : Tree A
  node : ℕ → Tree A → A → Tree A → Tree A

pub record AvlTree {ℓ} (A : Type ℓ) : Type ℓ where
  pub key_size : ℕ
  pub num_el : ℕ
  pub root : Tree A

module _ {ℓ} {A : Type ℓ} where
  unfoldable pub avl_tree_new : ℕ → AvlTree A
  avl_tree_new key_size = record { key_size = key_size; num_el = 0; root = nil }

  abbrev pub height : Tree A → ℕ
  height nil = 0
  height (node h l k r) = h

  -- `max(height(left), height(right)) + 1`
  abbrev pub height_over : Tree A → Tree A → ℕ
  height_over l r = max (height l) (height r) + 1

  -- `balance > 1` and `balance < -1`
  abbrev pub is_left_heavy : Tree A → Tree A → Bool
  is_left_heavy l r = ltb (height r + 1) (height l)

  abbrev pub is_right_heavy : Tree A → Tree A → Bool
  is_right_heavy l r = ltb (height l + 1) (height r)

  -- `node->key`
  unfoldable pub key_of : Tree A → Run A
  key_of nil = fault
  key_of (node h l k r) = ok k

  unfoldable pub right_rotate : Tree A → Run (Tree A)
  right_rotate (node hy (node hx a x t2) y c) =
      let y' = node (height_over t2 c) t2 y c in ok (node (height_over a y') a x y')
  right_rotate _ = fault

  unfoldable pub left_rotate : Tree A → Run (Tree A)
  left_rotate (node hx a x (node hy t2 y c)) =
      let x' = node (height_over a t2) a x t2 in ok (node (height_over x' c) x' y c)
  left_rotate _ = fault

  -- `root->left = left_rotate(root->left); return right_rotate(root)`, and its mirror image
  abbrev pub left_right : ℕ → Tree A → A → Tree A → Run (Tree A)
  left_right h l k r = left_rotate l >>= λ l'. right_rotate (node h l' k r)

  abbrev pub right_left : ℕ → Tree A → A → Tree A → Run (Tree A)
  right_left h l k r = right_rotate r >>= λ r'. left_rotate (node h l k r')

  module _ (fn : CmpFn A) (key : A) where
    -- the part of insert behind the recursive call, on `root` with its new subtrees
    unfoldable pub insert_rebalance : Tree A → A → Tree A → Run (Tree A)
    unfolding key_of right_rotate left_rotate
    insert_rebalance l k r = do
      let h = height_over l r
      let root = node h l k r
      ll ← and_then (is_left_heavy l r) (key_of l >>= λ lk. ok (is_neg (fn key lk)))
      rr ← and_then (is_right_heavy l r) (key_of r >>= λ rk. ok (is_pos (fn key rk)))
      lr ← and_then (is_left_heavy l r) (key_of l >>= λ lk. ok (is_pos (fn key lk)))
      rl ← and_then (is_right_heavy l r) (key_of r >>= λ rk. ok (is_neg (fn key rk)))
      if ll
          then right_rotate root
          else if rr
          then left_rotate root
          else if lr
          then left_right h l k r
          else if rl
          then right_left h l k r
          else ok root

    -- `allocated` tells whether `malloc` gives a node; `*success` is the second result
    unfoldable pub insert : Bool → Tree A → Run (Tree A × Status)
    insert allocated nil = ok (if allocated then (node 1 nil key nil, success) else (nil, failure))
    insert allocated (node h l k r) =
        let left = insert allocated l >>= λ (l', s). insert_rebalance l' k r >>= λ t. ok (t, s) in
        let right = insert allocated r >>= λ (r', s). insert_rebalance l k r' >>= λ t. ok (t, s) in
        elim (fn key k) [
          | Ordering.lt ↦ left
          | Ordering.gt ↦ right
          | Ordering.eq ↦ ok (node h l k r, failure)
        ]

  -- A failed insertion leaves the root pointer; the nodes below it are then those of before
  -- (`Insert.insert-Inserts`).
  unfoldable pub avl_insert : CmpFn A → Bool → AvlTree A → A → Run (Status × AvlTree A)
  unfolding insert insert_rebalance
  avl_insert fn allocated tree key = do
    (root, s) ← insert fn key allocated tree.root
    ok (elim s [
      | success ↦ (success, record tree { root = root; num_el = tree.num_el + 1 })
      | failure ↦ (failure, tree)
    ])
