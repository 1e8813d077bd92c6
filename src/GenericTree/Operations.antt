-- ===== src/GenericTree/Operations.antt =====
-- src/tree.c: the operations of the tree. Insertion and deletion behind the search are the same code
-- for both searches.
use vlib.Base.{
  ℕ, suc, ◌+◌, ◌-◌, ◌%◌, List, [], Option, none, some, Bool, true, false, Run, ok, fault, ◌>>=◌,
  Status, success, failure, word, ◌==◌, if◌then◌else◌,
}
use vlib.Cmp.{CmpFn}
use vlib.Heap.{Ptr, null, Heap, Malloc}
use vlib.Queue.{QNode, queue_new, queue_enque}
use vlib.GenericTree.{
  TreeNode, tree_node, Children, no_child, child, GenericTree, Slot, QTreeNode, parent_slot,
  node_at, change_at, tree_node_new, tree_node_insert, tree_node_delete, parent_of,
  depth_first_find_node, breadth_first_loop,
}

-- `num_el++` behind a success
abbrev pub count_if : Status → ℕ → ℕ
count_if success n = (n + 1) % word
count_if failure n = n

abbrev pub with_idx : Option Slot × ℕ → Option (Slot × ℕ)
with_idx (none, idx) = none
with_idx (some slot, idx) = some (slot, idx)

abbrev pub is_some {ℓ} : {B : Type ℓ} → Option B → Bool
is_some none = false
is_some (some b) = true

abbrev pub slot_of : Option (Slot × ℕ) → Option Slot
slot_of none = none
slot_of (some (slot, idx)) = some slot

module _ {ℓ} {A : Type ℓ} where
  -- the number of nodes
  unfoldable mutual
    pub size : TreeNode A → ℕ
    size (tree_node a c p k ts) = suc (children_size ts)

    pub children_size : Children A → ℕ
    children_size no_child = 0
    children_size (child t ts) = size t + children_size ts

  -- without a parent's key: the new node is the root, if there is none yet; `num_el` stays
  unfoldable pub insert_root : Option Ptr → GenericTree A → A → Status × GenericTree A
  unfolding tree_node_new
  insert_root allocated tree key =
      let planted : Status × GenericTree A = elim (tree_node_new allocated key) [
        | none ↦ (failure, tree)
        | some node ↦ (success, record tree { root = some node })
      ] in
      elim tree.root [ some root ↦ (failure, tree) | none ↦ planted ]

  -- an insertion behind the search for the parent
  unfoldable pub insert_under :
      Option Ptr
      → (Ptr → Option Ptr)
      → GenericTree A
      → TreeNode A
      → A
      → Option Slot
      → Run (Status × GenericTree A)
  unfolding tree_node_new tree_node_insert change_at
  insert_under allocated realloc tree root key none = ok (failure, tree)
  insert_under allocated realloc tree root key (some slot) = elim (tree_node_new allocated key) [
    | none ↦ ok (failure, tree)
    | some node ↦ change_at (tree_node_insert realloc node) root slot >>= λ (res, r).
        ok (res, record tree { num_el = count_if res tree.num_el; root = some r })
  ]

  -- a deletion behind the search; the `parent` of the root is null, and tree_node_delete reads its
  -- length before it tests the pointer
  unfoldable pub delete_found :
      Bool → GenericTree A → TreeNode A → Option (Slot × ℕ) → Run (Status × GenericTree A × List A)
  unfolding node_at change_at tree_node_delete
  delete_found free_fn tree root none = ok (failure, tree, [])
  delete_found free_fn tree root (some (slot, idx)) = node_at root slot >>= λ node.
      (let inner = change_at (tree_node_delete idx) root (parent_slot slot) in
        if parent_of node == null then fault else inner)
      >>= λ (freed, r). ok (
        success,
        record tree { num_el = (tree.num_el + word - 1) % word; root = some r },
        if free_fn then freed else [],
      )

module _ {ℓ} {A : Type ℓ} (fn : CmpFn A) where
  unfoldable pub tree_depth_first_find : GenericTree A → A → Bool
  unfolding depth_first_find_node
  tree_depth_first_find tree key = elim tree.root [
    | none ↦ false
    | some root ↦ is_some (depth_first_find_node fn key root 0).0
  ]

  -- `par_key` is a null pointer if `none`. The root is read without a test.
  unfoldable pub tree_depth_first_insert :
      Option Ptr → (Ptr → Option Ptr) → GenericTree A → A → Option A → Run (Status × GenericTree A)
  unfolding insert_root insert_under depth_first_find_node
  tree_depth_first_insert allocated realloc tree key none = ok (insert_root allocated tree key)
  tree_depth_first_insert allocated realloc tree key (some par_key) = elim tree.root [
    | none ↦ fault
    | some root ↦
        insert_under allocated realloc tree root key (depth_first_find_node fn par_key root 0).0
  ]

  -- the last result are the keys that the free function was called on
  unfoldable pub tree_depth_first_delete :
      Bool → GenericTree A → A → Run (Status × GenericTree A × List A)
  unfolding delete_found depth_first_find_node
  tree_depth_first_delete free_fn tree key = elim tree.root [
    | none ↦ ok (failure, tree, [])
    | some root ↦ delete_found free_fn tree root (with_idx (depth_first_find_node fn key root 0))
  ]

  module _ (malloc : Malloc (QNode (QTreeNode A))) (heap : Heap (QNode (QTreeNode A))) where
    unfoldable pub breadth_first_find_node : A → TreeNode A → Run (Option (Slot × ℕ))
    unfolding breadth_first_loop size
    breadth_first_find_node key root =
        queue_enque malloc (queue_new heap 16) (record { slot = []; idx = 0; node = root })
        >>= λ (s, q). breadth_first_loop fn key malloc (suc (size root)) q

    unfoldable pub tree_breadth_first_find : GenericTree A → A → Run Bool
    unfolding breadth_first_find_node
    tree_breadth_first_find tree key = elim tree.root [
      | none ↦ ok false
      | some root ↦ breadth_first_find_node key root >>= λ r. ok (is_some r)
    ]

    unfoldable pub tree_breadth_first_insert :
        Option Ptr
        → (Ptr → Option Ptr)
        → GenericTree A
        → A
        → Option A
        → Run (Status × GenericTree A)
    unfolding insert_root insert_under breadth_first_find_node
    tree_breadth_first_insert allocated realloc tree key none = ok (insert_root allocated tree key)
    tree_breadth_first_insert allocated realloc tree key (some par_key) = elim tree.root [
      | none ↦ fault
      | some root ↦ breadth_first_find_node par_key root >>= λ r.
          insert_under allocated realloc tree root key (slot_of r)
    ]

    unfoldable pub tree_breadth_first_delete :
        Bool → GenericTree A → A → Run (Status × GenericTree A × List A)
    unfolding delete_found breadth_first_find_node
    tree_breadth_first_delete free_fn tree key = elim tree.root [
      | none ↦ ok (failure, tree, [])
      | some root ↦ breadth_first_find_node key root >>= delete_found free_fn tree root
    ]
