-- ===== src/Examples/Avl.antt =====
-- Runs of the AVL tree.
use vlib.Base.{[], ◌∷◌, ℕ, ◌≡◌, refl, true, ok, Returns, success, failure, arith}
use vlib.Avl.{nil, node, AvlTree, avl_insert}
use vlib.Avl.Shape.{keys, ordered_delete}
use vlib.Avl.Delete.{avl_delete}
use vlib.Avl.Walks.{
  avl_in_order, avl_pre_order, avl_post_order, avl_tree_free, pre_keys, avl_walks-Lists,
}
use vlib.BinaryTree.Walks.{Lists}
use vlib.Avl.Delete.Effects.{IsSearchTree, avl_delete-RemovesKey}
use vlib.Avl.Delete.Reports.{report, replaced, sought, count_down, avl_delete-report}
use vlib.Avl.Insert.{IsValid, AddsKey, avl_insert-AddsKey}
use vlib.Examples.Numbers.{nat_cmp, nat_cmp-IsCmp}

abbrev pair : AvlTree ℕ
pair = record { key_size = 8; num_el = 2; root = node 2 nil 3 (node 1 nil 5 nil) }

pair-IsValid : IsValid nat_cmp pair
unfolding keys
pair-IsValid = record { ordered = ground arith; balanced = omega arith; counted = omega arith }

-- a single rotation to the left
insert_run :
    avl_insert nat_cmp true pair 8
    ≡ ok
        (success, record pair { num_el = 3; root = node 2 (node 1 nil 3 nil) 5 (node 1 nil 8 nil) })
unfolding avl_insert
insert_run = refl

-- a double rotation
insert_double_run :
    avl_insert nat_cmp true pair 4
    ≡ ok
        (success, record pair { num_el = 3; root = node 2 (node 1 nil 3 nil) 4 (node 1 nil 5 nil) })
unfolding avl_insert
insert_double_run = refl

insert_twice_run : avl_insert nat_cmp true pair 5 ≡ ok (failure, pair)
unfolding avl_insert
insert_twice_run = refl

avl_insert-AddsKey_example : Returns (AddsKey nat_cmp 4 true pair) (avl_insert nat_cmp true pair 4)
avl_insert-AddsKey_example = avl_insert-AddsKey nat_cmp nat_cmp-IsCmp 4 true pair pair-IsValid

-- the root has two children: the next key takes its place
delete_run :
    avl_delete nat_cmp
      (record { key_size = 8; num_el = 3; root = node 2 (node 1 nil 3 nil) 5 (node 1 nil 8 nil) })
      5
    ≡ ok (failure, record { key_size = 8; num_el = 3; root = node 2 (node 1 nil 3 nil) 8 nil }, [])
unfolding avl_delete
delete_run = refl

avl_delete-RemovesKey_example :
    Returns
      (λ (s, w, freed).
        IsSearchTree nat_cmp w × (keys w.root ≡ ordered_delete nat_cmp 3 (keys pair.root)))
      (avl_delete nat_cmp pair 3)
avl_delete-RemovesKey_example =
    avl_delete-RemovesKey nat_cmp nat_cmp-IsCmp pair 3 (pair-IsValid.ordered, pair-IsValid.balanced)

avl_delete-report_example :
    Returns
      (λ (s, w, freed).
        (keys w.root ≡ ordered_delete nat_cmp 3 (keys pair.root))
        × ((s, freed) ≡ report (replaced (sought nat_cmp 3 pair.root)))
        × (w.num_el ≡ count_down s 2))
      (avl_delete nat_cmp pair 3)
avl_delete-report_example =
    avl_delete-report nat_cmp nat_cmp-IsCmp pair 3 (pair-IsValid.ordered, pair-IsValid.balanced)

delete_leaf_run :
    avl_delete nat_cmp pair 5 ≡ ok (failure, record pair { root = node 1 nil 3 nil }, [])
unfolding avl_delete
delete_leaf_run = refl

delete_one_child_run :
    avl_delete nat_cmp pair 3
    ≡ ok (success, record pair { num_el = 1; root = node 1 nil 5 nil }, 5 ∷ [])
unfolding avl_delete
delete_one_child_run = refl

avl_walks-Lists_example :
    Returns (Lists 0 true 2 (keys pair.root)) (avl_in_order 0 true pair)
    × Returns (Lists 0 true 2 (pre_keys pair.root)) (avl_pre_order 0 true pair)
    × Returns (Lists 0 true 2 (avl_tree_free true pair).0) (avl_post_order 0 true pair)
avl_walks-Lists_example = avl_walks-Lists 0 true pair pair-IsValid.counted (omega arith)
