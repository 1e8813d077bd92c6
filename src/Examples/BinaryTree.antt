-- ===== src/Examples/BinaryTree.antt =====
-- Runs of the binary tree.
use vlib.Base.{ℕ, ◌≡◌, refl, true, ◌↔◌, Returns, arith}
use vlib.BinaryTree.{null, branch, BinaryTree, bt_pre_order, bt_in_order, bt_post_order, bt_compare}
use vlib.BinaryTree.Walks.{Lists, pre_order, in_order, post_order, bt_walks-Lists}
use vlib.BinaryTree.Compare.{Same, bt_compare-iff_Same}
use vlib.Examples.Numbers.{nat_cmp}

abbrev three : BinaryTree ℕ
three = record {
  num_el = 3;
  data_size = 8;
  root = branch (branch null 1 null) 2 (branch null 3 null);
}

abbrev single : BinaryTree ℕ
single = record { num_el = 1; data_size = 8; root = branch null 1 null }

bt_walks-Lists_example :
    Returns (Lists 0 true 3 (pre_order three.root)) (bt_pre_order 0 true three)
    × Returns (Lists 0 true 3 (in_order three.root)) (bt_in_order 0 true three)
    × Returns (Lists 0 true 3 (post_order three.root)) (bt_post_order 0 true three)
bt_walks-Lists_example = bt_walks-Lists 0 true three refl (omega arith)

bt_compare-iff_Same_example :
    (bt_compare nat_cmp three three ≡ true) ↔ Same nat_cmp three.root three.root
bt_compare-iff_Same_example = bt_compare-iff_Same nat_cmp three three refl refl
