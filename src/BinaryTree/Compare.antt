-- ===== src/BinaryTree/Compare.antt =====
-- bt_compare decides whether two trees have one shape and equal data.
use vlib.Base.{◌≡◌, refl, ◌↔◌, true, arith}
use vlib.Cmp.{CmpFn, is_zero}
use vlib.BinaryTree.{BinaryNode, null, branch, BinaryTree, binary_node_compare, bt_compare}
use vlib.BinaryTree.Walks.{size}

module _ {ℓ} {A : Type ℓ} (fn : CmpFn A) where
  -- one shape, and data that compare equal at every node
  pub data Same : BinaryNode A → BinaryNode A → Type ℓ where
    both_null : Same null null
    both_branch :
        {l l' r r' : BinaryNode A} {x y : A}
        → is_zero (fn x y) ≡ true
        → Same l l'
        → Same r r'
        → Same (branch l x r) (branch l' y r')

  compare_sound : (a b : BinaryNode A) → binary_node_compare fn a b ≡ true → Same a b
  unfolding binary_node_compare
  compare_sound null null h = both_null
  compare_sound null (branch l x r) h = cc
  compare_sound (branch l x r) null h = cc
  compare_sound (branch l x r) (branch l' y r') h =
      both_branch (ground arith) (compare_sound l l' (ground arith))
        (compare_sound r r' (ground arith))

  compare_complete : {a b : BinaryNode A} → Same a b → binary_node_compare fn a b ≡ true
  unfolding binary_node_compare
  compare_complete both_null = refl
  compare_complete (both_branch e p q) = rw (e, compare_complete p, compare_complete q)

  Same-size : {a b : BinaryNode A} → Same a b → size a ≡ size b
  Same-size both_null = refl
  Same-size (both_branch e p q) = omega (arith, Same-size p, Same-size q)

  -- For trees whose num_el counts their nodes, bt_compare returns true exactly if the trees have one
  -- shape with data that compare equal at every node.
  pub bt_compare-iff_Same :
      (a b : BinaryTree A)
      → a.num_el ≡ size a.root
      → b.num_el ≡ size b.root
      → (bt_compare fn a b ≡ true) ↔ Same a.root b.root
  unfolding bt_compare
  bt_compare-iff_Same a b p q = (
    λ h. compare_sound a.root b.root (ground arith),
    λ s. ground (arith, Same-size s, compare_complete s),
  )
