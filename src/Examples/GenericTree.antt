-- ===== src/Examples/GenericTree.antt =====
-- Runs of the tree with any number of children, and the theorems about it at a tree of three nodes.
use vlib.Base.{
  ℕ, ◌≡◌, refl, List, [], ◌∷◌, Option, none, some, Bool, true, false, ok, fault, ◌>>=◌, Returns,
  arith, ◌+◌,
}
use vlib.Heap.{Ptr, null}
use vlib.Queue.{queue_new, queue_enque, queue_deque, queue_free}
use vlib.GenericTree.{TreeNode, tree_node, no_child, child, GenericTree, tree_new}
use vlib.GenericTree.Operations.{
  tree_depth_first_find, tree_depth_first_insert, tree_depth_first_delete, tree_breadth_first_find,
  tree_breadth_first_insert, tree_breadth_first_delete,
}
use vlib.GenericTree.Slots.{IsLinked, IsRoomy}
use vlib.GenericTree.Depth.{test}
use vlib.GenericTree.Breadth.{test_back}
use vlib.GenericTree.Changes.{Inserts, InsertsLinked}
use vlib.GenericTree.Deletion.{Deletes}
use vlib.GenericTree.Outcomes.{
  contains, tree_find-contains, tree_insert-Inserts, tree_insert-InsertsLinked, tree_delete-Deletes,
}
use vlib.Examples.Numbers.{nat_cmp}
use vlib.Examples.Malloc.{no_nodes, counting, counting-IsMalloc, counting-Grants}

abbrev top : TreeNode ℕ
top =
    tree_node 10 2 null 1
      (child (tree_node 20 2 10 2 (child (tree_node 30 0 20 3 no_child) no_child)) no_child)

abbrev three : GenericTree ℕ
three = record { num_el = 2; key_size = 8; root = some top }

abbrev in_place : Ptr → Option Ptr
in_place a = some a

-- realloc that moves every node
abbrev moving : Ptr → Option Ptr
moving a = some (a + 100)

top-IsLinked : IsLinked top
unfolding IsLinked
top-IsLinked = (ground arith, (refl, (ground arith, (refl, (ground arith, tt), tt)), tt))

top-IsRoomy : IsRoomy 2 top
unfolding IsRoomy
top-IsRoomy = (
  omega arith,
  omega arith,
  ((omega arith, omega arith, ((omega arith, omega arith, tt), tt)), tt),
)

-- the first insertion plants the root and does not count it
insert_run :
    (tree_depth_first_insert nat_cmp (some 10) in_place (tree_new 8) 1 none >>= λ (s, t).
    tree_depth_first_insert nat_cmp (some 20) in_place t 2 (some 1) >>= λ (s', u).
    tree_breadth_first_insert nat_cmp counting no_nodes (some 30) in_place u 3 (some 2)
    >>= λ (s'', w). ok (let out : ℕ × Option (TreeNode ℕ) = (w.num_el, w.root) in out))
    ≡ ok (2, some top)
unfolding tree_new tree_depth_first_insert tree_breadth_first_insert queue_new queue_enque
    queue_deque queue_free
insert_run = refl

delete_run :
    (tree_breadth_first_delete nat_cmp counting no_nodes true three 2 >>= λ (s, t, freed).
    ok (let out : ℕ × Bool × List ℕ = (t.num_el, tree_depth_first_find nat_cmp t 3, freed) in out))
    ≡ ok (1, false, 3 ∷ 2 ∷ [])
unfolding tree_breadth_first_delete tree_depth_first_find queue_new queue_enque queue_deque
    queue_free
delete_run = refl

-- a deletion of the root reads the length of a null pointer
delete_root_run : tree_depth_first_delete nat_cmp true three 1 ≡ fault
unfolding tree_depth_first_delete
delete_root_run = refl

-- an insertion under a key into an empty tree reads a null pointer
insert_empty_run :
    tree_depth_first_insert nat_cmp (some 10) in_place (tree_new 8) 1 (some 2) ≡ fault
unfolding tree_new tree_depth_first_insert
insert_empty_run = refl

-- when realloc moves a node that has children, a deletion below it goes by a stale pointer
stale_run :
    (tree_depth_first_insert nat_cmp (some 10) moving (tree_new 8) 1 none >>= λ (s, t).
    tree_depth_first_insert nat_cmp (some 20) moving t 2 (some 1) >>= λ (s, u).
    tree_depth_first_insert nat_cmp (some 30) moving u 3 (some 1) >>= λ (s, v).
    tree_depth_first_insert nat_cmp (some 40) moving v 4 (some 1) >>= λ (s, w).
    tree_depth_first_delete nat_cmp true w 2)
    ≡ fault
unfolding tree_new tree_depth_first_insert tree_depth_first_delete
stale_run = refl

tree_find-contains_example :
    (tree_depth_first_find nat_cmp three 3 ≡ contains (test nat_cmp 3) three)
    × (tree_breadth_first_find nat_cmp counting no_nodes three 3
        ≡ ok (contains (test_back nat_cmp 3) three))
tree_find-contains_example =
    tree_find-contains nat_cmp counting counting-IsMalloc counting-Grants no_nodes three 3

tree_insert-Inserts_example :
    Returns
      (Inserts (test nat_cmp 3) top 2 (some 40) moving 4 three)
      (tree_depth_first_insert nat_cmp (some 40) moving three 4 (some 3))
    × Returns
        (Inserts (test_back nat_cmp 3) top 2 (some 40) moving 4 three)
        (tree_breadth_first_insert nat_cmp counting no_nodes (some 40) moving three 4 (some 3))
tree_insert-Inserts_example =
    tree_insert-Inserts nat_cmp counting counting-IsMalloc counting-Grants no_nodes 2 three top
      (omega arith) refl top-IsRoomy (some 40) moving 4 3

tree_insert-InsertsLinked_example :
    Returns
      (InsertsLinked (test nat_cmp 3) top 2 (some 40) moving 4 three)
      (tree_depth_first_insert nat_cmp (some 40) moving three 4 (some 3))
    × Returns
        (InsertsLinked (test_back nat_cmp 3) top 2 (some 40) moving 4 three)
        (tree_breadth_first_insert nat_cmp counting no_nodes (some 40) moving three 4 (some 3))
tree_insert-InsertsLinked_example =
    tree_insert-InsertsLinked nat_cmp counting counting-IsMalloc counting-Grants no_nodes 2 three
      top (omega arith) refl top-IsRoomy (some 40) moving 4 3 (λ a b e. ground arith)
      (λ b e. ground arith) top-IsLinked

tree_delete-Deletes_example :
    Returns
      (Deletes (test nat_cmp 2) top 2 true three)
      (tree_depth_first_delete nat_cmp true three 2)
    × Returns
        (Deletes (test_back nat_cmp 2) top 2 true three)
        (tree_breadth_first_delete nat_cmp counting no_nodes true three 2)
tree_delete-Deletes_example =
    tree_delete-Deletes nat_cmp counting counting-IsMalloc counting-Grants no_nodes 2 true three top
      2 refl top-IsLinked top-IsRoomy refl refl
