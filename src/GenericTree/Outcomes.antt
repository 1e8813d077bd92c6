-- ===== src/GenericTree/Outcomes.antt =====
-- src/tree.c: what the six operations of the tree do, whichever way they search.
use vlib.Base.{
  ◌*◌, ◌<◌, word, ℕ, ◌>>=◌, ◌≡◌, refl, sym, Option, none, some, Returns, Returns-map, false, Bool,
  ok, ◌≢◌,
}
use vlib.Cmp.{CmpFn}
use vlib.Heap.{Ptr, null, Heap, Malloc, IsMalloc, Grants}
use vlib.Queue.{QNode}
use vlib.GenericTree.{TreeNode, GenericTree, Slot, QTreeNode, depth_first_find_node}
use vlib.GenericTree.Operations.{
  with_idx, is_some, slot_of, breadth_first_find_node, tree_depth_first_find,
  tree_breadth_first_find, tree_depth_first_insert, insert_under, tree_breadth_first_insert,
  tree_depth_first_delete, tree_breadth_first_delete, delete_found,
}
use vlib.GenericTree.Depth.{key_of, occurs, test, Finds, depth_first_find_node-Finds}
use vlib.GenericTree.Breadth.{test_back, Answers, breadth_first_find_node-Answers}
use vlib.GenericTree.Slots.{IsLinked, IsRoomy}
use vlib.GenericTree.Changes.{
  Located, Inserts, InsertsLinked, insert_under-Inserts, insert_under-InsertsLinked,
}
use vlib.GenericTree.Deletion.{Deletes, delete_found-Deletes}

module _ {ℓ} {A : Type ℓ} where
  -- a key in the tree passes the test
  abbrev pub contains : (A → Bool) → GenericTree A → Bool
  contains passes tree = elim tree.root [ none ↦ false | some root ↦ occurs passes root ]

  at_root {κ} :
      {B : Type κ} (o : Option (TreeNode A)) (root : TreeNode A) (b : B) (f : TreeNode A → B)
      → o ≡ some root
      → elim o [ none ↦ b | some root ↦ f root ] ≡ f root
  at_root o root b f e = rw e refl

  module _ (fn : CmpFn A) (key : A) (root : TreeNode A) where
    Finds-Located :
        (r : Option Slot × ℕ)
        → Finds fn key root 0 r
        → Located (test fn key) root (with_idx r)
          × (slot_of (with_idx r) ≡ r.0)
          × (is_some r.0 ≡ occurs (test fn key) root)
    Finds-Located (none, j) (h, u) = ((h, u), refl, sym h)
    Finds-Located (some path, j) (n, at, hit, there, index) = ((n, at, hit, index), refl, sym there)

    module _ (malloc : Malloc (QNode (QTreeNode A))) (laws : IsMalloc malloc)
        (grants : Grants malloc) (heap : Heap (QNode (QTreeNode A))) where
      Answers-Located :
          (r : Option (Slot × ℕ))
          → Answers fn key root malloc laws (occurs (test_back fn key) root) r
          → Located (test_back fn key) root r × (is_some r ≡ occurs (test_back fn key) root)
      Answers-Located none h = ((h grants, tt), sym (h grants))
      Answers-Located (some (slot, idx)) (n, at, hit, index, there) =
          ((n, at, hit, index), sym there)

      located :
          Returns
            (λ r. Located (test_back fn key) root r × (is_some r ≡ occurs (test_back fn key) root))
            (breadth_first_find_node fn malloc heap key root)
      located =
          Returns-map _ (breadth_first_find_node-Answers fn key root malloc laws heap)
            Answers-Located

module _ {ℓ} {A : Type ℓ} (fn : CmpFn A) (malloc : Malloc (QNode (QTreeNode A)))
    (laws : IsMalloc malloc) (grants : Grants malloc) (heap : Heap (QNode (QTreeNode A))) where
  -- Both searches answer true just if a key in the tree compares equal, with a queue whose malloc
  -- hands out unused addresses and refuses no request; the search into the depth passes the key
  -- of the tree first to the comparison, the search level by level passes it second.
  pub tree_find-contains :
      (tree : GenericTree A) (key : A)
      → (tree_depth_first_find fn tree key ≡ contains (test fn key) tree)
        × (tree_breadth_first_find fn malloc heap tree key ≡ ok (contains (test_back fn key) tree))
  unfolding tree_depth_first_find tree_breadth_first_find
  tree_find-contains tree key = go tree.root refl
    where
      go :
          (o : Option (TreeNode A))
          → tree.root ≡ o
          → (tree_depth_first_find fn tree key ≡ contains (test fn key) tree)
            × (tree_breadth_first_find fn malloc heap tree key
                ≡ ok (contains (test_back fn key) tree))
      go none e = rw e (refl, refl)
      go (some root) e =
          let (found, same, is) =
            Finds-Located fn key root _ (depth_first_find_node-Finds fn key root 0) in
          let (r, ran, (found, there)) = located fn key root malloc laws grants heap in
          rw e (is, rw (ran, there) refl)

  module _ (tree : GenericTree A) (root : TreeNode A) (there : tree.root ≡ some root) where
    depth_insert_root :
        (allocated : Option Ptr) (realloc : Ptr → Option Ptr) (key par_key : A)
        → tree_depth_first_insert fn allocated realloc tree key (some par_key)
          ≡ insert_under allocated realloc tree root key (depth_first_find_node fn par_key root 0).0
    unfolding tree_depth_first_insert
    depth_insert_root allocated realloc key par_key = at_root tree.root root _ _ there

    breadth_insert_root :
        (allocated : Option Ptr) (realloc : Ptr → Option Ptr) (key par_key : A)
        → tree_breadth_first_insert fn malloc heap allocated realloc tree key (some par_key) ≡ (
            breadth_first_find_node fn malloc heap par_key root >>= λ r.
            insert_under allocated realloc tree root key (slot_of r))
    unfolding tree_breadth_first_insert
    breadth_insert_root allocated realloc key par_key = at_root tree.root root _ _ there

    depth_delete_root :
        (free_fn : Bool) (key : A)
        → tree_depth_first_delete fn free_fn tree key
          ≡ delete_found free_fn tree root (with_idx (depth_first_find_node fn key root 0))
    unfolding tree_depth_first_delete
    depth_delete_root free_fn key = at_root tree.root root _ _ there

    breadth_delete_root :
        (free_fn : Bool) (key : A)
        → tree_breadth_first_delete fn malloc heap free_fn tree key
          ≡ (breadth_first_find_node fn malloc heap key root >>= delete_found free_fn tree root)
    unfolding tree_breadth_first_delete
    breadth_delete_root free_fn key = at_root tree.root root _ _ there

  module _ (m : ℕ) (tree : GenericTree A) (root : TreeNode A) (small : m * 2 < word)
      (there : tree.root ≡ some root) (rooms : IsRoomy m root) where
    module _ (allocated : Option Ptr) (realloc : Ptr → Option Ptr) (key par_key : A) where
      -- In a tree with a root, where each node has places for its children and for no more than `m`,
      -- less than 2^63, and with a queue whose malloc hands out unused addresses and refuses no
      -- request, an insertion under a key, by either search, adds the key as the last child of a node
      -- that compares equal, in a place of the node's block, with the parent field pointing back, keeps
      -- the other keys, adds one to the count modulo 2^64, and leaves places for all children; or it
      -- fails, as there is no such node or no memory, and leaves the tree as it was.
      pub tree_insert-Inserts :
          Returns
            (Inserts (test fn par_key) root m allocated realloc key tree)
            (tree_depth_first_insert fn allocated realloc tree key (some par_key))
          × Returns
              (Inserts (test_back fn par_key) root m allocated realloc key tree)
              (tree_breadth_first_insert fn malloc heap allocated realloc tree key (some par_key))
      tree_insert-Inserts =
          let (found, same, is) =
            Finds-Located fn par_key root _ (depth_first_find_node-Finds fn par_key root 0) in
          let (r, ran, (found_back, is_back)) = located fn par_key root malloc laws grants heap in
          (
            rw (depth_insert_root tree root there allocated realloc key par_key, ← same)
                (insert_under-Inserts (test fn par_key) root m allocated realloc key tree _ there
                  small rooms found),
            rw (breadth_insert_root tree root there allocated realloc key par_key, ran)
                (insert_under-Inserts (test_back fn par_key) root m allocated realloc key tree r
                  there small rooms found_back),
          )

      -- In a linked tree, where no address is null and each parent field below the root holds the
      -- parent's address, with places for the children of each node and for no more than `m`,
      -- less than 2^63, with malloc and realloc that give no null pointer for memory, and with a
      -- queue whose malloc hands out unused addresses and refuses no request: a successful
      -- insertion under a key, by either search, keeps the tree linked if the parent of the new
      -- node stays at its address or had no children, and else leaves a tree that is not linked;
      -- one that fails leaves the tree as it was.
      pub tree_insert-InsertsLinked :
          ((a b : Ptr) → realloc a ≡ some b → b ≢ null)
          → ((b : Ptr) → allocated ≡ some b → b ≢ null)
          → IsLinked root
          → Returns
              (InsertsLinked (test fn par_key) root m allocated realloc key tree)
              (tree_depth_first_insert fn allocated realloc tree key (some par_key))
            × Returns
                (InsertsLinked (test_back fn par_key) root m allocated realloc key tree)
                (tree_breadth_first_insert fn malloc heap allocated realloc tree key (some par_key))
      tree_insert-InsertsLinked real fresh linked =
          let (found, same, is) =
            Finds-Located fn par_key root _ (depth_first_find_node-Finds fn par_key root 0) in
          let (r, ran, (found_back, is_back)) = located fn par_key root malloc laws grants heap in
          (
            rw (depth_insert_root tree root there allocated realloc key par_key, ← same)
                (insert_under-InsertsLinked (test fn par_key) root m allocated realloc key tree _
                  real fresh linked there small rooms found),
            rw (breadth_insert_root tree root there allocated realloc key par_key, ran)
                (insert_under-InsertsLinked (test_back fn par_key) root m allocated realloc key tree
                  r real fresh linked there small rooms found_back),
          )

  -- In a linked tree with places for all children, whose root does not compare equal to the key, and
  -- with a queue whose malloc hands out unused addresses and refuses no request, a deletion, by either
  -- search, takes out a node that compares equal with all nodes below it, calls the free function, if
  -- there is one, on the keys of all of them, that of the node last, keeps the other keys, the links
  -- and the places, and takes one off the count modulo 2^64; or it fails, as there is no such node, and
  -- leaves the tree as it was.
  pub tree_delete-Deletes :
      (m : ℕ) (free_fn : Bool) (tree : GenericTree A) (root : TreeNode A) (key : A)
      → tree.root ≡ some root
      → IsLinked root
      → IsRoomy m root
      → test fn key (key_of root) ≡ false
      → test_back fn key (key_of root) ≡ false
      → Returns
          (Deletes (test fn key) root m free_fn tree)
          (tree_depth_first_delete fn free_fn tree key)
        × Returns
            (Deletes (test_back fn key) root m free_fn tree)
            (tree_breadth_first_delete fn malloc heap free_fn tree key)
  tree_delete-Deletes m free_fn tree root key there linked rooms other other_back =
      let (found, same, is) =
        Finds-Located fn key root _ (depth_first_find_node-Finds fn key root 0) in
      let (r, ran, (found_back, is_back)) = located fn key root malloc laws grants heap in
      (
        rw (depth_delete_root tree root there free_fn key)
            (delete_found-Deletes (test fn key) root m free_fn tree _ linked rooms other found),
        rw (breadth_delete_root tree root there free_fn key, ran)
            (delete_found-Deletes (test_back fn key) root m free_fn tree r linked rooms other_back
              found_back),
      )
