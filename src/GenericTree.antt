-- ===== src/GenericTree.antt =====
-- src/tree.c: the tree with any number of children. A node is a value with the address that it has
-- now and the address that its `parent` field holds; a slot, `tree_node**`, is the path of indices
-- to it from the root. `malloc` for the new node, `realloc` of a node at its address, and the
-- malloc of the queue come from outside.
pub mod Operations
pub mod Slots
pub mod Depth
pub mod Breadth
pub mod Parents
pub mod Gains
pub mod Changes
pub mod Deletion
pub mod Outcomes
use vlib.Base.{
  ℕ, zero, suc, ◌+◌, ◌*◌, ◌%◌, word, ltb, ◌++◌, List, [], ◌∷◌, Option, none, some, Bool, false, Run,
  ok, fault, out_of_fuel, ◌>>=◌, from_option, Status, success, failure, ◌==◌, if◌then◌else◌,
}
use vlib.Cmp.{CmpFn, is_zero}
use vlib.Heap.{Ptr, null, Malloc}
use vlib.Queue.{QNode, Queue, queue_enque, queue_deque, queue_free}

mutual
  -- `tree_node`: address, capacity, `parent`, key and the children in its array; `len` is their number,
  -- and the block has as many places for them as the capacity says
  pub data TreeNode {ℓ} (A : Type ℓ) : Type ℓ where
    tree_node : Ptr → ℕ → Ptr → A → Children A → TreeNode A

  pub data Children {ℓ} (A : Type ℓ) : Type ℓ where
    no_child : Children A
    child : TreeNode A → Children A → Children A

-- `tree`
pub record GenericTree {ℓ} (A : Type ℓ) : Type ℓ where
  pub num_el : ℕ
  pub key_size : ℕ
  pub root : Option (TreeNode A)

abbrev pub Slot : Type 0
Slot = List ℕ

-- `q_tree_node`, and the node in its slot
pub record QTreeNode {ℓ} (A : Type ℓ) : Type ℓ where
  pub slot : Slot
  pub idx : ℕ
  pub node : TreeNode A

-- the slot of the parent
abbrev pub parent_slot : Slot → Slot
parent_slot [] = []
parent_slot (i ∷ []) = []
parent_slot (i ∷ j ∷ path) = i ∷ parent_slot (j ∷ path)

module _ {ℓ} {A : Type ℓ} where
  abbrev pub len_of : Children A → ℕ
  len_of no_child = 0
  len_of (child t ts) = suc (len_of ts)

  -- the node in a slot
  unfoldable mutual
    pub node_at : TreeNode A → Slot → Run (TreeNode A)
    node_at t [] = ok t
    node_at (tree_node a c p k ts) (i ∷ path) = child_at ts i path

    pub child_at : Children A → ℕ → Slot → Run (TreeNode A)
    child_at no_child i path = fault
    child_at (child t ts) zero path = node_at t path
    child_at (child t ts) (suc i) path = child_at ts i path

  -- an operation on the node in a slot
  unfoldable mutual
    pub change_at {κ} :
        {R : Type κ}
        → (TreeNode A → Run (R × TreeNode A))
        → TreeNode A
        → Slot
        → Run (R × TreeNode A)
    change_at f t [] = f t
    change_at f (tree_node a c p k ts) (i ∷ path) =
        change_child f ts i path >>= λ (r, us). ok (r, tree_node a c p k us)

    pub change_child {κ} :
        {R : Type κ}
        → (TreeNode A → Run (R × TreeNode A))
        → Children A
        → ℕ
        → Slot
        → Run (R × Children A)
    change_child f no_child i path = fault
    change_child f (child t ts) zero path = change_at f t path >>= λ (r, u). ok (r, child u ts)
    change_child f (child t ts) (suc i) path =
        change_child f ts i path >>= λ (r, us). ok (r, child t us)

  unfoldable pub tree_new : ℕ → GenericTree A
  tree_new key_size = record { num_el = 0; key_size = key_size; root = none }

  unfoldable pub tree_node_new : Option Ptr → A → Option (TreeNode A)
  tree_node_new allocated key = elim allocated [
    | none ↦ none
    | some a ↦ some (tree_node a 0 null key no_child)
  ]

  -- the keys handed to the free function: those of the children first
  unfoldable mutual
    pub tree_node_free : TreeNode A → List A
    tree_node_free (tree_node a c p k ts) = children_free ts ++ k ∷ []

    pub children_free : Children A → List A
    children_free no_child = []
    children_free (child t ts) = tree_node_free t ++ children_free ts

  -- a free of a null pointer's node reads it
  unfoldable pub tree_free : Bool → GenericTree A → Run (List A)
  unfolding tree_node_free
  tree_free fn t = from_option t.root >>= λ root. ok (if fn then tree_node_free root else [])

  -- The node moves to the address that realloc gives. The `parent` fields of the children stay. A
  -- capacity that has wrapped to less than `len` would make `(cap - len)` wrap too.
  unfoldable pub tree_node_realloc : (Ptr → Option Ptr) → TreeNode A → Run (Status × TreeNode A)
  tree_node_realloc realloc (tree_node a c p k ts) =
      let cap = if c == 0 then 2 else (c * 2) % word in
      elim (realloc a) [
        | none ↦ ok (failure, tree_node a c p k ts)
        | some b ↦ if ltb cap (len_of ts) then fault else ok (success, tree_node b cap p k ts)
      ]

  abbrev pub append_child : Children A → TreeNode A → Children A
  append_child no_child t = child t no_child
  append_child (child u us) t = child u (append_child us t)

  -- `memcpy` of the pointer to the place behind the others, which is outside the block if there are
  -- as many as the capacity; `len++` and the `parent` of the new node
  unfoldable pub link_child : TreeNode A → TreeNode A → Run (TreeNode A)
  link_child (tree_node b d q x us) (tree_node a c p k ts) =
      if ltb (len_of ts) c
      then ok (tree_node a c p k (append_child ts (tree_node b d a x us)))
      else fault

  -- the new node is freed when there is no memory for its parent
  unfoldable pub tree_node_insert :
      (Ptr → Option Ptr) → TreeNode A → TreeNode A → Run (Status × TreeNode A)
  unfolding tree_node_realloc link_child
  tree_node_insert realloc node (tree_node a c p k ts) =
      (if len_of ts == c
        then tree_node_realloc realloc (tree_node a c p k ts)
        else ok (success, tree_node a c p k ts))
      >>= λ (res, par). elim res [
        | failure ↦ ok (failure, par)
        | success ↦ link_child node par >>= λ n. ok (success, n)
      ]

  -- The child at `idx` is taken out of the array: the pointers behind it are moved by `memmove`, and
  -- the last place is cleared.
  unfoldable pub remove_child : Children A → ℕ → Run (TreeNode A × Children A)
  remove_child no_child idx = fault
  remove_child (child t ts) zero = ok (t, ts)
  remove_child (child t ts) (suc idx) = remove_child ts idx >>= λ (u, us). ok (u, child t us)

  abbrev pub parent_of : TreeNode A → Ptr
  parent_of (tree_node a c p k ts) = p

  -- tree_node_delete with the parent of the node in hand. The function goes by the node's `parent`
  -- field, which is a stale pointer if it is not the address that the parent has now.
  unfoldable pub tree_node_delete : ℕ → TreeNode A → Run (List A × TreeNode A)
  unfolding remove_child tree_node_free
  tree_node_delete idx (tree_node a c p k ts) = do
    (n, us) ← remove_child ts idx
    if parent_of n == a then ok (tree_node_free n, tree_node a c p k us) else fault

module _ {ℓ} {A : Type ℓ} (fn : CmpFn A) (key : A) where
  -- The search and the value that it leaves in `*idx`; the comparison is called on the node's key and
  -- the key.
  unfoldable mutual
    pub depth_first_find_node : TreeNode A → ℕ → Option Slot × ℕ
    depth_first_find_node (tree_node a c p k ts) idx =
        let below = depth_first_find_child ts 0 idx in
        if is_zero (fn k key) then (some [], idx) else below

    -- the loop from the child `i` on
    pub depth_first_find_child : Children A → ℕ → ℕ → Option Slot × ℕ
    depth_first_find_child no_child i idx = (none, idx)
    depth_first_find_child (child t ts) i idx =
        let found = depth_first_find_node t i in
        elim found.0 [
          | some path ↦ (some (i ∷ path), found.1)
          | none ↦ depth_first_find_child ts (i + 1) found.1
        ]

  module _ (malloc : Malloc (QNode (QTreeNode A))) where
    -- the loop that puts the children into the queue; the results are ignored
    unfoldable pub enque_children :
        Slot → Children A → ℕ → Queue (QTreeNode A) → Run (Queue (QTreeNode A))
    enque_children slot no_child i q = ok q
    enque_children slot (child t ts) i q =
        queue_enque malloc q (record { slot = slot ++ i ∷ []; idx = i; node = t }) >>= λ (s, w).
        enque_children slot ts (i + 1) w

    -- the body of the `while` behind queue_deque; the comparison is called on the key and the node's
    unfoldable pub breadth_first_visit :
        (Queue (QTreeNode A) → Run (Option (Slot × ℕ)))
        → QTreeNode A
        → Queue (QTreeNode A)
        → Run (Option (Slot × ℕ))
    unfolding enque_children
    breadth_first_visit go cur q = elim cur.node [
      | tree_node a c p k ts ↦
          let found = queue_free false q >>= λ _. ok (some (cur.slot, cur.idx)) in
          let next = enque_children cur.slot ts 0 q >>= go in
          if is_zero (fn key k) then found else next
    ]

    -- the `while` on fuel: each round takes one node out of the queue
    unfoldable pub breadth_first_loop : ℕ → Queue (QTreeNode A) → Run (Option (Slot × ℕ))
    unfolding breadth_first_visit
    breadth_first_loop zero q =
        let ended = queue_free false q >>= λ _. ok none in if q.len == 0 then ended else out_of_fuel
    breadth_first_loop (suc n) q =
        let ended = queue_free false q >>= λ _. ok none in
        let round = queue_deque q >>= λ (out, r).
        from_option out >>= λ cur. breadth_first_visit (breadth_first_loop n) cur r in
        if q.len == 0 then ended else round
