-- ===== src/GenericTree/Changes.antt =====
-- The insertion behind a search: what it does to the keys, the places and the links of the tree.
use vlib.Base.{
  ℕ, ◌+◌, ◌*◌, ◌<◌, ◌%◌, ◌≡◌, ◌≢◌, refl, sym, ◌∙◌, [], ◌∷◌, Option, none, some, Perm, ok, Returns,
  returns, Returns-bind, Status, success, failure, arith, inl, inr, true, false, Bool, word, ◌⊎◌,
}
use vlib.Heap.{Ptr, null}
use vlib.GenericTree.{
  TreeNode, tree_node, no_child, GenericTree, Slot, node_at, parent_of, tree_node_insert,
  tree_node_new,
}
use vlib.GenericTree.Operations.{count_if, slot_of, insert_under}
use vlib.GenericTree.Slots.{
  keys, IsLinked, IsRoomy, IsRoomy-weaken, node_at-IsRoomy, Replaces, change_at-Replaces,
}
use vlib.GenericTree.Parents.{node_at-IsLinked}
use vlib.GenericTree.Gains.{
  Gains, Gains-keys, Gains-IsRoomy, Gains-parent, Gains-Relinks, Relinks, address, Inserted,
  tree_node_insert-Inserted,
}
use vlib.GenericTree.Depth.{key_of, occurs, last_index}

module _ {ℓ} {A : Type ℓ} (test : A → Bool) (root : TreeNode A) where
  -- what a search says
  abbrev pub Located : Option (Slot × ℕ) → Type ℓ
  Located none = (occurs test root ≡ false) × Unit {ℓ}
  Located (some (slot, idx)) =
      (n : TreeNode A) × (node_at root slot ≡ ok n)
      × (test (key_of n) ≡ true)
      × (idx ≡ last_index 0 slot)

  module _ (m : ℕ) (allocated : Option Ptr) (realloc : Ptr → Option Ptr) (key : A)
      (tree : GenericTree A) where
    -- The outcome of an insertion: a new last child under a node that passes the test, in a place of
    -- the node's block, or nothing, as there is no such node or no memory.
    abbrev pub Inserts : Status × GenericTree A → Type ℓ
    Inserts (success, tree') =
        (b : Ptr) × (allocated ≡ some b)
        × (root' : TreeNode A) × (tree'.root ≡ some root')
        × (tree'.num_el ≡ (tree.num_el + 1) % word)
        × (slot : Slot) × (n n' : TreeNode A) × (node_at root slot ≡ ok n)
        × (node_at root' slot ≡ ok n')
        × (test (key_of n) ≡ true)
        × Gains b key n n'
        × Perm (keys root') (key ∷ keys root)
        × IsRoomy (m * 2 + 2) root'
    Inserts (failure, tree') =
        (tree' ≡ tree)
        × ((occurs test root ≡ false) ⊎ ((allocated ≡ none) ⊎ ((a : Ptr) × (realloc a ≡ none))))

    -- The links behind an insertion: the parent of the new node is in its slot, and the tree is
    -- linked as before, unless that parent moved and had children.
    abbrev pub InsertsLinked : Status × GenericTree A → Type ℓ
    InsertsLinked (success, tree') =
        (b : Ptr) × (allocated ≡ some b)
        × (root' : TreeNode A) × (tree'.root ≡ some root')
        × (slot : Slot) × (n n' : TreeNode A) × (node_at root slot ≡ ok n)
        × (node_at root' slot ≡ ok n')
        × (test (key_of n) ≡ true)
        × Gains b key n n'
        × Relinks n n' root'
    InsertsLinked (failure, tree') = (tree' ≡ tree) × Unit {ℓ}

    planted :
        (b : Ptr) (slot : Slot) (n : TreeNode A) (s : Status) (n' r : TreeNode A)
        → tree.root ≡ some root
        → IsRoomy m root
        → allocated ≡ some b
        → node_at root slot ≡ ok n
        → test (key_of n) ≡ true
        → Inserted realloc b key n (s, n')
        → Replaces n n' slot root r
        → Inserts (s, record tree { num_el = count_if s tree.num_el; root = some r })
    planted b slot n success n' r there rooms some_memory at hit (gains, moved) h = (
      b,
      some_memory,
      r,
      refl,
      refl,
      slot,
      n,
      n',
      at,
      h.at_slot,
      hit,
      gains,
      h.swaps [] (key ∷ []) (Gains-keys b key n n' gains),
      h.rooms (m * 2 + 2)
          (Gains-IsRoomy m b key n n' gains (node_at-IsRoomy m root n slot at rooms))
          (IsRoomy-weaken m (m * 2 + 2) root (omega arith) rooms),
    )
    planted b slot n failure n' r there rooms some_memory at hit (same, refused) h =
        let unchanged : r ≡ root = h.same same in
        (rw (unchanged, ← there) refl, inr (inr (address n, refused)))

    root-Relinks :
        (slot : Slot) (n n' r : TreeNode A)
        → IsLinked root
        → parent_of n' ≡ parent_of n
        → Replaces n n' slot root r
        → Relinks n n' n'
        → Relinks n n' r
    root-Relinks slot n n' r linked same_parent h (inl (linked', kept)) =
        inl (h.links same_parent linked' linked, kept)
    root-Relinks slot n n' r linked same_parent h (inr (broken, moved, grown)) =
        inr (λ linked'. broken (node_at-IsLinked r n' slot h.at_slot linked'), moved, grown)

    module _ (real : (a b : Ptr) → realloc a ≡ some b → b ≢ null)
        (fresh : (b : Ptr) → allocated ≡ some b → b ≢ null) (linked : IsLinked root) where
      address-nonnull :
          (n n' : TreeNode A)
          → IsLinked n
          → (address n' ≡ address n) ⊎ (realloc (address n) ≡ some (address n'))
          → address n' ≢ null
      unfolding IsLinked
      address-nonnull (tree_node a c p k ts) n' (na, h) (inl same) = λ z. na (sym same ∙ z)
      address-nonnull (tree_node a c p k ts) n' h (inr moved) = real a (address n') moved

      planted_linked :
          (b : Ptr) (slot : Slot) (n : TreeNode A) (s : Status) (n' r : TreeNode A)
          → tree.root ≡ some root
          → allocated ≡ some b
          → node_at root slot ≡ ok n
          → test (key_of n) ≡ true
          → Inserted realloc b key n (s, n')
          → Replaces n n' slot root r
          → InsertsLinked (s, record tree { num_el = count_if s tree.num_el; root = some r })
      planted_linked b slot n success n' r there some_memory at hit (gains, moved) h =
          let here = node_at-IsLinked root n slot at linked in
          (
            b,
            some_memory,
            r,
            refl,
            slot,
            n,
            n',
            at,
            h.at_slot,
            hit,
            gains,
            root-Relinks slot n n' r linked (Gains-parent b key n n' gains) h (
                Gains-Relinks b key n n' gains (address-nonnull n n' here moved)
                  (fresh b some_memory) here),
          )
      planted_linked b slot n failure n' r there some_memory at hit (same, refused) h =
          let unchanged : r ≡ root = h.same same in (rw (unchanged, ← there) refl, tt)

    -- an insertion at a slot, for both of the above
    inserted_at {κ} :
        (P : Status × GenericTree A → Type κ) (slot : Slot) (n : TreeNode A) (b : Ptr)
        → m * 2 < word
        → IsRoomy m root
        → node_at root slot ≡ ok n
        → ((s : Status) (n' r : TreeNode A)
            → Inserted realloc b key n (s, n')
            → Replaces n n' slot root r
            → P (s, record tree { num_el = count_if s tree.num_el; root = some r }))
        → Returns P (insert_under (some b) realloc tree root key (some slot))
    unfolding insert_under tree_node_new
    inserted_at P slot n b small rooms at then_P =
        let ((s, n'), ran, h) =
          tree_node_insert-Inserted realloc b key m n small
            (node_at-IsRoomy m root n slot at rooms) in
        Returns-bind _ _
          (change_at-Replaces (tree_node_insert realloc (tree_node b 0 null key no_child)) n n' s
            ran root slot at)
          λ (out, r) (same, hr). rw same (returns (then_P s n' r h hr))

    insert_under_refused :
        (slot : Slot) → insert_under none realloc tree root key (some slot) ≡ ok (failure, tree)
    unfolding insert_under tree_node_new
    insert_under_refused slot = refl

    insert_under-none :
        (o : Option Ptr) → insert_under o realloc tree root key none ≡ ok (failure, tree)
    unfolding insert_under
    insert_under-none o = refl

    inserted_in {κ} :
        (P : Status × GenericTree A → Type κ) (slot : Slot) (n : TreeNode A) (o : Option Ptr)
        → m * 2 < word
        → IsRoomy m root
        → node_at root slot ≡ ok n
        → (o ≡ none → P (failure, tree))
        → ((b : Ptr) (s : Status) (n' r : TreeNode A)
            → o ≡ some b
            → Inserted realloc b key n (s, n')
            → Replaces n n' slot root r
            → P (s, record tree { num_el = count_if s tree.num_el; root = some r }))
        → Returns P (insert_under o realloc tree root key (some slot))
    inserted_in P slot n none small rooms at refused then_P =
        rw (insert_under_refused slot) (returns (refused refl))
    inserted_in P slot n (some b) small rooms at refused then_P =
        inserted_at P slot n b small rooms at λ s n' r. then_P b s n' r refl

    pub insert_under-Inserts :
        (found : Option (Slot × ℕ))
        → tree.root ≡ some root
        → m * 2 < word
        → IsRoomy m root
        → Located found
        → Returns Inserts (insert_under allocated realloc tree root key (slot_of found))
    insert_under-Inserts none there small rooms (absent, u) =
        rw (insert_under-none allocated) (returns (refl, inl absent))
    insert_under-Inserts (some (slot, idx)) there small rooms (n, at, hit, index) =
        inserted_in Inserts slot n allocated small rooms at (λ refused. (refl, inr (inl refused)))
          λ b s n' r some_memory h hr. planted b slot n s n' r there rooms some_memory at hit h hr

    pub insert_under-InsertsLinked :
        (found : Option (Slot × ℕ))
        → ((a b : Ptr) → realloc a ≡ some b → b ≢ null)
        → ((b : Ptr) → allocated ≡ some b → b ≢ null)
        → IsLinked root
        → tree.root ≡ some root
        → m * 2 < word
        → IsRoomy m root
        → Located found
        → Returns InsertsLinked (insert_under allocated realloc tree root key (slot_of found))
    insert_under-InsertsLinked none real fresh linked there small rooms (absent, u) =
        rw (insert_under-none allocated) (returns (refl, tt))
    insert_under-InsertsLinked (some (slot, idx)) real fresh linked there small rooms
          (n, at, hit, index) =
        inserted_in InsertsLinked slot n allocated small rooms at (λ refused. (refl, tt))
          λ b s n' r some_memory h hr.
            planted_linked real fresh linked b slot n s n' r there some_memory at hit h hr
