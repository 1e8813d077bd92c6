-- ===== src/GenericTree/Gains.antt =====
-- The insertion of a new child under a node: its places, its keys and the links.
use mathlib.Core.Path.{subst}
use mathlib.Core.List.Perm
use vlib.Base.{
  ℕ, suc, ◌+◌, ◌*◌, ◌%◌, ◌<◌, ◌≤◌, ◌++◌, ◌≡◌, ◌≢◌, refl, sym, ap, ◌∙◌, ◌∷◌, Option, none, some,
  Perm, ok, ◌>>=◌, Returns, returns, Returns-bind, Status, success, failure, ◌==◌, arith,
  if◌then◌else◌, Bool-cases, ltb-false, inl, inr, true, false, ◌⊎◌, word, ltb,
}
use vlib.Heap.{Ptr, null}
use vlib.GenericTree.{
  TreeNode, tree_node, Children, no_child, child, parent_of, append_child, tree_node_insert,
  tree_node_realloc, link_child, len_of,
}
use vlib.GenericTree.Slots.{
  keys, children_keys, IsLinked, AreLinked, IsRoomy, AreRoomy, AreRoomy-weaken, perm_shift,
}

-- the capacity that tree_node_realloc asks for
abbrev doubled : ℕ → ℕ
doubled c = if c == 0 then 2 else (c * 2) % word

doubled_more : (c : ℕ) → c * 2 < word → (c < doubled c) × (doubled c ≤ c * 2 + 2)
doubled_more c fits = elim (Bool-cases (c == 0)) [
  | inl none_yet ↦ let zero_cap : c ≡ 0 = ground arith in rw none_yet (omega arith, omega arith)
  | inr some_cap ↦ let pos : c ≢ 0 = ground arith in rw some_cap (omega arith, omega arith)
]

module _ {ℓ} {A : Type ℓ} where
  -- `n'` is `n` with a new last child at `b`, and has places for its children
  abbrev pub Gains : Ptr → A → TreeNode A → TreeNode A → Type ℓ
  Gains b key (tree_node a c p k ts) (tree_node a' c' p' k' ts') =
      (p' ≡ p)
      × (k' ≡ k)
      × (ts' ≡ append_child ts (tree_node b 0 a' key no_child))
      × (len_of ts < c')
      × (c' ≤ c * 2 + 2)

  abbrev pub address : TreeNode A → Ptr
  address (tree_node a c p k ts) = a

  abbrev pub children_of : TreeNode A → Children A
  children_of (tree_node a c p k ts) = ts

  append_child-keys :
      (ts : Children A) (t : TreeNode A)
      → Perm (children_keys (append_child ts t)) (keys t ++ children_keys ts)
  unfolding keys
  append_child-keys no_child t = Perm.rfl
  append_child-keys (child u us) t =
      Perm.trans (Perm.append_left (keys u) (append_child-keys us t))
        (perm_shift (keys u) (keys t) (children_keys us))

  append_child-AreLinked :
      (a : Ptr) (ts : Children A) (t : TreeNode A)
      → AreLinked a ts
      → parent_of t ≡ a
      → IsLinked t
      → AreLinked a (append_child ts t)
  unfolding IsLinked
  append_child-AreLinked a no_child t h pt ht = (pt, ht, tt)
  append_child-AreLinked a (child u us) t (pu, hu, hs) pt ht =
      (pu, hu, append_child-AreLinked a us t hs pt ht)

  pub Gains-keys :
      (b : Ptr) (key : A) (n n' : TreeNode A) → Gains b key n n' → Perm (keys n') (key ∷ keys n)
  unfolding keys
  Gains-keys b key (tree_node a c p k ts) (tree_node a' c' p' k' ts')
        (par, same, more, place, few) =
      rw (same, more)
        (Perm.trans (Perm.cons k (append_child-keys ts (tree_node b 0 a' key no_child)))
          (Perm.swap key k (children_keys ts)))

  len_of-append_child :
      (ts : Children A) (t : TreeNode A) → len_of (append_child ts t) ≡ suc (len_of ts)
  len_of-append_child no_child t = refl
  len_of-append_child (child u us) t = ap suc (len_of-append_child us t)

  append_child-AreRoomy :
      (m : ℕ) (ts : Children A) (t : TreeNode A)
      → AreRoomy m ts
      → IsRoomy m t
      → AreRoomy m (append_child ts t)
  unfolding IsRoomy
  append_child-AreRoomy m no_child t h ht = (ht, tt)
  append_child-AreRoomy m (child u us) t (hu, hs) ht = (hu, append_child-AreRoomy m us t hs ht)

  pub Gains-IsRoomy :
      (m : ℕ) (b : Ptr) (key : A) (n n' : TreeNode A)
      → Gains b key n n'
      → IsRoomy m n
      → IsRoomy (m * 2 + 2) n'
  unfolding IsRoomy
  Gains-IsRoomy m b key (tree_node a c p k ts) (tree_node a' c' p' k' ts')
        (par, same, more, place, few') (fits, few, h) =
      let t = tree_node b 0 a' key no_child in
      let len : len_of ts' ≡ suc (len_of ts) = ap len_of more ∙ len_of-append_child ts t in
      (
        omega arith,
        omega arith,
        rw more (
            append_child-AreRoomy (m * 2 + 2) ts t
              (AreRoomy-weaken m (m * 2 + 2) ts (omega arith) h) (omega arith, omega arith, tt)),
      )

  -- what an insertion does to the links: they are kept, unless the node moved and had children
  abbrev pub Relinks : TreeNode A → TreeNode A → TreeNode A → Type ℓ
  Relinks n n' root' =
      (IsLinked root' × ((address n' ≡ address n) ⊎ (children_of n ≡ no_child)))
      ⊎ ((¬ IsLinked root') × (address n' ≢ address n) × (children_of n ≢ no_child))

  child-not_none : (t : TreeNode A) (ts : Children A) → child t ts ≢ no_child
  child-not_none t ts e = cc

  pub Gains-Relinks :
      (b : Ptr) (key : A) (n n' : TreeNode A)
      → Gains b key n n'
      → address n' ≢ null
      → b ≢ null
      → IsLinked n
      → Relinks n n' n'
  unfolding IsLinked
  Gains-Relinks b key (tree_node a c p k no_child) (tree_node a' c' p' k' ts')
        (par, same, more, place, few) there nonnull (na, h) =
      inl ((there, rw more (refl, (nonnull, tt), tt)), inr refl)
  Gains-Relinks b key (tree_node a c p k (child t ts)) (tree_node a' c' p' k' ts')
        (par, same, more, place, few) there nonnull (na, (pt, ht, hs)) =
      elim (Bool-cases (a' == a)) [
        | inl e ↦
            let stays : a' ≡ a = ground arith in
            inl (
              (
                there,
                rw (more, stays)
                    (append_child-AreLinked a (child t ts) (tree_node b 0 a key no_child)
                      (pt, ht, hs) refl (nonnull, tt)),
              ),
              inl stays,
            )
        | inr moved ↦
            let elsewhere : a' ≢ a = ground arith in
            inr (
              λ (na', h').
                  elsewhere (sym (first_parent (tree_node b 0 a' key no_child) more h') ∙ pt),
              elsewhere,
              child-not_none t ts,
            )
      ]
    where
      first_parent :
          (u : TreeNode A) → ts' ≡ child t (append_child ts u) → AreLinked a' ts' → parent_of t ≡ a'
      first_parent u e h = let linked = subst (AreLinked a') e h in linked.0

  pub Gains-parent :
      (b : Ptr) (key : A) (n n' : TreeNode A) → Gains b key n n' → parent_of n' ≡ parent_of n
  Gains-parent b key (tree_node a c p k ts) (tree_node a' c' p' k' ts')
        (par, same, more, place, few) =
      par

  -- what the insertion of a new node under `n` does
  abbrev pub Inserted : (Ptr → Option Ptr) → Ptr → A → TreeNode A → Status × TreeNode A → Type ℓ
  Inserted realloc b key n (success, n') =
      Gains b key n n' × ((address n' ≡ address n) ⊎ (realloc (address n) ≡ some (address n')))
  Inserted realloc b key n (failure, n') = (n' ≡ n) × (realloc (address n) ≡ none)

  -- the node that tree_node_insert writes to
  abbrev HasRoom : (Ptr → Option Ptr) → TreeNode A → Status × TreeNode A → Type ℓ
  HasRoom realloc (tree_node a c p k ts) (success, m) =
      (a' d : ℕ) × (m ≡ tree_node a' d p k ts)
      × (len_of ts < d)
      × (d ≤ c * 2 + 2)
      × ((a' ≡ a) ⊎ (realloc a ≡ some a'))
  HasRoom realloc n (failure, m) = (m ≡ n) × (realloc (address n) ≡ none)

  realloc-HasRoom :
      (realloc : Ptr → Option Ptr) (a c p : ℕ) (k : A) (ts : Children A) (o : Option Ptr)
      → realloc a ≡ o
      → len_of ts ≡ c
      → c * 2 < word
      → Returns
          (HasRoom realloc (tree_node a c p k ts))
          (tree_node_realloc realloc (tree_node a c p k ts))
  unfolding tree_node_realloc
  realloc-HasRoom realloc a c p k ts none e full fits =
      rw (tree_node_realloc, e) (returns (refl, e))
  realloc-HasRoom realloc a c p k ts (some b) e full fits =
      let (grows, bound) = doubled_more c fits in
      let enough : ltb (doubled c) (len_of ts) ≡ false =
        ltb-false (doubled c) (len_of ts) (omega arith) in
      rw (tree_node_realloc, e, enough) (returns (b, doubled c, refl, omega arith, bound, inr e))

  linked :
      (realloc : Ptr → Option Ptr) (b : Ptr) (key : A) (n : TreeNode A) (r : Status × TreeNode A)
      → HasRoom realloc n r
      → Returns (Inserted realloc b key n) (elim r.0 [
        | failure ↦ ok (failure, r.1)
        | success ↦ link_child (tree_node b 0 null key no_child) r.1 >>= λ u. ok (success, u)
      ])
  unfolding link_child
  linked realloc b key (tree_node a c p k ts) (success, m) (a', d, same, place, bound, at) =
      let free : ltb (len_of ts) d ≡ true = ground arith in
      rw (same, free) (returns ((refl, refl, refl, place, bound), at))
  linked realloc b key n (failure, m) h = returns h

  pub tree_node_insert-Inserted :
      (realloc : Ptr → Option Ptr) (b : Ptr) (key : A) (m : ℕ) (n : TreeNode A)
      → m * 2 < word
      → IsRoomy m n
      → Returns
          (Inserted realloc b key n)
          (tree_node_insert realloc (tree_node b 0 null key no_child) n)
  unfolding tree_node_insert IsRoomy
  tree_node_insert-Inserted realloc b key m (tree_node a c p k ts) small (fits, few, h) =
      Returns-bind _ _ room λ r hr. linked realloc b key (tree_node a c p k ts) r hr
    where
      room : Returns (HasRoom realloc (tree_node a c p k ts)) (
          if len_of ts == c
          then tree_node_realloc realloc (tree_node a c p k ts)
          else ok (success, tree_node a c p k ts))
      room = elim (Bool-cases (len_of ts == c)) [
        | inl full ↦
            rw full
              (realloc-HasRoom realloc a c p k ts (realloc a) refl (ground arith) (omega arith))
        | inr free ↦
            let place : len_of ts < c = ground arith in
            rw free (returns (a, c, refl, place, omega arith, inl refl))
      ]
