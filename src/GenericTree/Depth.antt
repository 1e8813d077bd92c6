-- ===== src/GenericTree/Depth.antt =====
-- The search into the depth finds a node whose key compares equal, if there is one, and its place.
use vlib.Base.{
  ℕ, suc, ◌+◌, ◌≡◌, refl, sym, ap, ◌∙◌, [], ◌∷◌, Option, none, some, Bool, true, false, ◌||◌, ok,
  arith, Bool-cases, inl, inr,
}
use vlib.Cmp.{CmpFn, is_zero}
use vlib.GenericTree.{
  TreeNode, tree_node, Children, no_child, child, Slot, node_at, child_at, depth_first_find_node,
  depth_first_find_child,
}

module _ {ℓ} {A : Type ℓ} where
  abbrev pub key_of : TreeNode A → A
  key_of (tree_node a c p k ts) = k

  -- a key in the tree passes the test
  unfoldable mutual
    pub occurs : (A → Bool) → TreeNode A → Bool
    occurs test (tree_node a c p k ts) = test k || occurs_in test ts

    pub occurs_in : (A → Bool) → Children A → Bool
    occurs_in test no_child = false
    occurs_in test (child t ts) = occurs test t || occurs_in test ts

-- the index of a slot in the array that it belongs to, or `idx` for the root's
abbrev pub last_index : ℕ → Slot → ℕ
last_index idx [] = idx
last_index idx (i ∷ path) = last_index i path

module _ {ℓ} {A : Type ℓ} (fn : CmpFn A) (key : A) where
  abbrev pub test : A → Bool
  test k = is_zero (fn k key)

  abbrev pub Finds : TreeNode A → ℕ → Option Slot × ℕ → Type ℓ
  Finds t idx (none, j) = (occurs test t ≡ false) × Unit {ℓ}
  Finds t idx (some path, j) =
      (n : TreeNode A) × (node_at t path ≡ ok n)
      × (test (key_of n) ≡ true)
      × (occurs test t ≡ true)
      × (j ≡ last_index idx path)

  abbrev FindsIn : Children A → ℕ → Option Slot × ℕ → Type ℓ
  FindsIn ts i (none, j) = (occurs_in test ts ≡ false) × Unit {ℓ}
  FindsIn ts i (some path, j) =
      (d : ℕ) × (below : Slot) × (path ≡ (i + d) ∷ below)
      × (n : TreeNode A) × (child_at ts d below ≡ ok n)
      × (test (key_of n) ≡ true)
      × (occurs_in test ts ≡ true)
      × (j ≡ last_index (i + d) below)

  below :
      (a c p : ℕ) (k : A) (ts : Children A) (idx : ℕ)
      → is_zero (fn k key) ≡ false
      → (r : Option Slot × ℕ) → FindsIn ts 0 r
      → Finds (tree_node a c p k ts) idx r
  unfolding node_at occurs
  below a c p k ts idx miss (none, j) (h, u) = (ground arith, u)
  below a c p k ts idx miss (some path, j) (d, under, at, n, found, hit, some_there, index) =
      let zero_plus : 0 + d ≡ d = omega arith in
      (
        n,
        ap (node_at (tree_node a c p k ts)) (at ∙ ap (λ m. m ∷ under) zero_plus) ∙ found,
        hit,
        ground arith,
        index ∙ sym (ap (last_index idx) at),
      )

  later :
      (t : TreeNode A) (ts : Children A) (i : ℕ)
      → occurs test t ≡ false
      → (r : Option Slot × ℕ) → FindsIn ts (i + 1) r
      → FindsIn (child t ts) i r
  unfolding node_at occurs
  later t ts i miss (none, j) (h, u) = (ground arith, u)
  later t ts i miss (some path, j) (d, under, at, n, found, hit, some_there, index) =
      let same : i + 1 + d ≡ i + suc d = omega arith in
      (
        suc d,
        under,
        at ∙ ap (λ m. m ∷ under) same,
        n,
        found,
        hit,
        ground arith,
        index ∙ ap (λ m. last_index m under) same,
      )

  first :
      (t : TreeNode A) (ts : Children A) (i : ℕ) (found : Option Slot × ℕ)
      → Finds t i found
      → ((j : ℕ) → FindsIn ts (i + 1) (depth_first_find_child fn key ts (i + 1) j))
      → FindsIn (child t ts) i (elim found.0 [
        | some path ↦ (some (i ∷ path), found.1)
        | none ↦ depth_first_find_child fn key ts (i + 1) found.1
      ])
  unfolding node_at occurs
  first t ts i (some path, j) (n, at, hit, there, index) rest =
      let here : i ≡ i + 0 = omega arith in
      (
        0,
        path,
        ap (λ m. m ∷ path) here,
        n,
        at,
        hit,
        ground arith,
        index ∙ ap (λ m. last_index m path) here,
      )
  first t ts i (none, j) (miss, u) rest = later t ts i miss _ (rest j)

  mutual
    unfolding depth_first_find_node node_at occurs

    pub depth_first_find_node-Finds :
        (t : TreeNode A) (idx : ℕ) → Finds t idx (depth_first_find_node fn key t idx)
    depth_first_find_node-Finds (tree_node a c p k ts) idx =
        elim (Bool-cases (is_zero (fn k key))) [
          | inl hit ↦
              let there : occurs test (tree_node a c p k ts) ≡ true = ground arith in
              rw hit (tree_node a c p k ts, refl, hit, there, refl)
          | inr miss ↦
              rw miss (below a c p k ts idx miss _ (depth_first_find_child-FindsIn ts 0 idx))
        ]

    depth_first_find_child-FindsIn :
        (ts : Children A) (i idx : ℕ) → FindsIn ts i (depth_first_find_child fn key ts i idx)
    depth_first_find_child-FindsIn no_child i idx = (refl, tt)
    depth_first_find_child-FindsIn (child t ts) i idx =
        first t ts i _ (depth_first_find_node-Finds t i)
          λ j. depth_first_find_child-FindsIn ts (i + 1) j
