-- ===== src/BinaryTree/Walks.antt =====
-- The walks put the data of all nodes into the vector, each in its order.
use vlib.Base.{
  ◌⊎◌, inl, inr, Bool-cases, ℕ, suc, ◌+◌, ◌<◌, ◌≡◌, refl, sym, ap, ◌∙◌, List, [], ◌∷◌, ◌++◌, Option,
  none, some, Bool, false, Run, ok, ◌>>=◌, Returns, arith, word, length, length-append,
  length-replicate, ltb, replicate, lt→ltb, ltb→lt,
}
use vlib.Vec.{Vec, vec_new_with_capacity}
use vlib.Vec.Contents.{IsValid, contents}
use vlib.Vec.PushAll.{push_all, push_all-append, push_all-Extends}
use vlib.BinaryTree.{
  BinaryNode, null, branch, BinaryTree, push, pre_order_walk, in_order_walk, post_order_walk,
  walked, bt_pre_order, bt_in_order, bt_post_order,
}

module _ {ℓ} {A : Type ℓ} where
  -- the data of the nodes: a node before its subtrees, between them, and behind them
  unfoldable pub pre_order : BinaryNode A → List A
  pre_order null = []
  pre_order (branch l x r) = x ∷ (pre_order l ++ pre_order r)

  unfoldable pub in_order : BinaryNode A → List A
  in_order null = []
  in_order (branch l x r) = in_order l ++ x ∷ in_order r

  unfoldable pub post_order : BinaryNode A → List A
  post_order null = []
  post_order (branch l x r) = post_order l ++ (post_order r ++ x ∷ [])

  abbrev pub size : BinaryNode A → ℕ
  size null = 0
  size (branch l x r) = suc (size l + size r)

  length-pre_order : (t : BinaryNode A) → length (pre_order t) ≡ size t
  unfolding pre_order
  length-pre_order null = refl
  length-pre_order (branch l x r) =
      omega
        (arith, length-pre_order l, length-pre_order r, length-append (pre_order l) (pre_order r))

  length-in_order : (t : BinaryNode A) → length (in_order t) ≡ size t
  unfolding in_order
  length-in_order null = refl
  length-in_order (branch l x r) =
      omega
        (arith, length-in_order l, length-in_order r, length-append (in_order l) (x ∷ in_order r))

  length-post_order : (t : BinaryNode A) → length (post_order t) ≡ size t
  unfolding post_order
  length-post_order null = refl
  length-post_order (branch l x r) = omega (
    arith,
    length-post_order l,
    length-post_order r,
    length-append (post_order l) (post_order r ++ x ∷ []),
    length-append (post_order r) (x ∷ []),
  )

module _ {ℓ} {A : Type ℓ} (zeroed : A) (allocated : Bool) where
  abbrev pub pushes : Vec A → List A → Run (Vec A)
  pushes = push_all zeroed allocated

  pub push-one : (v : Vec A) (x : A) → pushes v (x ∷ []) ≡ push zeroed allocated v x
  unfolding push push_all
  push-one v x = refl

  pub push-cons :
      (v : Vec A) (x : A) (xs : List A)
      → pushes v (x ∷ xs) ≡ (push zeroed allocated v x >>= λ u. pushes u xs)
  push-cons v x xs =
      push_all-append zeroed allocated v (x ∷ []) xs
      ∙ ap (λ r. r >>= λ u. pushes u xs) (push-one v x)

  ruleset push_laws = (push-cons, push_all-append)

  pre_order_walk-pushes :
      (t : BinaryNode A) (v : Vec A) → pre_order_walk zeroed allocated t v ≡ pushes v (pre_order t)
  unfolding pre_order_walk pre_order
  pre_order_walk-pushes null v = unfold push_all in refl
  pre_order_walk-pushes (branch l x r) v =
      simp (pre_order_walk-pushes l, pre_order_walk-pushes r, push-cons, push_all-append)

  in_order_walk-pushes :
      (t : BinaryNode A) (v : Vec A) → in_order_walk zeroed allocated t v ≡ pushes v (in_order t)
  unfolding in_order_walk in_order
  in_order_walk-pushes null v = unfold push_all in refl
  in_order_walk-pushes (branch l x r) v =
      simp (in_order_walk-pushes l, in_order_walk-pushes r, push-cons, push_all-append)

  post_order_walk-pushes :
      (t : BinaryNode A) (v : Vec A)
      → post_order_walk zeroed allocated t v ≡ pushes v (post_order t)
  unfolding post_order_walk post_order
  post_order_walk-pushes null v = unfold push_all in refl
  post_order_walk-pushes (branch l x r) v =
      simp (post_order_walk-pushes l, post_order_walk-pushes r, push-one, push_all-append)

  -- What a walk returns for data in the order `xs`: NULL if there are fewer than two nodes or no
  -- memory, and a vector of exactly these data otherwise.
  abbrev pub Lists : ℕ → List A → Option (Vec A) → Type ℓ
  Lists n xs none = ((n < 2) ⊎ (allocated ≡ false)) × Unit {ℓ}
  Lists n xs (some w) = IsValid w × (contents w ≡ xs)

  pub walked-Lists :
      (walk : Vec A → Run (Vec A)) (data_size n : ℕ) (xs : List A)
      → ((v : Vec A) → walk v ≡ pushes v xs)
      → length xs ≡ n
      → n < word
      → Returns (Lists n xs) (walked zeroed allocated walk data_size n)
  unfolding walked vec_new_with_capacity
  walked-Lists walk data_size n xs same sized small = elim (Bool-cases (ltb n 2)) [
    | inl few ↦
        let answer : Option (Vec A) = none in (answer, ground arith, (inl (ltb→lt n 2 few), tt))
    | inr enough ↦ elim (Bool-cases allocated) [
      | inr short ↦ let answer : Option (Vec A) = none in (answer, ground arith, (inr short, tt))
      | inl given ↦
          let start : Vec A = record {
            len = 0;
            cap = n;
            data_size = data_size;
            slots = replicate n zeroed;
          } in
          let valid : IsValid start = record {
            room = length-replicate n zeroed;
            bounded = omega arith;
            least = ground arith;
            small = small;
          } in
          let (w, run, (hw, c, cap)) =
            push_all-Extends zeroed allocated xs start valid (omega arith) in
          let answer : Option (Vec A) = some w in (answer, ground (arith, same start), (hw, c))
    ]
  ]

module _ {ℓ} {A : Type ℓ} (zeroed : A) (allocated : Bool) (tree : BinaryTree A) where
  -- For a tree whose num_el counts its nodes, the three walks return NULL only if there are fewer
  -- than two nodes or no memory, and a vector of exactly the data of all nodes otherwise, in
  -- pre-order, in order and in post-order.
  pub bt_walks-Lists :
      tree.num_el ≡ size tree.root
      → tree.num_el < word
      → Returns
          (Lists zeroed allocated tree.num_el (pre_order tree.root))
          (bt_pre_order zeroed allocated tree)
        × Returns
            (Lists zeroed allocated tree.num_el (in_order tree.root))
            (bt_in_order zeroed allocated tree)
        × Returns
            (Lists zeroed allocated tree.num_el (post_order tree.root))
            (bt_post_order zeroed allocated tree)
  unfolding bt_pre_order bt_in_order bt_post_order
  bt_walks-Lists counted small = (
    walked-Lists zeroed allocated _ tree.data_size tree.num_el (pre_order tree.root)
        (pre_order_walk-pushes zeroed allocated tree.root)
        (length-pre_order tree.root ∙ sym counted) small,
    walked-Lists zeroed allocated _ tree.data_size tree.num_el (in_order tree.root)
        (in_order_walk-pushes zeroed allocated tree.root) (length-in_order tree.root ∙ sym counted)
        small,
    walked-Lists zeroed allocated _ tree.data_size tree.num_el (post_order tree.root)
        (post_order_walk-pushes zeroed allocated tree.root)
        (length-post_order tree.root ∙ sym counted) small,
  )

  -- A tree with fewer than two nodes gives NULL, whatever its data.
  pub bt_walks_few :
      tree.num_el < 2
      → (bt_pre_order zeroed allocated tree ≡ ok none)
        × (bt_in_order zeroed allocated tree ≡ ok none)
        × (bt_post_order zeroed allocated tree ≡ ok none)
  unfolding bt_pre_order bt_in_order bt_post_order walked vec_new_with_capacity
  bt_walks_few h = let few = lt→ltb tree.num_el 2 h in (ground arith, ground arith, ground arith)
