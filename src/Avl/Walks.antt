-- ===== src/Avl/Walks.antt =====
-- src/avl_tree.c: the walks into a vector, as those of the binary tree, and the free walk.
use vlib.Base.{
  true, ◌<◌, ◌≡◌, refl, sym, ◌∙◌, List, [], ◌∷◌, ◌++◌, Option, Bool, Run, ok, ◌>>=◌, Returns, arith,
  length, length-append, word, if◌then◌else◌,
}
use vlib.Vec.{Vec}
use vlib.Vec.PushAll.{push_all, push_all-append}
use vlib.BinaryTree.{push, walked}
use vlib.BinaryTree.Walks.{Lists, pushes, push-one, push-cons, walked-Lists}
use vlib.Avl.{Tree, nil, node, AvlTree}
use vlib.Avl.Shape.{keys}

module _ {ℓ} {A : Type ℓ} where
  -- the keys handed to the free function, in order
  unfoldable pub avl_free_walk : Tree A → List A
  avl_free_walk nil = []
  avl_free_walk (node h l k r) = avl_free_walk l ++ (avl_free_walk r ++ k ∷ [])

  -- The root pointer stays; num_el is set to 0.
  unfoldable pub avl_tree_free : Bool → AvlTree A → List A × AvlTree A
  unfolding avl_free_walk
  avl_tree_free fn tree = (if fn then avl_free_walk tree.root else [], record tree { num_el = 0 })

  -- a node's key before its subtrees
  unfoldable pub pre_keys : Tree A → List A
  pre_keys nil = []
  pre_keys (node h l k r) = k ∷ (pre_keys l ++ pre_keys r)

  length-pre_keys : (t : Tree A) → length (pre_keys t) ≡ length (keys t)
  unfolding pre_keys keys
  length-pre_keys nil = refl
  length-pre_keys (node h l k r) = omega (
    arith,
    length-pre_keys l,
    length-pre_keys r,
    length-append (pre_keys l) (pre_keys r),
    length-append (keys l) (k ∷ keys r),
  )

  length-avl_free_walk : (t : Tree A) → length (avl_free_walk t) ≡ length (keys t)
  unfolding avl_free_walk keys
  length-avl_free_walk nil = refl
  length-avl_free_walk (node h l k r) = omega (
    arith,
    length-avl_free_walk l,
    length-avl_free_walk r,
    length-append (avl_free_walk l) (avl_free_walk r ++ k ∷ []),
    length-append (avl_free_walk r) (k ∷ []),
    length-append (keys l) (k ∷ keys r),
  )

module _ {ℓ} {A : Type ℓ} (zeroed : A) (allocated : Bool) where
  unfoldable pub avl_pre_walk : Tree A → Vec A → Run (Vec A)
  unfolding push
  avl_pre_walk nil v = ok v
  avl_pre_walk (node h l k r) v =
      push zeroed allocated v k >>= λ u. avl_pre_walk l u >>= λ w. avl_pre_walk r w

  unfoldable pub avl_in_walk : Tree A → Vec A → Run (Vec A)
  unfolding push
  avl_in_walk nil v = ok v
  avl_in_walk (node h l k r) v =
      avl_in_walk l v >>= λ u. push zeroed allocated u k >>= λ w. avl_in_walk r w

  unfoldable pub avl_post_walk : Tree A → Vec A → Run (Vec A)
  unfolding push
  avl_post_walk nil v = ok v
  avl_post_walk (node h l k r) v =
      avl_post_walk l v >>= λ u. avl_post_walk r u >>= λ w. push zeroed allocated w k

  unfoldable pub avl_pre_order : AvlTree A → Run (Option (Vec A))
  unfolding walked avl_pre_walk
  avl_pre_order tree = walked zeroed allocated (avl_pre_walk tree.root) tree.key_size tree.num_el

  unfoldable pub avl_in_order : AvlTree A → Run (Option (Vec A))
  unfolding walked avl_in_walk
  avl_in_order tree = walked zeroed allocated (avl_in_walk tree.root) tree.key_size tree.num_el

  unfoldable pub avl_post_order : AvlTree A → Run (Option (Vec A))
  unfolding walked avl_post_walk
  avl_post_order tree = walked zeroed allocated (avl_post_walk tree.root) tree.key_size tree.num_el

  avl_pre_walk-pushes :
      (t : Tree A) (v : Vec A) → avl_pre_walk t v ≡ pushes zeroed allocated v (pre_keys t)
  unfolding avl_pre_walk pre_keys
  avl_pre_walk-pushes nil v = unfold push_all in refl
  avl_pre_walk-pushes (node h l k r) v =
      simp (avl_pre_walk-pushes l, avl_pre_walk-pushes r, push-cons, push_all-append)

  avl_in_walk-pushes :
      (t : Tree A) (v : Vec A) → avl_in_walk t v ≡ pushes zeroed allocated v (keys t)
  unfolding avl_in_walk keys
  avl_in_walk-pushes nil v = unfold push_all in refl
  avl_in_walk-pushes (node h l k r) v =
      simp (avl_in_walk-pushes l, avl_in_walk-pushes r, push-cons, push_all-append)

  avl_post_walk-pushes :
      (t : Tree A) (v : Vec A) → avl_post_walk t v ≡ pushes zeroed allocated v (avl_free_walk t)
  unfolding avl_post_walk avl_free_walk
  avl_post_walk-pushes nil v = unfold push_all in refl
  avl_post_walk-pushes (node h l k r) v =
      simp (avl_post_walk-pushes l, avl_post_walk-pushes r, push-one, push_all-append)

module _ {ℓ} {A : Type ℓ} (zeroed : A) (allocated : Bool) (tree : AvlTree A) where
  -- For a tree whose num_el counts its keys, the three walks return NULL only if there are fewer than
  -- two keys or no memory. Otherwise avl_in_order returns a vector of exactly the keys from
  -- left to right, avl_pre_order one of the keys with each node before its subtrees, and avl_post_order one
  -- of the keys in the order in which avl_tree_free hands them to a free function.
  pub avl_walks-Lists :
      tree.num_el ≡ length (keys tree.root)
      → tree.num_el < word
      → Returns
          (Lists zeroed allocated tree.num_el (keys tree.root))
          (avl_in_order zeroed allocated tree)
        × Returns
            (Lists zeroed allocated tree.num_el (pre_keys tree.root))
            (avl_pre_order zeroed allocated tree)
        × Returns
            (Lists zeroed allocated tree.num_el (avl_tree_free true tree).0)
            (avl_post_order zeroed allocated tree)
  unfolding avl_in_order avl_pre_order avl_post_order avl_tree_free
  avl_walks-Lists counted small = (
    walked-Lists zeroed allocated _ tree.key_size tree.num_el (keys tree.root)
        (avl_in_walk-pushes zeroed allocated tree.root) (sym counted) small,
    walked-Lists zeroed allocated _ tree.key_size tree.num_el (pre_keys tree.root)
        (avl_pre_walk-pushes zeroed allocated tree.root) (length-pre_keys tree.root ∙ sym counted)
        small,
    walked-Lists zeroed allocated _ tree.key_size tree.num_el (avl_free_walk tree.root)
        (avl_post_walk-pushes zeroed allocated tree.root)
        (length-avl_free_walk tree.root ∙ sym counted) small,
  )
