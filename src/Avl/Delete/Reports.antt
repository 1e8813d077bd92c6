-- ===== src/Avl/Delete/Reports.antt =====
-- What avl_delete reports, counts and frees: it depends on the children of the node that is unlinked.
use mathlib.Core.Path.{subst}
use vlib.Base.{
  ◌+◌, ◌%◌, word, ℕ, ◌-◌, ◌++◌, ◌≡◌, refl, sym, ap, ◌∙◌, List, [], ◌∷◌, Ordering, Run, ok, fault,
  aborted, out_of_fuel, ◌>>=◌, Returns, Status, success, failure, arith, returns,
}
use vlib.Cmp.{CmpFn, IsCmp, cmp_self, sign, less, same, more}
use vlib.Avl.{Tree, nil, node, AvlTree}
use vlib.Avl.Shape.{keys, IsAscending, IsBehind, IsAscending-split, ordered_delete}
use vlib.Avl.Delete.{min_value_node, delete_node, delete_root, delete_rebalance, avl_delete}
use vlib.Avl.Delete.Removes.{delete_node-Deleted, min_value_node-first}
use vlib.Avl.Delete.Effects.{IsSearchTree}

bind-ok {ℓ κ} :
    {A : Type ℓ} {B : Type κ} (r : Run A) (f : A → Run B) (b : B)
    → (r >>= f) ≡ ok b
    → (a : A) × (r ≡ ok a) × (f a ≡ ok b)
bind-ok (ok a) f b e = (a, refl, e)
bind-ok fault f b e = cc
bind-ok aborted f b e = cc
bind-ok out_of_fuel f b e = cc

-- `num_el--` behind a success
abbrev pub count_down : Status → ℕ → ℕ
count_down success n = (n + word - 1) % word
count_down failure n = n

counted :
    (s : Status) (n : ℕ)
    → ◌≡◌ {A = ℕ}
        (elim s as (λ x. ℕ) [ success ↦ (n + word - 1) % word | failure ↦ n ])
        (count_down s n)
counted success n = refl
counted failure n = refl

module _ {ℓ} {A : Type ℓ} where
  -- the node with the least key
  abbrev pub leftmost : Tree A → Tree A
  leftmost nil = nil
  leftmost (node h nil k r) = node h nil k r
  leftmost (node h (node h' a x b) k r) = leftmost (node h' a x b)

  -- the node that goes when the node at hand is deleted: with two children, the next one
  abbrev pub replaced : Tree A → Tree A
  replaced nil = nil
  replaced (node h nil k r) = node h nil k r
  replaced (node h (node h' a x b) k nil) = node h (node h' a x b) k nil
  replaced (node h (node h' a x b) k (node h'' c y d)) = leftmost (node h'' c y d)

  -- The result and the freed keys when this node goes: a leaf and a missing node are reported as a
  -- failure, and a node with one child as a success, with the key of the child freed.
  abbrev pub report : Tree A → Status × List A
  report nil = (failure, [])
  report (node h nil k nil) = (failure, [])
  report (node h nil k (node h' a x b)) = (success, x ∷ [])
  report (node h (node h' a x b) k r) = (success, x ∷ [])

  -- rebalancing behind a call keeps what the call reports
  carried :
      (run : Run (Tree A × Status × List A)) (above : Tree A → Run (Tree A))
      → (t' : Tree A) (done : Status) (freed : List A) (out : Status × List A)
      → ((t : Tree A) (done' : Status) (freed' : List A)
          → run ≡ ok (t, done', freed')
          → (done', freed') ≡ out)
      → (run >>= λ (t, d, f). ◌>>=◌ {B = Tree A × Status × List A} (above t) λ u. ok (u, d, f))
        ≡ ok (t', done, freed)
      → (done, freed) ≡ out
  carried (ok (t, d, f)) above t' done freed out reports ran =
      let (u, ran', e) = bind-ok (above t) _ (t', done, freed) ran in
      let told = reports t d f refl in cc
  carried fault above t' done freed out reports ran = cc
  carried aborted above t' done freed out reports ran = cc
  carried out_of_fuel above t' done freed out reports ran = cc

module _ {ℓ} {A : Type ℓ} (cmp : CmpFn A) where
  -- the node where the search for the key ends
  abbrev pub sought : A → Tree A → Tree A
  sought key nil = nil
  sought key (node h l k r) =
      let left = sought key l in
      let right = sought key r in
      elim (cmp key k) [ Ordering.lt ↦ left | Ordering.eq ↦ node h l k r | Ordering.gt ↦ right ]

  module _ (key : A) (h : ℕ) (l : Tree A) (k : A) (r : Tree A) where
    sought-lt : cmp key k ≡ Ordering.lt → sought key (node h l k r) ≡ sought key l
    sought-lt e = rw (e, sought)

    sought-eq : cmp key k ≡ Ordering.eq → sought key (node h l k r) ≡ node h l k r
    sought-eq e = rw (e, sought)

    sought-gt : cmp key k ≡ Ordering.gt → sought key (node h l k r) ≡ sought key r
    sought-gt e = rw (e, sought)

    delete_node-lt :
        cmp key k ≡ Ordering.lt
        → delete_node cmp failure key (node h l k r)
          ≡ ◌>>=◌ {B = Tree A × Status × List A} (delete_node cmp failure key l) (λ (t, d, f).
            ◌>>=◌ {B = Tree A × Status × List A} (delete_rebalance t k r) λ u. ok (u, d, f))
    unfolding delete_node
    delete_node-lt e = rw (e, delete_node)

    delete_node-gt :
        cmp key k ≡ Ordering.gt
        → delete_node cmp failure key (node h l k r)
          ≡ ◌>>=◌ {B = Tree A × Status × List A} (delete_node cmp failure key r) (λ (t, d, f).
            ◌>>=◌ {B = Tree A × Status × List A} (delete_rebalance l k t) λ u. ok (u, d, f))
    unfolding delete_node
    delete_node-gt e = rw (e, delete_node)

    delete_node-eq :
        cmp key k ≡ Ordering.eq
        → delete_node cmp failure key (node h l k r)
          ≡ delete_root failure l r (λ tmp. delete_node cmp failure tmp r)
    unfolding delete_node
    delete_node-eq e = rw (e, delete_node)

  module _ (laws : IsCmp cmp) where
    -- the least key of an ordered tree leads to its leftmost node, which has no left child
    replaced-sought :
        (m : A) (rest : List A) (h : ℕ) (l : Tree A) (k : A) (r : Tree A)
        → IsAscending cmp (keys (node h l k r))
        → keys (node h l k r) ≡ m ∷ rest
        → replaced (sought m (node h l k r)) ≡ leftmost (node h l k r)
    unfolding keys
    replaced-sought m rest h nil k r asc e =
        let head : k ≡ m = cc in
        let self : cmp m k ≡ Ordering.eq = rw head (cmp_self cmp laws m) in
        ap replaced (sought-eq m h nil k r self)
    replaced-sought m rest h (node h' a x b) k r asc e =
        let (al, bl, br, ar) = IsAscending-split cmp laws k (keys (node h' a x b)) (keys r) asc in
        let (m', least, (rest', first)) = min_value_node-first cmp h' a x b in
        let head : m' ∷ (rest' ++ k ∷ keys r) ≡ m ∷ rest =
          ap (λ xs. xs ++ k ∷ keys r) (sym first) ∙ e in
        let at : m' ≡ m = cc in
        let below : cmp m k ≡ Ordering.lt =
          let (f, g) : IsBehind cmp k (m' ∷ rest') = subst (IsBehind cmp k) first bl in
          ground (arith, laws.exchange m k) in
        ap replaced (sought-lt m h (node h' a x b) k r below)
        ∙ replaced-sought m rest' h' a x b al (first ∙ ap (λ z. z ∷ rest') at)

    delete_root-report :
        (key : A) (l : Tree A) (h : ℕ) (k : A) (r t' : Tree A) (done : Status) (freed : List A)
        → (from : A → Run (Tree A × Status × List A)) → IsAscending cmp (keys r)
        → ((m : A) (r' : Tree A) (done : Status) (freed : List A)
            → from m ≡ ok (r', done, freed)
            → (done, freed) ≡ report (replaced (sought m r)))
        → delete_root failure l r from ≡ ok (t', done, freed)
        → (done, freed) ≡ report (replaced (node h l k r))
    unfolding delete_root keys
    delete_root-report key nil h k nil t' done freed from asc ih ran = cc
    delete_root-report key nil h k (node h' a x b) t' done freed from asc ih ran =
        let (t, reb, e) = bind-ok (delete_rebalance a x b) _ (t', done, freed) ran in cc
    delete_root-report key (node h' a x b) h k nil t' done freed from asc ih ran =
        let (t, reb, e) = bind-ok (delete_rebalance a x b) _ (t', done, freed) ran in cc
    delete_root-report key (node h' a x b) h k (node h'' c y d) t' done freed from asc ih ran =
        let (m, least, ran₁) = bind-ok (min_value_node (node h'' c y d)) _ (t', done, freed) ran in
        let (m', least', (rest', first)) = min_value_node-first cmp h'' c y d in
        let at : m' ≡ m = cc in
        let goes : replaced (sought m (node h'' c y d)) ≡ leftmost (node h'' c y d) =
          replaced-sought m rest' h'' c y d asc (first ∙ ap (λ z. z ∷ rest') at) in
        rw (sym goes) (
          carried (from m) (λ r'. delete_rebalance (node h' a x b) m r') t' done freed
            (report (replaced (sought m (node h'' c y d)))) (ih m) ran₁)

    -- a run of delete_node that returns reports by the node that goes
    delete_node-report :
        (key : A) (t t' : Tree A) (done : Status) (freed : List A)
        → IsAscending cmp (keys t)
        → delete_node cmp failure key t ≡ ok (t', done, freed)
        → (done, freed) ≡ report (replaced (sought key t))
    unfolding delete_node keys
    delete_node-report key nil t' done freed asc ran = cc
    delete_node-report key (node h l k r) t' done freed asc ran =
        let (al, bl, br, ar) = IsAscending-split cmp laws k (keys l) (keys r) asc in
        elim (sign (cmp key k)) [
          | less e ↦ rw (sought-lt key h l k r e) (
              carried (delete_node cmp failure key l) (λ l'. delete_rebalance l' k r) t' done freed
                _ (λ l' done' freed' ran'. delete_node-report key l l' done' freed' al ran')
                (sym (delete_node-lt key h l k r e) ∙ ran))
          | same e ↦ rw (sought-eq key h l k r e) (
              delete_root-report key l h k r t' done freed (λ tmp. delete_node cmp failure tmp r) ar
                (λ m r' done' freed' ran'. delete_node-report m r r' done' freed' ar ran')
                (sym (delete_node-eq key h l k r e) ∙ ran))
          | more e ↦ rw (sought-gt key h l k r e) (
              carried (delete_node cmp failure key r) (λ r'. delete_rebalance l k r') t' done freed
                _ (λ r' done' freed' ran'. delete_node-report key r r' done' freed' ar ran')
                (sym (delete_node-gt key h l k r e) ∙ ran))
        ]

    -- For a total preorder and a tree that is ordered and balanced, with any number of nodes, avl_delete
    -- leaves the keys without the given one, and what else it does is set by the node that goes: the
    -- one where the search for the key ends, or, where that one has two children, the leftmost of its
    -- right subtree. If there is no such node or it is a leaf, the call reports a failure, frees nothing
    -- and keeps num_el. If it has one child, left or right, the call reports a success, takes one off
    -- num_el modulo 2^64, and frees the key of the child and no other.
    pub avl_delete-report :
        (tree : AvlTree A) (key : A)
        → IsSearchTree cmp tree
        → Returns
            (λ (s, w, freed).
              (keys w.root ≡ ordered_delete cmp key (keys tree.root))
              × ((s, freed) ≡ report (replaced (sought key tree.root)))
              × (w.num_el ≡ count_down s tree.num_el))
            (avl_delete cmp tree key)
    unfolding avl_delete
    avl_delete-report tree key (asc, avl) =
        let ((t', done, freed), ran, i) =
          delete_node-Deleted cmp laws failure key tree.root avl asc in
        let told = delete_node-report key tree.root t' done freed asc ran in
        rw ran (returns (i.removed, told, counted done tree.num_el))
