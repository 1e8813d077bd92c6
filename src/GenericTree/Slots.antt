-- ===== src/GenericTree/Slots.antt =====
-- The keys of a tree and its parent fields, and what a change of the node in one slot does to them.
use mathlib.Core.Path.{subst}
use mathlib.Core.List.Perm
use mathlib.Core.List.{append_assoc, perm_middle, perm_append_comm}
use vlib.Base.{
  arith, ◌≤◌, ℕ, zero, suc, ◌++◌, ◌≡◌, ◌≢◌, refl, sym, ap, ◌∙◌, List, [], ◌∷◌, Perm, Run, ok,
  Returns, returns, Returns-bind,
}
use vlib.Heap.{Ptr, null}
use vlib.GenericTree.{
  TreeNode, tree_node, Children, no_child, child, Slot, node_at, child_at, change_at, change_child,
  parent_of, tree_node_free, children_free, len_of,
}

module _ {ℓ} {A : Type ℓ} where
  -- the keys, those of a node before those of its children
  unfoldable mutual
    pub keys : TreeNode A → List A
    keys (tree_node a c p k ts) = k ∷ children_keys ts

    pub children_keys : Children A → List A
    children_keys no_child = []
    children_keys (child t ts) = keys t ++ children_keys ts

  -- no address is null, and every `parent` field below the root holds the address that the parent
  -- has now
  unfoldable mutual
    pub IsLinked : TreeNode A → Type 0
    IsLinked (tree_node a c p k ts) = (a ≢ null) × AreLinked a ts

    pub AreLinked : Ptr → Children A → Type 0
    AreLinked a no_child = Unit
    AreLinked a (child t ts) = (parent_of t ≡ a) × IsLinked t × AreLinked a ts

  -- every node has places for all its children, and for no more than `m`
  unfoldable mutual
    pub IsRoomy : ℕ → TreeNode A → Type 0
    IsRoomy m (tree_node a c p k ts) = (len_of ts ≤ c) × (c ≤ m) × AreRoomy m ts

    pub AreRoomy : ℕ → Children A → Type 0
    AreRoomy m no_child = Unit
    AreRoomy m (child t ts) = IsRoomy m t × AreRoomy m ts

  mutual
    unfolding IsRoomy

    pub IsRoomy-weaken : (m m' : ℕ) (t : TreeNode A) → m ≤ m' → IsRoomy m t → IsRoomy m' t
    IsRoomy-weaken m m' (tree_node a c p k ts) le (fits, few, h) =
        (fits, omega arith, AreRoomy-weaken m m' ts le h)

    pub AreRoomy-weaken : (m m' : ℕ) (ts : Children A) → m ≤ m' → AreRoomy m ts → AreRoomy m' ts
    AreRoomy-weaken m m' no_child le h = tt
    AreRoomy-weaken m m' (child t ts) le (h, hs) =
        (IsRoomy-weaken m m' t le h, AreRoomy-weaken m m' ts le hs)

  mutual
    unfolding node_at IsRoomy

    pub node_at-IsRoomy :
        (m : ℕ) (t n : TreeNode A) (path : Slot) → node_at t path ≡ ok n → IsRoomy m t → IsRoomy m n
    node_at-IsRoomy m t n [] e h = let same : t ≡ n = cc in subst (IsRoomy m) same h
    node_at-IsRoomy m (tree_node a c p k ts) n (i ∷ path) e (fits, few, h) =
        child_at-IsRoomy m ts n i path e h

    child_at-IsRoomy :
        (m : ℕ) (ts : Children A) (n : TreeNode A) (i : ℕ) (path : Slot)
        → child_at ts i path ≡ ok n
        → AreRoomy m ts
        → IsRoomy m n
    child_at-IsRoomy m no_child n i path e h = cc
    child_at-IsRoomy m (child u ts) n zero path e (h, hs) = node_at-IsRoomy m u n path e h
    child_at-IsRoomy m (child u ts) n (suc i) path e (h, hs) = child_at-IsRoomy m ts n i path e hs

  mutual
    unfolding node_at

    pub node_at-append :
        (root t : TreeNode A) (slot path : Slot)
        → node_at root slot ≡ ok t
        → node_at root (slot ++ path) ≡ node_at t path
    node_at-append root t [] path e = let same : root ≡ t = cc in rw same
    node_at-append (tree_node a c p k ts) t (i ∷ slot) path e = child_at-append ts t i slot path e

    pub child_at-append :
        (ts : Children A) (t : TreeNode A) (i : ℕ) (slot path : Slot)
        → child_at ts i slot ≡ ok t
        → child_at ts i (slot ++ path) ≡ node_at t path
    child_at-append no_child t i slot path e = cc
    child_at-append (child u ts) t zero slot path e = node_at-append u t slot path e
    child_at-append (child u ts) t (suc i) slot path e = child_at-append ts t i slot path e

  pub perm_shift : (xs k r : List A) → Perm (xs ++ (k ++ r)) (k ++ (xs ++ r))
  perm_shift xs k r =
      rw (← append_assoc xs k r, ← append_assoc k xs r)
        (Perm.append_right r (perm_append_comm xs k))

  mutual
    unfolding tree_node_free keys

    tree_node_free-perm : (t : TreeNode A) → Perm (tree_node_free t) (keys t)
    tree_node_free-perm (tree_node a c p k ts) =
        Perm.trans (perm_append_comm (children_free ts) (k ∷ []))
          (Perm.cons k (children_free-perm ts))

    pub children_free-perm : (ts : Children A) → Perm (children_free ts) (children_keys ts)
    children_free-perm no_child = Perm.rfl
    children_free-perm (child t ts) = Perm.append (tree_node_free-perm t) (children_free-perm ts)

  -- `t'` is `t` with the node `n` replaced by `n'`
  abbrev pub Swaps : List A → List A → List A → List A → Type ℓ
  Swaps n n' t t' = (xs ys : List A) → Perm (xs ++ n') (ys ++ n) → Perm (xs ++ t') (ys ++ t)

  Swaps-cons : (n n' t t' : List A) (k : A) → Swaps n n' t t' → Swaps n n' (k ∷ t) (k ∷ t')
  Swaps-cons n n' t t' k h xs ys e =
      Perm.trans (perm_middle xs t')
        (Perm.trans (Perm.cons k (h xs ys e)) (Perm.symm (perm_middle ys t)))

  Swaps-front : (n n' t t' r : List A) → Swaps n n' t t' → Swaps n n' (t ++ r) (t' ++ r)
  Swaps-front n n' t t' r h xs ys e =
      rw (← append_assoc xs t' r, ← append_assoc ys t r) (Perm.append_right r (h xs ys e))

  Swaps-back : (n n' t t' r : List A) → Swaps n n' t t' → Swaps n n' (r ++ t) (r ++ t')
  Swaps-back n n' t t' r h xs ys e =
      Perm.trans (perm_shift xs r t')
        (Perm.trans (Perm.append_left r (h xs ys e)) (Perm.symm (perm_shift ys r t)))

  pub record Replaces (n n' : TreeNode A) (path : Slot) (t t' : TreeNode A) : Type ℓ where
    pub at_slot : node_at t' path ≡ ok n'
    pub same : n' ≡ n → t' ≡ t
    pub swaps : Swaps (keys n) (keys n') (keys t) (keys t')
    pub same_parent : parent_of n' ≡ parent_of n → parent_of t' ≡ parent_of t
    pub links : parent_of n' ≡ parent_of n → IsLinked n' → IsLinked t → IsLinked t'
    pub rooms : (m : ℕ) → IsRoomy m n' → IsRoomy m t → IsRoomy m t'

  record ReplacesIn (n n' : TreeNode A) (i : ℕ) (path : Slot) (ts us : Children A) : Type ℓ where
    at_slot : child_at us i path ≡ ok n'
    same : n' ≡ n → us ≡ ts
    swaps : Swaps (keys n) (keys n') (children_keys ts) (children_keys us)
    links : (a : Ptr) → parent_of n' ≡ parent_of n → IsLinked n' → AreLinked a ts → AreLinked a us
    same_len : len_of us ≡ len_of ts
    rooms : (m : ℕ) → IsRoomy m n' → AreRoomy m ts → AreRoomy m us

  module _ {κ} {R : Type κ} (f : TreeNode A → Run (R × TreeNode A)) (n n' : TreeNode A) (r : R)
      (at_node : f n ≡ ok (r, n')) where
    mutual
      unfolding node_at change_at keys IsLinked IsRoomy

      pub change_at-Replaces :
          (t : TreeNode A) (path : Slot)
          → node_at t path ≡ ok n
          → Returns (λ (out, t'). (out ≡ r) × Replaces n n' path t t') (change_at f t path)
      change_at-Replaces t [] e =
          let same : t ≡ n = cc in
          subst (λ z. Returns (λ (out, t'). (out ≡ r) × Replaces n n' [] z t') (f z)) (sym same)
            (rw at_node (
              returns (
                refl,
                record {
                  at_slot = refl;
                  same = λ e. e;
                  swaps = λ xs ys h. h;
                  same_parent = λ q. q;
                  links = λ q ln lt. ln;
                  rooms = λ m hn ht. hn;
                },
              )))
      change_at-Replaces (tree_node a c p k ts) (i ∷ path) e =
          Returns-bind _ _ (change_child-ReplacesIn ts i path e) λ (out, us) (same, h). returns (
            same,
            record {
              at_slot = h.at_slot;
              same = λ e. ap (tree_node a c p k) (h.same e);
              swaps = Swaps-cons (keys n) (keys n') (children_keys ts) (children_keys us) k h.swaps;
              same_parent = λ q. refl;
              links = λ q ln (na, lt). (na, h.links a q ln lt);
              rooms = λ m hn (fits, few, ht).
                  let len = h.same_len in (omega arith, few, h.rooms m hn ht);
            },
          )

      change_child-ReplacesIn :
          (ts : Children A) (i : ℕ) (path : Slot)
          → child_at ts i path ≡ ok n
          → Returns
              (λ (out, us). (out ≡ r) × ReplacesIn n n' i path ts us)
              (change_child f ts i path)
      change_child-ReplacesIn no_child i path e = cc
      change_child-ReplacesIn (child t ts) zero path e =
          Returns-bind _ _ (change_at-Replaces t path e) λ (out, u) (same, h). returns (
            same,
            record {
              at_slot = h.at_slot;
              same = λ e. ap (λ z. child z ts) (h.same e);
              swaps = Swaps-front (keys n) (keys n') (keys t) (keys u) (children_keys ts) h.swaps;
              links = λ a q ln (pt, lt, lts). (h.same_parent q ∙ pt, h.links q ln lt, lts);
              same_len = refl;
              rooms = λ m hn (ht, hts). (h.rooms m hn ht, hts);
            },
          )
      change_child-ReplacesIn (child t ts) (suc i) path e =
          Returns-bind _ _ (change_child-ReplacesIn ts i path e) λ (out, us) (same, h). returns (
            same,
            record {
              at_slot = h.at_slot;
              same = λ e. ap (child t) (h.same e);
              swaps =
                  Swaps-back (keys n) (keys n') (children_keys ts) (children_keys us) (keys t)
                    h.swaps;
              links = λ a q ln (pt, lt, lts). (pt, lt, h.links a q ln lts);
              same_len = ap suc h.same_len;
              rooms = λ m hn (ht, hts). (ht, h.rooms m hn hts);
            },
          )
