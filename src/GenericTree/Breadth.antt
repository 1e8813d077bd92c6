-- ===== src/GenericTree/Breadth.antt =====
-- The search level by level finds a node whose key compares equal, and its place; malloc may refuse
-- places in the queue, and then it may miss one.
use mathlib.Core.Path.{subst}
use vlib.Base.{
  ℕ, zero, suc, ◌+◌, ◌++◌, ◌≤◌, ◌≡◌, refl, sym, ◌∙◌, List, [], ◌∷◌, Option, none, some, Bool, true,
  false, ◌||◌, ok, ◌>>=◌, arith, Bool-cases, inl, inr, Returns, returns, Returns-bind, Returns-map,
  Status, success, failure, from_option, ◌==◌,
}
use vlib.Cmp.{CmpFn, is_zero}
use vlib.Heap.{Heap, Malloc, IsMalloc, Grants}
use vlib.Queue.{QNode, Queue, queue_new, queue_enque, queue_free}
use vlib.Queue.Contents.{
  IsQueue, Enqueues, Dequeues, len-IsQueue, queue_new-IsQueue, queue_enque-Enqueues,
  queue_deque-Dequeues, queue_free-Frees,
}
use vlib.GenericTree.{
  TreeNode, tree_node, Children, no_child, child, Slot, QTreeNode, node_at, child_at,
  enque_children, breadth_first_visit, breadth_first_loop,
}
use vlib.GenericTree.Slots.{node_at-append}
use vlib.GenericTree.Operations.{size, children_size, breadth_first_find_node}
use vlib.GenericTree.Depth.{key_of, occurs, occurs_in, last_index}

last_index-append : (idx : ℕ) (slot : Slot) (i : ℕ) → last_index idx (slot ++ i ∷ []) ≡ i
last_index-append idx [] i = refl
last_index-append idx (j ∷ slot) i = last_index-append j slot i

behind : (h o x : Bool) → h ≡ false → ((h || o) || x) ≡ (x || o)
behind h o x e = ground arith

-- the comparison the other way round than in the search into the depth
abbrev pub test_back {ℓ} : {A : Type ℓ} → CmpFn A → A → A → Bool
test_back fn key k = is_zero (fn key k)

module _ {ℓ} {A : Type ℓ} (fn : CmpFn A) (key : A) (root : TreeNode A) where
  abbrev any_occurs : List (QTreeNode A) → Bool
  any_occurs [] = false
  any_occurs (x ∷ xs) = occurs (test_back fn key) x.node || any_occurs xs

  abbrev total : List (QTreeNode A) → ℕ
  total [] = 0
  total (x ∷ xs) = size x.node + total xs

  -- the queued slots belong to the tree
  abbrev IsPlaced : QTreeNode A → Type ℓ
  IsPlaced x = (node_at root x.slot ≡ ok x.node) × (x.idx ≡ last_index 0 x.slot)

  abbrev ArePlaced : List (QTreeNode A) → Type ℓ
  ArePlaced [] = Unit
  ArePlaced (x ∷ xs) = IsPlaced x × ArePlaced xs

  any_occurs-append :
      (xs ys : List (QTreeNode A)) → any_occurs (xs ++ ys) ≡ (any_occurs xs || any_occurs ys)
  any_occurs-append [] ys = refl
  any_occurs-append (x ∷ xs) ys = ground (arith, any_occurs-append xs ys)

  total-append : (xs ys : List (QTreeNode A)) → total (xs ++ ys) ≡ total xs + total ys
  total-append [] ys = omega arith
  total-append (x ∷ xs) ys = omega (arith, total-append xs ys)

  ArePlaced-append :
      (xs ys : List (QTreeNode A)) → ArePlaced xs → ArePlaced ys → ArePlaced (xs ++ ys)
  ArePlaced-append [] ys h k = k
  ArePlaced-append (x ∷ xs) ys (placed, h) k = (placed, ArePlaced-append xs ys h k)

  module _ (malloc : Malloc (QNode (QTreeNode A))) (laws : IsMalloc malloc) where
    -- the queue `w` stands for places of the tree that hold no more nodes than `bound`; the test
    -- passes in them only if `there`, and just then if malloc grants all requests
    abbrev Stands : ℕ → Bool → Queue (QTreeNode A) → Type ℓ
    Stands bound there w =
        (xs : List (QTreeNode A)) × IsQueue w xs
        × ArePlaced xs
        × (total xs ≤ bound)
        × (any_occurs xs ≡ true → there ≡ true)
        × (Grants malloc → any_occurs xs ≡ there)

    enque-Stands :
        (q : Queue (QTreeNode A)) (bound : ℕ) (there : Bool) (x : QTreeNode A)
        → Stands bound there q
        → IsPlaced x
        → Returns
            (λ (s, w). Stands (bound + size x.node) (there || occurs (test_back fn key) x.node) w)
            (queue_enque malloc q x)
    enque-Stands q bound there x (xs, h, placed, small, sound, exact) at =
        Returns-map _ (queue_enque-Enqueues malloc q xs x laws h) λ (s, w) e. gained s w e
      where
        gained :
            (s : Status) (w : Queue (QTreeNode A))
            → Enqueues malloc q xs x (s, w)
            → Stands (bound + size x.node) (there || occurs (test_back fn key) x.node) w
        gained success w e = (
          xs ++ x ∷ [],
          e,
          ArePlaced-append xs (x ∷ []) placed (at, tt),
          omega (arith, total-append xs (x ∷ [])),
          ground (arith, any_occurs-append xs (x ∷ []), sound),
          ground (arith, any_occurs-append xs (x ∷ []), exact),
        )
        gained failure w (e, refused) = (
          xs,
          e,
          placed,
          omega arith,
          ground (arith, sound),
          λ grants. absurd (grants q.heap.requests q.heap.cells refused),
        )

    restand :
        (b b' : ℕ) (t t' : Bool) (w : Queue (QTreeNode A))
        → Stands b t w
        → b ≤ b'
        → t ≡ t'
        → Stands b' t' w
    restand b b' t t' w (xs, h, placed, small, sound, exact) le same =
        (xs, h, placed, omega arith, λ e. sym same ∙ sound e, λ g. exact g ∙ same)

    -- the children `ts` stand in the array of `slot` from `i` on
    abbrev ArePresent : Slot → Children A → ℕ → Type ℓ
    ArePresent slot no_child i = Unit
    ArePresent slot (child t ts) i =
        (node_at root (slot ++ i ∷ []) ≡ ok t) × ArePresent slot ts (i + 1)

    child_at-ArePresent :
        (slot : Slot) (ts : Children A) (i : ℕ)
        → ((d : ℕ) (u : TreeNode A)
            → child_at ts d [] ≡ ok u
            → node_at root (slot ++ (i + d) ∷ []) ≡ ok u)
        → ArePresent slot ts i
    unfolding node_at
    child_at-ArePresent slot no_child i h = tt
    child_at-ArePresent slot (child t ts) i h =
        let here : i + 0 ≡ i = omega arith in
        (
          subst (λ m. node_at root (slot ++ m ∷ []) ≡ ok t) here (h 0 t refl),
          child_at-ArePresent slot ts (i + 1) λ d u e.
              let next : i + suc d ≡ i + 1 + d = omega arith in
              subst (λ m. node_at root (slot ++ m ∷ []) ≡ ok u) next (h (suc d) u e),
        )

    enque_children-Stands :
        (slot : Slot) (ts : Children A) (i : ℕ) (q : Queue (QTreeNode A)) (bound : ℕ) (there : Bool)
        → Stands bound there q
        → ArePresent slot ts i
        → Returns
            (Stands (bound + children_size ts) (there || occurs_in (test_back fn key) ts))
            (enque_children fn key malloc slot ts i q)
    unfolding enque_children size occurs
    enque_children-Stands slot no_child i q bound there h present =
        returns (restand _ _ _ _ q h (omega arith) (ground arith))
    enque_children-Stands slot (child t ts) i q bound there h (at, present) =
        Returns-bind _ _
          (enque-Stands q bound there (record { slot = slot ++ i ∷ []; idx = i; node = t }) h
            (at, sym (last_index-append 0 slot i)))
          λ (s, w) hw.
            Returns-map _
              (enque_children-Stands slot ts (i + 1) w (bound + size t)
                (there || occurs (test_back fn key) t) hw present)
              λ u hu. restand _ _ _ _ u hu (omega arith) (ground arith)

    -- what the search answers
    abbrev pub Answers : Bool → Option (Slot × ℕ) → Type ℓ
    Answers there none = (Grants malloc → there ≡ false)
    Answers there (some (slot, idx)) =
        (n : TreeNode A) × (node_at root slot ≡ ok n)
        × (test_back fn key (key_of n) ≡ true)
        × (idx ≡ last_index 0 slot)
        × (there ≡ true)

    weaken :
        (t t' : Bool) (r : Option (Slot × ℕ))
        → Answers t r
        → (t ≡ true → t' ≡ true)
        → (Grants malloc → t ≡ t')
        → Answers t' r
    weaken t t' none h f g = λ grants. sym (g grants) ∙ h grants
    weaken t t' (some (slot, idx)) (n, at, hit, index, there) f g = (n, at, hit, index, f there)

    abbrev Searcher : ℕ → Type ℓ
    Searcher n =
        (q : Queue (QTreeNode A)) (bound : ℕ) (there : Bool)
        → Stands bound there q
        → bound ≤ n
        → Returns (Answers there) (breadth_first_loop fn key malloc n q)

    visit-Answers :
        (n : ℕ) (slot : Slot) (idx : ℕ) (t : TreeNode A) (xs : List (QTreeNode A))
        (q : Queue (QTreeNode A)) (there : Bool)
        → Searcher n
        → IsQueue q xs
        → IsPlaced (record { slot = slot; idx = idx; node = t })
        → ArePlaced xs
        → size t + total xs ≤ suc n
        → ((occurs (test_back fn key) t || any_occurs xs) ≡ true → there ≡ true)
        → (Grants malloc → (occurs (test_back fn key) t || any_occurs xs) ≡ there)
        → Returns (Answers there) (
            breadth_first_visit fn key malloc
              (breadth_first_loop fn key malloc n)
              (record { slot = slot; idx = idx; node = t })
              q)
    unfolding breadth_first_visit size occurs node_at
    visit-Answers n slot idx (tree_node a c p k ts) xs q there go h (at, index) placed fuel sound
          exact =
        elim (Bool-cases (is_zero (fn key k))) [
          | inl hit ↦
              let found : there ≡ true = sound (ground arith) in
              rw hit (
                Returns-bind _ _ (queue_free-Frees false q xs h)
                  λ w f. returns (tree_node a c p k ts, at, hit, index, found))
          | inr miss ↦
              let present = child_at-ArePresent slot ts 0 (λ d u e.
                let zero_plus : 0 + d ≡ d = omega arith in
                subst (λ m. node_at root (slot ++ m ∷ []) ≡ ok u) (sym zero_plus)
                  (node_at-append root (tree_node a c p k ts) slot (d ∷ []) at ∙ e)) in
              rw miss (
                Returns-bind _ _
                  (enque_children-Stands slot ts 0 q (total xs) (any_occurs xs)
                    (xs, h, placed, omega arith, λ e. e, λ g. refl) present)
                  λ w hw. Returns-map _ (go w _ _ hw (omega arith)) λ r found.
                    let same = behind _ (occurs_in (test_back fn key) ts) (any_occurs xs) miss in
                    weaken _ there r found (λ e. sound (same ∙ e)) λ g. sym same ∙ exact g)
        ]

    size-pos : (t : TreeNode A) → 1 ≤ size t
    unfolding size
    size-pos (tree_node a c p k ts) = omega arith

    end-Answers :
        (q : Queue (QTreeNode A)) (xs : List (QTreeNode A)) (there : Bool)
        → IsQueue q xs
        → (Grants malloc → false ≡ there)
        → Returns (Answers there) (queue_free false q >>= λ _. ok none)
    end-Answers q xs there h exact =
        Returns-bind _ _ (queue_free-Frees false q xs h) λ w f. returns λ grants. sym (exact grants)

    visited :
        (n : ℕ)
        → Searcher n
        → (q : Queue (QTreeNode A)) (x : QTreeNode A) (xs : List (QTreeNode A)) (there : Bool)
        → ArePlaced (x ∷ xs)
        → total (x ∷ xs) ≤ suc n
        → (any_occurs (x ∷ xs) ≡ true → there ≡ true)
        → (Grants malloc → any_occurs (x ∷ xs) ≡ there)
        → (out : Option (QTreeNode A)) (r : Queue (QTreeNode A)) → Dequeues q (x ∷ xs) (out, r)
        → Returns (Answers there) (
            from_option out >>= λ cur.
            breadth_first_visit fn key malloc (breadth_first_loop fn key malloc n) cur r)
    visited n go q x xs there placed fuel sound exact none r (e, same) = cc
    visited n go q x xs there placed fuel sound exact (some y) r (rest, e, hr) =
        let placed' : ArePlaced (y ∷ rest) = subst ArePlaced e placed in
        let sound' : any_occurs (y ∷ rest) ≡ true → there ≡ true =
          subst (λ l. any_occurs l ≡ true → there ≡ true) e sound in
        let exact' : Grants malloc → any_occurs (y ∷ rest) ≡ there =
          subst (λ l. Grants malloc → any_occurs l ≡ there) e exact in
        visit-Answers n y.slot y.idx y.node rest r there go hr placed'.0 placed'.1
          (subst (λ l. total l ≤ suc n) e fuel) sound' exact'

    breadth_first_loop-Answers : (n : ℕ) → Searcher n
    unfolding breadth_first_loop
    breadth_first_loop-Answers zero q bound there ([], h, placed, small, sound, exact) fuel =
        let ended : (q.len == 0) ≡ true = ground (arith, len-IsQueue q [] h) in
        rw ended (end-Answers q [] there h exact)
    breadth_first_loop-Answers zero q bound there (x ∷ xs, h, placed, small, sound, exact) fuel =
        absurd (omega (arith, size-pos x.node))
    breadth_first_loop-Answers (suc n) q bound there ([], h, placed, small, sound, exact) fuel =
        let ended : (q.len == 0) ≡ true = ground (arith, len-IsQueue q [] h) in
        rw ended (end-Answers q [] there h exact)
    breadth_first_loop-Answers (suc n) q bound there (x ∷ xs, h, placed, small, sound, exact) fuel =
        let more : (q.len == 0) ≡ false = ground (arith, len-IsQueue q (x ∷ xs) h) in
        rw more (
          Returns-bind _ _ (queue_deque-Dequeues q (x ∷ xs) h) λ (out, r) d.
            visited n (breadth_first_loop-Answers n) q x xs there placed (omega arith) sound exact
              out r d)

    pub breadth_first_find_node-Answers :
        (heap : Heap (QNode (QTreeNode A)))
        → Returns
            (Answers (occurs (test_back fn key) root))
            (breadth_first_find_node fn malloc heap key root)
    unfolding breadth_first_find_node node_at
    breadth_first_find_node-Answers heap =
        Returns-bind _ _
          (enque-Stands (queue_new heap 16) 0 false (record { slot = []; idx = 0; node = root })
            ([], queue_new-IsQueue heap 16, tt, omega arith, λ e. e, λ g. refl) (refl, refl))
          λ (s, w) hw.
            breadth_first_loop-Answers (suc (size root)) w (size root)
              (occurs (test_back fn key) root) (restand _ _ _ _ w hw (omega arith) refl)
              (omega arith)
