-- ===== src/BinaryTree/Bfs/Finds.antt =====
-- The search finds the elements of the tree.
use mathlib.Core.Path.{subst, ap}
use vlib.Base.{
  sym, ℕ, zero, suc, ◌+◌, ◌++◌, ◌≤◌, ◌≡◌, ◌∙◌, refl, List, [], ◌∷◌, Bool, true, false, ◌||◌, Option,
  none, some, ok, ◌>>=◌, Returns, returns, Returns-bind, Returns-map, Status, success, failure,
  arith, ◌==◌, Bool-cases, inl, inr, from_option,
}
use vlib.Cmp.{CmpFn, is_zero}
use vlib.Heap.{Heap, Malloc, IsMalloc, Grants}
use vlib.Queue.{QNode, Queue, queue_new, queue_free}
use vlib.Queue.Contents.{
  IsQueue, Enqueues, Dequeues, len-IsQueue, queue_new-IsQueue, queue_enque-Enqueues,
  queue_deque-Dequeues, queue_free-Frees,
}
use vlib.BinaryTree.{BinaryNode, BinaryTree, null, branch}
use vlib.BinaryTree.Bfs.{size, enque_child, bfs_visit, bfs_loop, bfs, bt_bfs}

module _ {ℓ} {A : Type ℓ} (fn : CmpFn A) (needle : A) where
  -- an element of the tree compares equal
  abbrev pub occurs : BinaryNode A → Bool
  occurs null = false
  occurs (branch l x r) = is_zero (fn x needle) || (occurs l || occurs r)

  abbrev any_occurs : List (BinaryNode A) → Bool
  any_occurs [] = false
  any_occurs (t ∷ ts) = occurs t || any_occurs ts

  abbrev total : List (BinaryNode A) → ℕ
  total [] = 0
  total (t ∷ ts) = size t + total ts

  -- no null pointers
  abbrev AreNodes : List (BinaryNode A) → Type 0
  AreNodes [] = Unit
  AreNodes (t ∷ ts) = (1 ≤ size t) × AreNodes ts

  any_occurs-append :
      (ts us : List (BinaryNode A)) → any_occurs (ts ++ us) ≡ (any_occurs ts || any_occurs us)
  any_occurs-append [] us = refl
  any_occurs-append (t ∷ ts) us = ground (arith, any_occurs-append ts us)

  total-append : (ts us : List (BinaryNode A)) → total (ts ++ us) ≡ total ts + total us
  total-append [] us = omega arith
  total-append (t ∷ ts) us = omega (arith, total-append ts us)

  AreNodes-append : (ts us : List (BinaryNode A)) → AreNodes ts → AreNodes us → AreNodes (ts ++ us)
  AreNodes-append [] us h k = k
  AreNodes-append (t ∷ ts) us (one, h) k = (one, AreNodes-append ts us h k)

  module _ (malloc : Malloc (QNode (BinaryNode A))) (laws : IsMalloc malloc) where
    -- the queue after `t` was to be added to the nodes `ts`: it may be missing if malloc refuses
    abbrev Gains : List (BinaryNode A) → BinaryNode A → Queue (BinaryNode A) → Type ℓ
    Gains ts t w =
        (us : List (BinaryNode A)) × IsQueue w us
        × AreNodes us
        × (total us ≤ total ts + size t)
        × (any_occurs us ≡ true → (any_occurs ts || occurs t) ≡ true)
        × (Grants malloc → any_occurs us ≡ (any_occurs ts || occurs t))

    enque_child-Gains :
        (q : Queue (BinaryNode A)) (ts : List (BinaryNode A)) (t : BinaryNode A)
        → IsQueue q ts
        → AreNodes ts
        → Returns (Gains ts t) (enque_child malloc fn needle q t)
    unfolding enque_child
    enque_child-Gains q ts null h nodes =
        returns (ts, h, nodes, omega arith, ground arith, ground arith)
    enque_child-Gains q ts (branch l x r) h nodes =
        Returns-bind _ _ (queue_enque-Enqueues malloc q ts (branch l x r) laws h)
          λ (s, w) e. gained s w e
      where
        t : BinaryNode A
        t = branch l x r

        gained :
            (s : Status) (w : Queue (BinaryNode A))
            → Enqueues malloc q ts t (s, w)
            → Returns (Gains ts t) (ok w)
        gained success w e = returns (
          ts ++ t ∷ [],
          e,
          AreNodes-append ts (t ∷ []) nodes (omega arith, tt),
          omega (arith, total-append ts (t ∷ [])),
          ground (arith, any_occurs-append ts (t ∷ [])),
          ground (arith, any_occurs-append ts (t ∷ [])),
        )
        gained failure w (e, refused) = returns (
          ts,
          e,
          nodes,
          omega arith,
          ground arith,
          λ grants. absurd (grants q.heap.requests q.heap.cells refused),
        )

    -- the answer of a search among the nodes `ts`
    abbrev Answers : List (BinaryNode A) → Bool → Type ℓ
    Answers ts b = (b ≡ true → any_occurs ts ≡ true) × (Grants malloc → b ≡ any_occurs ts)

    free-Answers :
        (q : Queue (BinaryNode A)) (ts us : List (BinaryNode A)) (b : Bool)
        → IsQueue q us
        → Answers ts b
        → Returns (Answers ts) (queue_free false q >>= λ _. ok b)
    free-Answers q ts us b h a = Returns-bind _ _ (queue_free-Frees false q us h) λ w f. returns a

    bfs_visit-Answers :
        (n : ℕ)
        → ((q : Queue (BinaryNode A)) (ts : List (BinaryNode A))
            → IsQueue q ts
            → AreNodes ts
            → total ts ≤ n
            → Returns (Answers ts) (bfs_loop malloc fn needle n q))
        → (q : Queue (BinaryNode A)) (t : BinaryNode A) (ts : List (BinaryNode A)) → IsQueue q ts
        → AreNodes (t ∷ ts)
        → total (t ∷ ts) ≤ suc n
        → Returns (Answers (t ∷ ts)) (bfs_visit malloc fn needle (bfs_loop malloc fn needle n) t q)
    unfolding bfs_visit
    bfs_visit-Answers n go q null ts h (one, nodes) fuel = absurd (omega arith)
    bfs_visit-Answers n go q (branch l x r) ts h (one, nodes) fuel =
        elim (Bool-cases (is_zero (fn x needle))) [
          | inl hit ↦ rw hit (
              Returns-bind _ _ (queue_free-Frees false q ts h)
                λ w f. returns (λ e. refl, λ g. refl))
          | inr miss ↦ rw miss (
              Returns-bind _ _ (enque_child-Gains q ts l h nodes) λ u (us, hu, nu, su, fu, eu).
                Returns-bind _ _ (enque_child-Gains u us r hu nu) λ w (vs, hw, nw, sw, fw, ew).
                  Returns-map _ (go w vs hw nw (omega arith)) λ b (sound, exact).
                    (ground (arith, fu, fw, sound), ground (arith, eu, ew, exact)))
        ]

    visited :
        (n : ℕ)
        → ((q : Queue (BinaryNode A)) (ts : List (BinaryNode A))
            → IsQueue q ts
            → AreNodes ts
            → total ts ≤ n
            → Returns (Answers ts) (bfs_loop malloc fn needle n q))
        → (q : Queue (BinaryNode A)) (t : BinaryNode A) (ts : List (BinaryNode A))
        → AreNodes (t ∷ ts)
        → total (t ∷ ts) ≤ suc n
        → (out : Option (BinaryNode A)) (r : Queue (BinaryNode A)) → Dequeues q (t ∷ ts) (out, r)
        → Returns (Answers (t ∷ ts)) (
            from_option out >>= λ cur.
            bfs_visit malloc fn needle (bfs_loop malloc fn needle n) cur r)
    visited n go q t ts nodes fuel none r (e, same) = cc
    visited n go q t ts nodes fuel (some x) r (rest, e, hr) =
        subst
          (λ l. Returns (Answers l) (bfs_visit malloc fn needle (bfs_loop malloc fn needle n) x r))
          (sym e)
          (bfs_visit-Answers n go r x rest hr (subst AreNodes e nodes)
            (subst (λ l. total l ≤ suc n) e fuel))

    bfs_loop-Answers :
        (n : ℕ) (q : Queue (BinaryNode A)) (ts : List (BinaryNode A))
        → IsQueue q ts
        → AreNodes ts
        → total ts ≤ n
        → Returns (Answers ts) (bfs_loop malloc fn needle n q)
    unfolding bfs_loop
    bfs_loop-Answers zero q [] h nodes fuel =
        let ended : (q.len == 0) ≡ true = ground (arith, len-IsQueue q [] h) in
        rw ended (free-Answers q [] [] false h (ground arith, ground arith))
    bfs_loop-Answers zero q (t ∷ ts) (h) (one, nodes) fuel = absurd (omega arith)
    bfs_loop-Answers (suc n) q [] h nodes fuel =
        let ended : (q.len == 0) ≡ true = ground (arith, len-IsQueue q [] h) in
        rw ended (free-Answers q [] [] false h (ground arith, ground arith))
    bfs_loop-Answers (suc n) q (t ∷ ts) h nodes fuel =
        let more : (q.len == 0) ≡ false = ground (arith, len-IsQueue q (t ∷ ts) h) in
        rw more (
          Returns-bind _ _ (queue_deque-Dequeues q (t ∷ ts) h)
            λ (out, r) d. visited n (bfs_loop-Answers n) q t ts nodes fuel out r d)

  -- For a tree with at least one node and a malloc that hands out unused addresses, bt_bfs returns;
  -- it answers true only if an element of the tree compares equal to the needle, and if malloc
  -- refuses no request, whenever one does.
  pub bt_bfs-Finds :
      (malloc : Malloc (QNode (BinaryNode A))) (heap : Heap (QNode (BinaryNode A)))
      (tree : BinaryTree A)
      → IsMalloc malloc
      → 1 ≤ size tree.root
      → Returns
          (λ b. (b ≡ true → occurs tree.root ≡ true) × (Grants malloc → b ≡ occurs tree.root))
          (bt_bfs malloc fn needle heap tree)
  unfolding bt_bfs bfs
  bt_bfs-Finds malloc heap tree laws one =
      let start = queue_new heap 8 in
      Returns-bind _ _
        (queue_enque-Enqueues malloc start [] tree.root laws (queue_new-IsQueue heap 8))
        λ (s, q) e. began s q e
    where
      began :
          (s : Status) (q : Queue (BinaryNode A))
          → Enqueues malloc (queue_new heap 8) [] tree.root (s, q)
          → Returns
              (λ b. (b ≡ true → occurs tree.root ≡ true) × (Grants malloc → b ≡ occurs tree.root))
              (bfs_loop malloc fn needle (suc (size tree.root)) q)
      began success q h =
          Returns-map _
            (bfs_loop-Answers malloc laws (suc (size tree.root)) q (tree.root ∷ []) h (one, tt)
              (omega arith))
            λ b (sound, exact). (ground (arith, sound), ground (arith, exact))
      began failure q (h, refused) =
          Returns-map _
            (bfs_loop-Answers malloc laws (suc (size tree.root)) q [] h tt (omega arith))
            λ b (sound, exact). (ground (arith, sound), λ grants. absurd (grants _ _ refused))

  -- For a tree with at least one node, and a malloc that hands out unused addresses and refuses no
  -- request, bt_bfs returns, and answers true just if an element of the tree compares equal.
  pub bt_bfs-occurs :
      (malloc : Malloc (QNode (BinaryNode A))) (heap : Heap (QNode (BinaryNode A)))
      (tree : BinaryTree A)
      → IsMalloc malloc
      → Grants malloc
      → 1 ≤ size tree.root
      → bt_bfs malloc fn needle heap tree ≡ ok (occurs tree.root)
  bt_bfs-occurs malloc heap tree laws grants one =
      let (b, ran, (sound, exact)) = bt_bfs-Finds malloc heap tree laws one in
      ran ∙ ap ok (exact grants)
