-- ===== src/BinaryTree/Bfs.antt =====
-- src/bt_bfs.c: the search level by level, with a queue of pointers to nodes.
pub mod Finds
use vlib.Base.{
  ℕ, zero, suc, ◌+◌, Bool, true, false, Run, ok, fault, out_of_fuel, ◌>>=◌, from_option, ◌==◌,
  if◌then◌else◌,
}
use vlib.Cmp.{CmpFn, is_zero}
use vlib.Heap.{Heap, Malloc}
use vlib.Queue.{QNode, Queue, queue_new, queue_enque, queue_deque, queue_free}
use vlib.BinaryTree.{BinaryNode, BinaryTree, null, branch}

module _ {ℓ} {A : Type ℓ} where
  abbrev pub size : BinaryNode A → ℕ
  size null = 0
  size (branch l x r) = 1 + (size l + size r)

  module _ (malloc : Malloc (QNode (BinaryNode A))) (fn : CmpFn A) (needle : A) where
    -- `if (child) queue_enque(...)`, which ignores the result
    unfoldable pub enque_child : Queue (BinaryNode A) → BinaryNode A → Run (Queue (BinaryNode A))
    enque_child q null = ok q
    enque_child q (branch l x r) = queue_enque malloc q (branch l x r) >>= λ (s, w). ok w

    -- The body of the `while` behind queue_deque; `go` are the rounds that follow. The pointer to a
    -- node is read without a test.
    unfoldable pub bfs_visit :
        (Queue (BinaryNode A) → Run Bool) → BinaryNode A → Queue (BinaryNode A) → Run Bool
    unfolding enque_child
    bfs_visit go null q = fault
    bfs_visit go (branch l x r) q =
        let found = queue_free false q >>= λ _. ok true in
        let next = enque_child q l >>= λ u. enque_child u r >>= λ w. go w in
        if is_zero (fn x needle) then found else next

    -- the `while` on fuel: each round takes one node out of the queue
    unfoldable pub bfs_loop : ℕ → Queue (BinaryNode A) → Run Bool
    unfolding bfs_visit
    bfs_loop zero q =
        let ended = queue_free false q >>= λ _. ok false in
        if q.len == 0 then ended else out_of_fuel
    bfs_loop (suc n) q =
        let ended = queue_free false q >>= λ _. ok false in
        let round =
          queue_deque q >>= λ (out, r). from_option out >>= λ cur. bfs_visit (bfs_loop n) cur r in
        if q.len == 0 then ended else round

    -- bfs; the result of the first queue_enque is ignored too
    unfoldable pub bfs : Heap (QNode (BinaryNode A)) → BinaryNode A → Run Bool
    unfolding bfs_loop
    bfs heap head =
        queue_enque malloc (queue_new heap 8) head >>= λ (s, q). bfs_loop (suc (size head)) q

    unfoldable pub bt_bfs : Heap (QNode (BinaryNode A)) → BinaryTree A → Run Bool
    unfolding bfs
    bt_bfs heap tree = bfs heap tree.root
