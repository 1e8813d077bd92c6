-- ===== src/Queue.antt =====
-- src/queue.c: the queue, a chain of nodes on the heap.
pub mod Chains
pub mod Contents
use vlib.Base.{
  ℕ, zero, suc, ◌+◌, ◌-◌, List, [], ◌∷◌, Option, none, some, Bool, true, false, Run, ok, ◌>>=◌,
  from_option, Status, success, failure, ◌==◌, if◌then◌else◌,
}
use vlib.Heap.{Ptr, null, Heap, Malloc, deref, put, release, allocate}

-- `qnode`; malloc leaves `next` without a value
pub record QNode {ℓ} (A : Type ℓ) : Type ℓ where
  pub next : Option Ptr
  pub value : A

-- `queue`, with the heap of its nodes
pub record Queue {ℓ} (A : Type ℓ) : Type ℓ where
  pub len : ℕ
  pub data_size : ℕ
  pub head : Ptr
  pub tail : Ptr
  pub heap : Heap (QNode A)

module _ {ℓ} {A : Type ℓ} where
  unfoldable pub queue_new : Heap (QNode A) → ℕ → Queue A
  queue_new heap data_size = record {
    len = 0;
    data_size = data_size;
    head = null;
    tail = null;
    heap = heap;
  }

  unfoldable pub queue_len : Queue A → ℕ
  queue_len q = q.len

  -- the element that the returned pointer is to
  unfoldable pub queue_peek : Queue A → Run (Option A)
  unfolding deref
  queue_peek q =
      let first = deref q.heap q.head >>= λ node. ok (some node.value) in
      if q.len == 0 then ok none else first

  unfoldable pub qnode_new : Malloc (QNode A) → Heap (QNode A) → A → Option Ptr × Heap (QNode A)
  unfolding allocate
  qnode_new malloc heap x = allocate malloc heap (record { next = none; value = x })

  -- `q->tail->next = node`, and the new tail
  unfoldable pub link_tail : Queue A → Ptr → Run (Queue A)
  unfolding deref put
  link_tail q p = do
    last ← deref q.heap q.tail
    ok (record q { tail = p; heap = put q.heap q.tail (record last { next = some p }) })

  -- queue_enque behind the request for a node
  unfoldable pub enque_node : Queue A → Option Ptr × Heap (QNode A) → Run (Status × Queue A)
  unfolding link_tail
  enque_node q (none, heap) = ok (failure, record q { heap = heap })
  enque_node q (some p, heap) =
      let r = record q { len = q.len + 1; heap = heap } in
      let linked = link_tail r p >>= λ w. ok (success, w) in
      if q.head == null then ok (success, record r { head = p; tail = p }) else linked

  unfoldable pub queue_enque : Malloc (QNode A) → Queue A → A → Run (Status × Queue A)
  unfolding enque_node qnode_new
  queue_enque malloc q x = enque_node q (qnode_new malloc q.heap x)

  -- the element that was copied out; `none` is the result -1
  unfoldable pub queue_deque : Queue A → Run (Option A × Queue A)
  unfolding deref release
  queue_deque q =
      let taken = (do
        node ← deref q.heap q.head
        let r = record q { len = q.len - 1; heap = release q.heap q.head }
        let rest = from_option node.next >>= λ next. ok (some node.value, record r { head = next })
        let last = ok (some node.value, record r { head = null; tail = null })
        if q.len - 1 == 0 then last else rest) in
      if q.len == 0 then ok (none, q) else taken

  -- the loop of queue_free with the number of rounds left: the elements of the freed nodes
  unfoldable pub free_nodes : Heap (QNode A) → ℕ → Option Ptr → Run (List A × Heap (QNode A))
  unfolding deref release
  free_nodes heap zero cur = ok ([], heap)
  free_nodes heap (suc n) cur = do
    p ← from_option cur
    node ← deref heap p
    (rest, left) ← free_nodes (release heap p) n node.next
    ok (node.value ∷ rest, left)

  -- what the free function, if there is one, was called on; `head` and `tail` stay as they are
  unfoldable pub queue_free : Bool → Queue A → Run (List A × Queue A)
  unfolding free_nodes
  queue_free fn q = do
    (freed, heap) ← free_nodes q.heap q.len (some q.head)
    ok (if fn then freed else [], record q { len = 0; heap = heap })
