-- ===== src/LinkedList.antt =====
-- src/list.c: the doubly linked list, its nodes on the heap.
pub mod Chains
pub mod Contents
pub mod Growth
pub mod Removal
pub mod Positions
pub mod Search
pub mod Insertion
use vlib.Base.{
  ℕ, zero, suc, ◌+◌, ◌-◌, List, [], ◌∷◌, Option, none, some, Bool, Run, ok, fault, ◌>>=◌, Status,
  success, failure, ◌==◌, ltb, if◌then◌else◌,
}
use vlib.Cmp.{CmpFn, is_zero}
use vlib.Heap.{Ptr, null, Heap, Malloc, deref, put, release, allocate}

-- `node`
pub record Node {ℓ} (A : Type ℓ) : Type ℓ where
  pub prev : Ptr
  pub next : Ptr
  pub value : A

-- `list`, with the heap of its nodes
pub record LinkedList {ℓ} (A : Type ℓ) : Type ℓ where
  pub head : Ptr
  pub tail : Ptr
  pub data_size : ℕ
  pub len : ℕ
  pub heap : Heap (Node A)

module _ {ℓ} {A : Type ℓ} where
  -- `p->prev = q`
  unfoldable pub set_prev : Heap (Node A) → Ptr → Ptr → Run (Heap (Node A))
  unfolding deref put
  set_prev heap p q = deref heap p >>= λ n. ok (put heap p (record n { prev = q }))

  -- `p->next = q`
  unfoldable pub set_next : Heap (Node A) → Ptr → Ptr → Run (Heap (Node A))
  unfolding deref put
  set_next heap p q = deref heap p >>= λ n. ok (put heap p (record n { next = q }))

  unfoldable pub list_new : Heap (Node A) → ℕ → LinkedList A
  list_new heap data_size = record {
    head = null;
    tail = null;
    data_size = data_size;
    len = 0;
    heap = heap;
  }

  unfoldable pub list_len : LinkedList A → ℕ
  list_len l = l.len

  -- the result of malloc is written to before it is tested
  unfoldable pub node_new : Malloc (Node A) → Heap (Node A) → A → Run (Ptr × Heap (Node A))
  unfolding allocate
  node_new malloc heap x =
      let (got, left) = allocate malloc heap (record { prev = null; next = null; value = x }) in
      elim got [ none ↦ fault | some p ↦ ok (p, left) ]

  -- list_append behind node_new
  unfoldable pub append_node : LinkedList A → Ptr → Heap (Node A) → Run (Status × LinkedList A)
  unfolding set_prev set_next
  append_node l p heap =
      let linked = (do
        h ← set_prev heap p l.tail
        h' ← set_next h l.tail p
        ok (success, record l { tail = p; len = l.len + 1; heap = h' })) in
      if p == null
      then ok (failure, record l { heap = heap })
      else if l.tail == null
      then ok (success, record l { head = p; tail = p; len = l.len + 1; heap = heap })
      else linked

  unfoldable pub list_append : Malloc (Node A) → LinkedList A → A → Run (Status × LinkedList A)
  unfolding node_new append_node
  list_append malloc l x = node_new malloc l.heap x >>= λ (p, heap). append_node l p heap

  -- list_prepend behind node_new
  unfoldable pub prepend_node : LinkedList A → Ptr → Heap (Node A) → Run (Status × LinkedList A)
  unfolding set_prev set_next
  prepend_node l p heap =
      let linked = (do
        h ← set_next heap p l.head
        h' ← set_prev h l.head p
        ok (success, record l { head = p; len = l.len + 1; heap = h' })) in
      if p == null
      then ok (failure, record l { heap = heap })
      else if l.head == null
      then ok (success, record l { head = p; tail = p; len = l.len + 1; heap = heap })
      else linked

  unfoldable pub list_prepend : Malloc (Node A) → LinkedList A → A → Run (Status × LinkedList A)
  unfolding node_new prepend_node
  list_prepend malloc l x = node_new malloc l.heap x >>= λ (p, heap). prepend_node l p heap

  -- the loop of list_get_at with the number of rounds left
  unfoldable pub walk : Heap (Node A) → ℕ → Ptr → Run Ptr
  unfolding deref
  walk heap zero cur = ok cur
  walk heap (suc n) cur = deref heap cur >>= λ node. walk heap n node.next

  unfoldable pub list_get_at : LinkedList A → ℕ → Run Ptr
  unfolding walk
  list_get_at l idx = walk l.heap idx l.head

  -- The insertion between two nodes. `cur->prev` is the new node when `cur->prev->next` is written,
  -- so the new node becomes its own successor.
  unfoldable pub insert_inner : Malloc (Node A) → LinkedList A → A → ℕ → Run (Status × LinkedList A)
  unfolding node_new list_get_at set_prev set_next
  insert_inner malloc l x idx = do
    (p, heap) ← node_new malloc l.heap x
    cur ← list_get_at (record l { heap = heap }) idx
    h ← set_next heap p cur
    node ← deref h cur
    h' ← set_prev h p node.prev
    h'' ← set_prev h' cur p
    again ← deref h'' cur
    h''' ← set_next h'' again.prev p
    ok (success, record l { len = l.len + 1; heap = h''' })

  unfoldable pub list_insert_at :
      Malloc (Node A) → LinkedList A → A → ℕ → Run (Status × LinkedList A)
  unfolding list_append list_prepend insert_inner
  list_insert_at malloc l x idx =
      let first = list_prepend malloc l x in
      let last = list_append malloc l x in
      let inner = insert_inner malloc l x idx in
      if ltb l.len idx
      then ok (failure, l)
      else if idx == 0
      then first
      else if idx == l.len
      then last
      else inner

  -- the element that is copied out; for a list of length 0 the read of the node is a fault
  unfoldable pub list_remove_node : LinkedList A → Ptr → Run (A × LinkedList A)
  unfolding deref release set_prev set_next
  list_remove_node l p = do
    node ← deref l.heap p
    let r = record l { len = l.len - 1 }
    let freed = release l.heap p
    let at_head = (do
      h ← set_prev freed node.next null
      ok (node.value, record r { head = node.next; heap = h }))
    let at_tail = (do
      h ← set_next freed node.prev null
      ok (node.value, record r { tail = node.prev; heap = h }))
    let inner = (do
      h ← set_next l.heap node.prev node.next
      again ← deref h p
      h' ← set_prev h again.next again.prev
      ok (node.value, record r { heap = release h' p }))
    if l.len - 1 == 0
        then ok (node.value, record r { head = null; tail = null; heap = freed })
        else if p == l.head
        then at_head
        else if p == l.tail
        then at_tail
        else inner

  unfoldable pub list_remove_at : LinkedList A → ℕ → Run (Option A × LinkedList A)
  unfolding list_get_at list_remove_node
  list_remove_at l idx =
      let taken = (do cur ← list_get_at l idx; (x, r) ← list_remove_node l cur; ok (some x, r)) in
      if ltb l.len idx then ok (none, l) else taken

  -- the element that the returned pointer is to
  unfoldable pub list_get : LinkedList A → ℕ → Run (Option A)
  unfolding list_get_at deref
  list_get l idx =
      let got = (do cur ← list_get_at l idx; node ← deref l.heap cur; ok (some node.value)) in
      if ltb l.len idx then ok none else got

  -- the loop of list_remove with the number of rounds left
  unfoldable pub remove_loop : CmpFn A → A → LinkedList A → ℕ → Ptr → Run (Option A × LinkedList A)
  unfolding list_remove_node deref
  remove_loop fn x l zero cur = ok (none, l)
  remove_loop fn x l (suc n) cur = do
    node ← deref l.heap cur
    let found = list_remove_node l cur >>= λ (y, r).
        ok (let out : Option A × LinkedList A = (some y, r) in out)
    let rest = remove_loop fn x l n node.next
    if is_zero (fn x node.value) then found else rest

  unfoldable pub list_remove : CmpFn A → LinkedList A → A → Run (Option A × LinkedList A)
  unfolding remove_loop
  list_remove fn l x =
      let searched = remove_loop fn x l l.len l.head in
      if l.len == 0 then ok (none, l) else searched

  -- the loop of list_free with the number of rounds left: the elements of the freed nodes
  unfoldable pub free_chain : Heap (Node A) → ℕ → Ptr → Run (List A × Heap (Node A))
  unfolding deref release
  free_chain heap zero cur = ok ([], heap)
  free_chain heap (suc n) cur = do
    node ← deref heap cur
    (rest, left) ← free_chain (release heap cur) n node.next
    ok (node.value ∷ rest, left)

  -- what the free function, if there is one, was called on; the fields of the list stay as they are
  unfoldable pub list_free : Bool → LinkedList A → Run (List A × LinkedList A)
  unfolding free_chain
  list_free fn l = do
    (freed, heap) ← free_chain l.heap l.len l.head
    ok (if fn then freed else [], record l { heap = heap })
