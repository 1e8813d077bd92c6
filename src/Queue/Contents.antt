-- ===== src/Queue/Contents.antt =====
-- A queue stands for the list of its elements: what each operation does to them.
use mathlib.Core.Path.{subst}
use vlib.Base.{
  ℕ, ◌-◌, ◌++◌, ◌≡◌, ◌≢◌, refl, sym, ap, ◌∙◌, List, [], ◌∷◌, Option, none, some, Bool, true, false,
  ok, ◌>>=◌, Returns, returns, Returns-bind, Status, success, failure, arith, ◌==◌, if◌then◌else◌,
  length, length-append,
}
use vlib.Heap.{
  Ptr, null, Heap, Malloc, IsMalloc, find, write, deref-ok, put, release, allocate-none,
  allocate-some, asked,
}
use vlib.Heap.Lines.{Line, has, values, length-values, values-append}
use vlib.Queue.{
  QNode, Queue, queue_new, qnode_new, link_tail, queue_enque, queue_deque, free_nodes, queue_free,
  enque_node,
}
use vlib.Queue.Chains.{
  first_of, last_of, Chained, Chained-write, at_last, first_nonnull, Chained-link, last-append,
}

module _ {ℓ} {A : Type ℓ} where
  -- the queue stands for the list `xs`
  pub record IsQueue (q : Queue A) (xs : List A) : Type ℓ where
    pub line : Line A
    pub chained : Chained q.heap.cells line
    pub counted : q.len ≡ length line
    pub elements : values line ≡ xs
    pub starts : q.head ≡ first_of line
    pub ends : q.tail ≡ last_of line

  pub queue_new-IsQueue :
      (heap : Heap (QNode A)) (data_size : ℕ) → IsQueue (queue_new heap data_size) []
  unfolding queue_new
  queue_new-IsQueue heap data_size = record {
    line = [];
    chained = tt;
    counted = refl;
    elements = refl;
    starts = refl;
    ends = refl;
  }

  pub len-IsQueue : (q : Queue A) (xs : List A) → IsQueue q xs → q.len ≡ length xs
  len-IsQueue q xs h = h.counted ∙ sym (length-values h.line) ∙ ap length h.elements

  -- what queue_enque leaves: one element more at the end, or the same ones when malloc refuses
  abbrev pub Enqueues : Malloc (QNode A) → Queue A → List A → A → Status × Queue A → Type ℓ
  Enqueues malloc q xs x (success, w) = IsQueue w (xs ++ x ∷ [])
  Enqueues malloc q xs x (failure, w) = IsQueue w xs × (malloc q.heap.requests q.heap.cells ≡ none)

  enque_into :
      (malloc : Malloc (QNode A)) (q : Queue A) (x : A) (p : Ptr) (line : Line A)
      → malloc q.heap.requests q.heap.cells ≡ some p
      → p ≢ null
      → find q.heap.cells p ≡ none
      → Chained q.heap.cells line
      → q.len ≡ length line
      → q.head ≡ first_of line
      → q.tail ≡ last_of line
      → Returns (Enqueues malloc q (values line) x) (queue_enque malloc q x)
  unfolding queue_enque enque_node qnode_new link_tail put
  enque_into malloc q x p [] got new unused chained counted starts ends =
      let empty : (q.head == null) ≡ true = ground arith in
      rw (allocate-some malloc q.heap _ p got, empty)
        (returns (record {
          line = (p, x) ∷ [];
          chained = (new, (none, ground arith));
          counted = omega arith;
          elements = refl;
          starts = refl;
          ends = refl;
        }))
  enque_into malloc q x p ((a, y) ∷ line) got new unused chained counted starts ends =
      let (n, at, nonnull) = at_last q.heap.cells a y line chained in
      let filled : (q.head == null) ≡ false =
        ground (arith, first_nonnull q.heap.cells a y line chained) in
      let tail_at : find (write q.heap.cells p (some (record { next = none; value = x }))) q.tail
          ≡ some n =
        ground arith in
      rw
        (
          allocate-some malloc q.heap (record { next = none; value = x }) p got,
          filled,
          deref-ok
              (put (asked malloc q.heap (record { next = none; value = x })) p
                (record { next = none; value = x }))
              q.tail n (ground arith) tail_at,
        )
        (returns (record {
          line = ((a, y) ∷ line) ++ (p, x) ∷ [];
          chained =
              subst
                (λ t.
                  Chained
                    (write (write q.heap.cells p (some (record { next = none; value = x }))) t
                      (some (record n { next = some p })))
                    (((a, y) ∷ line) ++ (p, x) ∷ []))
                (sym ends) (Chained-link q.heap.cells a y line p x n chained new unused at);
          counted = omega (arith, length-append ((a, y) ∷ line) ((p, x) ∷ []));
          elements = values-append ((a, y) ∷ line) p x;
          starts = starts;
          ends = sym (last-append ((a, y) ∷ line) p x);
        }))

  -- With a malloc that hands out unused addresses, queue_enque on a queue that stands for `xs` returns
  -- 0 with the element added at the end, or -1 with the queue as it was when malloc refuses.
  pub queue_enque-Enqueues :
      (malloc : Malloc (QNode A)) (q : Queue A) (xs : List A) (x : A)
      → IsMalloc malloc
      → IsQueue q xs
      → Returns (Enqueues malloc q xs x) (queue_enque malloc q x)
  unfolding queue_enque enque_node qnode_new
  queue_enque-Enqueues malloc q xs x laws h = answer (malloc q.heap.requests q.heap.cells) refl
    where
      answer :
          (r : Option Ptr)
          → malloc q.heap.requests q.heap.cells ≡ r
          → Returns (Enqueues malloc q xs x) (queue_enque malloc q x)
      answer none e = rw (allocate-none malloc q.heap (record { next = none; value = x }) e) (
          returns (
            record {
              line = h.line;
              chained = h.chained;
              counted = h.counted;
              elements = h.elements;
              starts = h.starts;
              ends = h.ends;
            },
            e,
          ))
      answer (some p) e =
          let (new, unused) = laws q.heap.requests q.heap.cells p e in
          rw (← h.elements)
            (enque_into malloc q x p h.line e new unused h.chained h.counted h.starts h.ends)

  -- what queue_deque leaves
  abbrev pub Dequeues : Queue A → List A → Option A × Queue A → Type ℓ
  Dequeues q xs (none, w) = (xs ≡ []) × (w ≡ q)
  Dequeues q xs (some x, w) = (rest : List A) × (xs ≡ x ∷ rest) × IsQueue w rest

  deque_from :
      (q : Queue A) (line : Line A)
      → Chained q.heap.cells line
      → q.len ≡ length line
      → q.head ≡ first_of line
      → q.tail ≡ last_of line
      → Returns (Dequeues q (values line)) (queue_deque q)
  unfolding queue_deque release
  deque_from q [] chained counted starts ends =
      let empty : (q.len == 0) ≡ true = ground arith in rw empty (returns (refl, refl))
  deque_from q ((p, x) ∷ []) (nonnull, (next, at)) counted starts ends =
      let some_left : (q.len == 0) ≡ false = ground arith in
      let last : (q.len - 1 == 0) ≡ true = ground arith in
      rw
        (
          some_left,
          deref-ok q.heap q.head (record { next = next; value = x }) (ground arith) (ground arith),
          last,
        )
        (returns (
          [],
          refl,
          record {
            line = [];
            chained = tt;
            counted = omega arith;
            elements = refl;
            starts = refl;
            ends = refl;
          },
        ))
  deque_from q ((p, x) ∷ (r, y) ∷ line) (nonnull, at, out, chained) counted starts ends =
      let some_left : (q.len == 0) ≡ false = ground arith in
      let more : (q.len - 1 == 0) ≡ false = ground arith in
      rw
        (
          some_left,
          deref-ok q.heap q.head (record { next = some r; value = x }) (ground arith)
              (rw starts at),
          more,
        )
        (returns (
          values ((r, y) ∷ line),
          refl,
          record {
            line = (r, y) ∷ line;
            chained =
                subst (λ t. Chained (write q.heap.cells t none) ((r, y) ∷ line)) (sym starts)
                  (Chained-write q.heap.cells p none ((r, y) ∷ line) out chained);
            counted = omega arith;
            elements = refl;
            starts = refl;
            ends = ends;
          },
        ))

  -- A queue that stands for `xs`: queue_deque returns the first element and leaves the others, or -1
  -- if there is none.
  pub queue_deque-Dequeues :
      (q : Queue A) (xs : List A) → IsQueue q xs → Returns (Dequeues q xs) (queue_deque q)
  queue_deque-Dequeues q xs h =
      rw (← h.elements) (deque_from q h.line h.chained h.counted h.starts h.ends)

  -- what freeing a line of nodes leaves on the heap
  abbrev pub Frees : Line A → Heap (QNode A) → List A × Heap (QNode A) → Type ℓ
  Frees line heap (freed, left) =
      (freed ≡ values line)
      × ((a : Ptr) → find left.cells a ≡ (if has a line then none else find heap.cells a))

  free_nodes-Frees :
      (heap : Heap (QNode A)) (line : Line A) (cur : Option Ptr)
      → Chained heap.cells line
      → ((p : Ptr) (x : A) (rest : Line A) → line ≡ (p, x) ∷ rest → cur ≡ some p)
      → Returns (Frees line heap) (free_nodes heap (length line) cur)
  unfolding free_nodes release
  free_nodes-Frees heap [] cur chained at_first = returns (refl, λ a. refl)
  free_nodes-Frees heap ((p, x) ∷ []) cur (nonnull, (next, at)) at_first =
      rw (at_first p x [] refl, deref-ok heap p _ nonnull at) (returns (refl, λ a. ground arith))
  free_nodes-Frees heap ((p, x) ∷ (q, y) ∷ line) cur (nonnull, at, out, chained) at_first =
      rw (at_first p x ((q, y) ∷ line) refl, deref-ok heap p _ nonnull at)
        (Returns-bind _ _
          (free_nodes-Frees (release heap p) ((q, y) ∷ line) (some q)
            (Chained-write heap.cells p none ((q, y) ∷ line) out chained) λ p' x' rest e. cc)
          λ (rest, left) (values_of, cells).
            returns (ap (◌∷◌ x) values_of, λ a. ground (arith, cells a)))

  -- queue_free hands the elements of a queue to the free function, in order, frees its nodes and no
  -- others, and leaves the length 0.
  pub queue_free-Frees :
      (fn : Bool) (q : Queue A) (xs : List A) (h : IsQueue q xs)
      → Returns
          (λ (freed, w).
            (freed ≡ (if fn then xs else []))
            × (w.len ≡ 0)
            × ((a : Ptr)
                → find w.heap.cells a ≡ (if has a h.line then none else find q.heap.cells a)))
          (queue_free fn q)
  unfolding queue_free
  queue_free-Frees fn q xs h =
      let starts : queue_free fn q ≡ (
          free_nodes q.heap (length h.line) (some q.head) >>= λ (freed, heap). ok (
            let r : List A × Queue A =
              (if fn then freed else [], record q { len = 0; heap = heap }) in
            r)) =
        rw h.counted refl in
      rw starts (
        Returns-bind _ _
          (free_nodes-Frees q.heap h.line (some q.head) h.chained
            λ p x rest e. ap some (h.starts ∙ ap first_of e))
          λ (freed, heap) (values_of, cells).
            returns (rw (values_of, h.elements) refl, refl, cells))
