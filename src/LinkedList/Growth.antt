-- ===== src/LinkedList/Growth.antt =====
-- list_append and list_prepend add an element to the list that the nodes stand for.
use mathlib.Core.Path.{subst}
use vlib.Base.{
  Option-cases, Run, fault, ◌⊎◌, inl, inr, ◌+◌, ◌++◌, ◌≡◌, ◌≢◌, refl, sym, ap, List, [], ◌∷◌, none,
  some, true, false, ok, Returns, returns, Status, success, arith, ◌==◌, length, length-append,
}
use vlib.Heap.{
  Ptr, null, Heap, Malloc, IsMalloc, Cells, find, write, put, allocate-none, allocate-some, Cells,
}
use vlib.Heap.Lines.{Line, has, values, values-append}
use vlib.LinkedList.{
  Node, LinkedList, node_new, append_node, list_append, prepend_node, list_prepend,
}
use vlib.LinkedList.Contents.{IsList, swap_test, written}
use vlib.LinkedList.Chains.{
  last_or-append, not-last, first_or, last_or, Linked, Linked-write, Linked-append, at_last,
  not-has_free,
}

module _ {ℓ} {A : Type ℓ} where
  abbrev new_node : A → Node A
  new_node z = record { prev = null; next = null; value = z }

  -- the heap behind node_new
  abbrev grown : Heap (Node A) → Ptr → A → Heap (Node A)
  grown h p z = record { cells = write h.cells p (some (new_node z)); requests = h.requests + 1 }

  abbrev Adds : List A → Status × LinkedList A → Type ℓ
  Adds xs (s, l) = (s ≡ success) × IsList l xs

  append_node-Adds :
      (l : LinkedList A) (z : A) (p : Ptr) (line : Line A)
      → p ≢ null
      → find l.heap.cells p ≡ none
      → Linked l.heap.cells null line null
      → l.len ≡ length line
      → l.head ≡ first_or line null
      → l.tail ≡ last_or null line
      → Returns (Adds (values line ++ z ∷ [])) (append_node l p (grown l.heap p z))
  unfolding append_node put
  append_node-Adds l z p [] new unused linked counted starts ends =
      let there : (p == null) ≡ false = ground arith in
      let empty : (l.tail == null) ≡ true = ground arith in
      rw (there, empty)
        (returns (
          refl,
          record {
            line = (p, z) ∷ [];
            linked = (new, ground arith, refl, tt);
            counted = omega arith;
            elements = refl;
            starts = refl;
            ends = refl;
          },
        ))
  append_node-Adds l z p ((a, y) ∷ line) new unused linked counted starts ends =
      let there : (p == null) ≡ false = ground arith in
      let (n, at, next, nonnull) = at_last l.heap.cells null a y line null linked in
      let out = not-has_free l.heap.cells p null ((a, y) ∷ line) null unused linked in
      let filled : (l.tail == null) ≡ false = rw ends (ground arith) in
      let node = new_node z in
      let h = grown l.heap p z in
      let found : find h.cells p ≡ some node = written l.heap.cells p node in
      let with_prev : Ptr → Cells (Node A) =
        λ t. write h.cells p (some (record node { prev = t })) in
      let not_last : (last_or a line == p) ≡ false =
        swap_test p (last_or a line) (not-last p a y line out) in
      let last_at : find (with_prev (last_or a line)) (last_or a line) ≡ some n = rw not_last at in
      let tail_at : find (with_prev l.tail) l.tail ≡ some n =
        subst (λ t. find (with_prev t) t ≡ some n) (sym ends) last_at in
      let self : find (with_prev (last_or a line)) p
          ≡ some (record node { prev = last_or a line }) =
        written h.cells p (record node { prev = last_or a line }) in
      rw (there, filled, found, tail_at)
        (returns (
          refl,
          record {
            line = ((a, y) ∷ line) ++ (p, z) ∷ [];
            linked =
                subst
                  (λ t.
                    Linked (write (with_prev t) t (some (record n { next = p }))) null
                      (((a, y) ∷ line) ++ (p, z) ∷ []) null)
                  (sym ends)
                  (Linked-append (with_prev (last_or a line)) null a y line p z n
                    (Linked-write h.cells p (some (record node { prev = last_or a line })) null
                      ((a, y) ∷ line) null out
                      (Linked-write l.heap.cells p (some node) null ((a, y) ∷ line) null out
                        linked))
                    new out self last_at);
            counted = omega (arith, length-append ((a, y) ∷ line) ((p, z) ∷ []));
            elements = values-append ((a, y) ∷ line) p z;
            starts = starts;
            ends = sym (last_or-append null ((a, y) ∷ line) p z []);
          },
        ))

  prepend_node-Adds :
      (l : LinkedList A) (z : A) (p : Ptr) (line : Line A)
      → p ≢ null
      → find l.heap.cells p ≡ none
      → Linked l.heap.cells null line null
      → l.len ≡ length line
      → l.head ≡ first_or line null
      → l.tail ≡ last_or null line
      → Returns (Adds (z ∷ values line)) (prepend_node l p (grown l.heap p z))
  unfolding prepend_node put
  prepend_node-Adds l z p [] new unused linked counted starts ends =
      let there : (p == null) ≡ false = ground arith in
      let empty : (l.head == null) ≡ true = ground arith in
      rw (there, empty)
        (returns (
          refl,
          record {
            line = (p, z) ∷ [];
            linked = (new, ground arith, refl, tt);
            counted = omega arith;
            elements = refl;
            starts = refl;
            ends = refl;
          },
        ))
  prepend_node-Adds l z p ((a, y) ∷ line) new unused (nonnull, at, once, linked) counted starts
        ends =
      let there : (p == null) ≡ false = ground arith in
      let out =
        not-has_free l.heap.cells p null ((a, y) ∷ line) null unused (nonnull, at, once, linked) in
      let filled : (l.head == null) ≡ false = rw starts (ground arith) in
      let node = new_node z in
      let h = grown l.heap p z in
      let found : find h.cells p ≡ some node = written l.heap.cells p node in
      let first : Node A = record { prev = null; next = first_or line null; value = y } in
      let with_next : Ptr → Cells (Node A) =
        λ t. write h.cells p (some (record node { next = t })) in
      let not_first : (a == p) ≡ false = ground arith in
      let not_first' : (p == a) ≡ false = ground arith in
      let first_at : find (with_next a) a ≡ some first = rw not_first at in
      let head_at : find (with_next l.head) l.head ≡ some first =
        subst (λ t. find (with_next t) t ≡ some first) (sym starts) first_at in
      let out_rest : has p line ≡ false = ground arith in
      let same : find (write (with_next a) a (some (record first { prev = p }))) p
          ≡ some (record node { next = a }) =
        rw not_first' (ground arith) in
      let at_first : find (write (with_next a) a (some (record first { prev = p }))) a
          ≡ some (record first { prev = p }) =
        ground arith in
      rw (there, filled, found, head_at)
        (returns (
          refl,
          record {
            line = (p, z) ∷ (a, y) ∷ line;
            linked =
                subst
                  (λ t.
                    Linked (write (with_next t) t (some (record first { prev = p }))) null
                      ((p, z) ∷ (a, y) ∷ line) null)
                  (sym starts)
                  (
                    new,
                    same,
                    out,
                    (
                      nonnull,
                      at_first,
                      once,
                      Linked-write (with_next a) a (some (record first { prev = p })) a line null
                          once
                          (Linked-write h.cells p (some (record node { next = a })) a line null
                            out_rest
                            (Linked-write l.heap.cells p (some node) a line null out_rest linked)),
                    ),
                  );
            counted = omega arith;
            elements = refl;
            starts = refl;
            ends = ends;
          },
        ))

  -- malloc refuses the node, and node_new writes to a null pointer, or `run` adds an element
  abbrev pub Grows : Malloc (Node A) → LinkedList A → List A → Run (Status × LinkedList A) → Type ℓ
  Grows malloc l xs run =
      ((malloc l.heap.requests l.heap.cells ≡ none) × (run ≡ fault))
      ⊎ Returns (λ (s, r). (s ≡ success) × IsList r xs) run

  module _ (malloc : Malloc (Node A)) (laws : IsMalloc malloc) (l : LinkedList A) (xs : List A)
      (h : IsList l xs) (z : A) where
    node_new_refused : malloc l.heap.requests l.heap.cells ≡ none → node_new malloc l.heap z ≡ fault
    unfolding node_new
    node_new_refused refused = rw (node_new, allocate-none malloc l.heap (new_node z) refused) refl

    node_new_granted :
        (p : Ptr)
        → malloc l.heap.requests l.heap.cells ≡ some p
        → node_new malloc l.heap z ≡ ok (p, grown l.heap p z)
    unfolding node_new put
    node_new_granted p got =
        ap (λ r. elim r.0 [ none ↦ fault | some q ↦ ok (q, r.1) ])
          (allocate-some malloc l.heap (new_node z) p got)

    append-Grows : Grows malloc l (xs ++ z ∷ []) (list_append malloc l z)
    unfolding list_append node_new
    append-Grows = elim (Option-cases (malloc l.heap.requests l.heap.cells)) [
      | inl refused ↦ inl (refused, rw (list_append, node_new_refused refused) refl)
      | inr (p, got) ↦
          let (new, unused) = laws l.heap.requests l.heap.cells p got in
          inr (
            rw (list_append, node_new_granted p got, ← h.elements)
              (append_node-Adds l z p h.line new unused h.linked h.counted h.starts h.ends))
    ]

    prepend-Grows : Grows malloc l (z ∷ xs) (list_prepend malloc l z)
    unfolding list_prepend node_new
    prepend-Grows = elim (Option-cases (malloc l.heap.requests l.heap.cells)) [
      | inl refused ↦ inl (refused, rw (list_prepend, node_new_refused refused) refl)
      | inr (p, got) ↦
          let (new, unused) = laws l.heap.requests l.heap.cells p got in
          inr (
            rw (list_prepend, node_new_granted p got, ← h.elements)
              (prepend_node-Adds l z p h.line new unused h.linked h.counted h.starts h.ends))
    ]

    -- With a malloc that hands out unused addresses, list_append and list_prepend on a list that
    -- stands for `xs` return 0 with the element added at the end or at the front; when malloc
    -- refuses the node, they write through a null pointer.
    pub list_append-list_prepend :
        Grows malloc l (xs ++ z ∷ []) (list_append malloc l z)
        × Grows malloc l (z ∷ xs) (list_prepend malloc l z)
    list_append-list_prepend = (append-Grows, prepend-Grows)
