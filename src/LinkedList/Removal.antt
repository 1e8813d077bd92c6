-- ===== src/LinkedList/Removal.antt =====
-- list_remove_node takes one element out of the list that the nodes stand for.
use mathlib.Core.List.{append-nil}
use vlib.Base.{
  ℕ, suc, ◌+◌, ◌-◌, ◌++◌, ◌≡◌, refl, sym, ◌∙◌, List, [], ◌∷◌, none, some, true, false, Returns,
  returns, arith, ◌==◌, length, length-append,
}
use vlib.Heap.{Ptr, null, find, write}
use vlib.Heap.Lines.{Line, has, values}
use vlib.LinkedList.{Node, LinkedList, list_remove_node}
use vlib.LinkedList.Chains.{
  last_or-append, first_or, last_or, Linked, Linked-write, Linked-drop_last, Linked-drop,
  Linked-prefix, last_or-apart, at_last, at_node, not-last,
}
use vlib.LinkedList.Contents.{IsList, swap_test, written}

more_left : (n a b : ℕ) → n ≡ suc (a + suc (suc b)) → (n - 1 == 0) ≡ false
more_left n a b e = ground arith

module _ {ℓ} {A : Type ℓ} where
  abbrev pub Removes : A → List A → A × LinkedList A → Type ℓ
  Removes x xs (y, r) = (y ≡ x) × IsList r xs

  remove_single :
      (l : LinkedList A) (p : Ptr) (x : A)
      → Linked l.heap.cells null ((p, x) ∷ []) null
      → l.len ≡ 1
      → Returns (Removes x []) (list_remove_node l p)
  unfolding list_remove_node
  remove_single l p x (nonnull, at, once, h) counted =
      let there : (p == null) ≡ false = ground arith in
      let emptied : (l.len - 1 == 0) ≡ true = ground arith in
      rw (there, at, emptied)
        (returns (
          refl,
          record {
            line = [];
            linked = tt;
            counted = omega arith;
            elements = refl;
            starts = refl;
            ends = refl;
          },
        ))

  remove_head :
      (l : LinkedList A) (p : Ptr) (x : A) (r : Ptr) (z : A) (m : Line A)
      → Linked l.heap.cells null ((p, x) ∷ (r, z) ∷ m) null
      → l.len ≡ suc (suc (length m))
      → l.head ≡ p
      → l.tail ≡ last_or r m
      → Returns (Removes x (values ((r, z) ∷ m))) (list_remove_node l p)
  unfolding list_remove_node
  remove_head l p x r z m (nonnull, at, once, (nonnull', at', once', h)) counted starts ends =
      let there : (p == null) ≡ false = ground arith in
      let there' : (r == null) ≡ false = ground arith in
      let left : (l.len - 1 == 0) ≡ false = ground arith in
      let first : (p == l.head) ≡ true = ground arith in
      let other : (r == p) ≡ false = ground arith in
      let out : has p m ≡ false = ground arith in
      let node : Node A = record { prev = p; next = first_or m null; value = z } in
      let c = write l.heap.cells p none in
      let found : find c r ≡ some node = rw other at' in
      let at_first : find (write c r (some (record node { prev = null }))) r
          ≡ some (record node { prev = null }) =
        written c r (record node { prev = null }) in
      rw (there, at, left, first, there', found)
        (returns (
          refl,
          record {
            line = (r, z) ∷ m;
            linked = (
              nonnull',
              at_first,
              once',
              Linked-write c r (some (record node { prev = null })) r m null once'
                  (Linked-write l.heap.cells p none r m null out h),
            );
            counted = omega arith;
            elements = refl;
            starts = refl;
            ends = ends;
          },
        ))

  remove_tail :
      (l : LinkedList A) (q : Ptr) (y : A) (ys : Line A) (p : Ptr) (x : A)
      → Linked l.heap.cells null (((q, y) ∷ ys) ++ (p, x) ∷ []) null
      → l.len ≡ suc (suc (length ys))
      → l.head ≡ q
      → l.tail ≡ p
      → Returns (Removes x (values ((q, y) ∷ ys))) (list_remove_node l p)
  unfolding list_remove_node
  remove_tail l q y ys p x linked counted starts ends =
      let (nonnull, at, out, out', rest) =
        at_node l.heap.cells null ((q, y) ∷ ys) p x [] null linked in
      let (n, at', next, nonnull') =
        at_last l.heap.cells null q y ys p
          (Linked-prefix l.heap.cells null ((q, y) ∷ ys) ((p, x) ∷ []) null linked) in
      let there : (p == null) ≡ false = ground arith in
      let there' : (last_or q ys == null) ≡ false = ground arith in
      let left : (l.len - 1 == 0) ≡ false = ground arith in
      let not_first : (p == l.head) ≡ false = rw starts (ground arith) in
      let last : (p == l.tail) ≡ true = ground arith in
      let other : (last_or q ys == p) ≡ false =
        swap_test p (last_or q ys) (not-last p q y ys out) in
      let c = write l.heap.cells p none in
      let found : find c (last_or q ys) ≡ some n = rw other at' in
      rw (there, at, left, not_first, last, there', found)
        (returns (
          refl,
          record {
            line = (q, y) ∷ ys;
            linked = Linked-drop_last l.heap.cells null q y ys p x n linked at';
            counted = omega arith;
            elements = refl;
            starts = starts;
            ends = refl;
          },
        ))

  remove_inner :
      (l : LinkedList A) (q : Ptr) (y : A) (ys : Line A) (p : Ptr) (x : A) (r : Ptr) (z : A)
      (m : Line A)
      → Linked l.heap.cells null (((q, y) ∷ ys) ++ (p, x) ∷ (r, z) ∷ m) null
      → l.len ≡ suc (length ys + suc (suc (length m)))
      → l.head ≡ q
      → l.tail ≡ last_or r m
      → Returns (Removes x (values (((q, y) ∷ ys) ++ (r, z) ∷ m))) (list_remove_node l p)
  unfolding list_remove_node
  remove_inner l q y ys p x r z m linked counted starts ends =
      let (nonnull, at, out, out', (nonnull'', at'', once'', rest)) =
        at_node l.heap.cells null ((q, y) ∷ ys) p x ((r, z) ∷ m) null linked in
      let (n, at', next, nonnull') =
        at_last l.heap.cells null q y ys p
          (Linked-prefix l.heap.cells null ((q, y) ∷ ys) ((p, x) ∷ (r, z) ∷ m) null linked) in
      let apart = last_or-apart l.heap.cells null q y ys p x ((r, z) ∷ m) null linked in
      let there : (p == null) ≡ false = ground arith in
      let there' : (last_or q ys == null) ≡ false = ground arith in
      let there'' : (r == null) ≡ false = ground arith in
      let left = more_left l.len (length ys) (length m) counted in
      let not_first : (p == l.head) ≡ false = rw starts (ground arith) in
      let not_last : (p == l.tail) ≡ false = rw ends (not-last p r z m out') in
      let p_apart : (p == last_or q ys) ≡ false = not-last p q y ys out in
      let r_apart : (r == last_or q ys) ≡ false = ground arith in
      let node : Node A = record { prev = last_or q ys; next = r; value = x } in
      let node' : Node A = record { prev = p; next = first_or m null; value = z } in
      let c = write l.heap.cells (last_or q ys) (some (record n { next = r })) in
      let found : find c p ≡ some node = rw p_apart at in
      let found' : find c r ≡ some node' = rw r_apart at'' in
      rw (there, at, left, not_first, not_last, there', at', found, there'', found')
        (returns (
          refl,
          record {
            line = ((q, y) ∷ ys) ++ (r, z) ∷ m;
            linked = Linked-drop l.heap.cells null q y ys p x r z m null n node' linked at' at'';
            counted = omega (arith, length-append ((q, y) ∷ ys) ((r, z) ∷ m));
            elements = refl;
            starts = starts;
            ends = ends ∙ sym (last_or-append null ((q, y) ∷ ys) r z m);
          },
        ))

  -- list_remove_node on the node between `ys` and `zs`
  pub list_remove_node-Removes :
      (l : LinkedList A) (ys : Line A) (p : Ptr) (x : A) (zs : Line A)
      → Linked l.heap.cells null (ys ++ (p, x) ∷ zs) null
      → l.len ≡ length (ys ++ (p, x) ∷ zs)
      → l.head ≡ first_or (ys ++ (p, x) ∷ zs) null
      → l.tail ≡ last_or null (ys ++ (p, x) ∷ zs)
      → Returns (Removes x (values (ys ++ zs))) (list_remove_node l p)
  list_remove_node-Removes l [] p x [] linked counted starts ends =
      remove_single l p x linked (omega arith)
  list_remove_node-Removes l [] p x ((r, z) ∷ m) linked counted starts ends =
      remove_head l p x r z m linked (omega arith) starts ends
  list_remove_node-Removes l ((q, y) ∷ ys) p x [] linked counted starts ends = rw (append-nil ys) (
      remove_tail l q y ys p x linked (omega (arith, length-append ((q, y) ∷ ys) ((p, x) ∷ [])))
        starts (ends ∙ last_or-append null ((q, y) ∷ ys) p x []))
  list_remove_node-Removes l ((q, y) ∷ ys) p x ((r, z) ∷ m) linked counted starts ends =
      remove_inner l q y ys p x r z m linked
        (omega (arith, length-append ((q, y) ∷ ys) ((p, x) ∷ (r, z) ∷ m))) starts
        (ends ∙ last_or-append null ((q, y) ∷ ys) p x ((r, z) ∷ m))
