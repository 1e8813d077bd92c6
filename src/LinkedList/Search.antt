-- ===== src/LinkedList/Search.antt =====
-- list_remove takes out the first element that compares equal; list_free.
use mathlib.Core.Path.{subst}
use mathlib.Core.List.{append-nil, append_assoc}
use vlib.Base.{
  ℕ, suc, ◌++◌, ◌≡◌, refl, sym, ap, ◌∙◌, List, [], ◌∷◌, Option, none, some, Bool, true, false, Run,
  ok, ◌>>=◌, Returns, returns, Returns-bind, arith, ◌==◌, if◌then◌else◌, length, inl, inr, ◌⊎◌,
  Bool-cases,
}
use vlib.Cmp.{CmpFn, is_zero}
use vlib.Heap.{Ptr, null, Heap, find, deref, deref-ok, release}
use vlib.Heap.Lines.{Line, has, values, values-append}
use vlib.LinkedList.{
  Node, LinkedList, list_remove_node, remove_loop, list_remove, free_chain, list_free,
}
use vlib.LinkedList.Chains.{first_or, Linked, Linked-write, at_node}
use vlib.LinkedList.Contents.{IsList}
use vlib.LinkedList.Positions.{remove-IsList, elements-split}

module _ {ℓ} {A : Type ℓ} where
  module _ (fn : CmpFn A) (d : A) where
    -- no element compares equal
    abbrev pub Misses : List A → Type 0
    Misses [] = Unit
    Misses (x ∷ xs) = (is_zero (fn d x) ≡ false) × Misses xs

    Misses-append : (xs ys : List A) → Misses xs → Misses ys → Misses (xs ++ ys)
    Misses-append [] ys h k = k
    Misses-append (x ∷ xs) ys (miss, h) k = (miss, Misses-append xs ys h k)

    -- the first element that compares equal is taken out, or there is none
    abbrev pub RemovesFirst : LinkedList A → List A → Run (Option A × LinkedList A) → Type ℓ
    RemovesFirst l xs run =
        ((ys : List A) × (x : A) × (zs : List A) × (xs ≡ ys ++ x ∷ zs)
          × Misses ys
          × (is_zero (fn d x) ≡ true)
          × Returns (λ (out, r). (out ≡ some x) × IsList r (ys ++ zs)) run)
        ⊎ (Misses xs × (run ≡ ok (none, l)))

    remove_loop-end : (l : LinkedList A) (p : Ptr) → remove_loop fn d l 0 p ≡ ok (none, l)
    unfolding remove_loop
    remove_loop-end l p = refl

    -- a round of the loop on a node
    step :
        (l : LinkedList A) (n : ℕ) (p : Ptr) (node : Node A)
        → deref l.heap p ≡ ok node
        → remove_loop fn d l (suc n) p ≡ (
            if is_zero (fn d node.value)
            then (list_remove_node l p >>= λ (y, r).
                ok (let out : Option A × LinkedList A = (some y, r) in out))
            else remove_loop fn d l n node.next)
    unfolding remove_loop
    step l n p node e = ap (λ run. run >>= λ node. round node) e
      where
        round : Node A → Run (Option A × LinkedList A)
        round node =
            if is_zero (fn d node.value)
            then (list_remove_node l p >>= λ (y, r).
                ok (let out : Option A × LinkedList A = (some y, r) in out))
            else remove_loop fn d l n node.next

    remove_loop-RemovesFirst :
        (l : LinkedList A) (xs : List A) (h : IsList l xs) (ys m : Line A)
        → h.line ≡ ys ++ m
        → Misses (values ys)
        → RemovesFirst l xs (remove_loop fn d l (length m) (first_or m null))
    remove_loop-RemovesFirst l xs h ys [] e missed =
        let all : xs ≡ values ys = sym h.elements ∙ ap values (e ∙ append-nil ys) in
        inr (subst Misses (sym all) missed, remove_loop-end l null)
    remove_loop-RemovesFirst l xs h ys ((p, x) ∷ m) e missed =
        let (nonnull, found, out, out', rest) =
          at_node l.heap.cells null ys p x m null
            (subst (λ k. Linked l.heap.cells null k null) e h.linked) in
        elim (Bool-cases (is_zero (fn d x))) [
          | inl hit ↦ inl (
            values ys,
            x,
            values m,
            elements-split l xs h ys p x m e,
            missed,
            hit,
            rw (step l (length m) p _ (deref-ok l.heap p _ nonnull found), hit)
                (Returns-bind _ _ (remove-IsList l xs h ys p x m e)
                  λ (y, r) (same, hr). returns (ap some same, hr)),
          )
          | inr miss ↦
              rw (step l (length m) p _ (deref-ok l.heap p _ nonnull found), miss)
                (remove_loop-RemovesFirst l xs h (ys ++ (p, x) ∷ []) m
                  (e ∙ sym (append_assoc ys ((p, x) ∷ []) m))
                  (subst Misses (sym (values-append ys p x))
                    (Misses-append (values ys) (x ∷ []) missed (miss, tt))))
        ]

    list_remove-loop : (l : LinkedList A) → list_remove fn l d ≡ remove_loop fn d l l.len l.head
    unfolding list_remove remove_loop
    list_remove-loop l = elim (Bool-cases (l.len == 0)) [
      | inl empty ↦
          let none_left : l.len ≡ 0 = ground arith in
          rw empty (subst (λ n. ok (none, l) ≡ remove_loop fn d l n l.head) (sym none_left) refl)
      | inr filled ↦ rw filled refl
    ]

    -- On a list that stands for `xs`, list_remove takes out the first element that compares equal,
    -- with the data passed first to the comparison, or fails and leaves the list if there is none.
    pub list_remove-RemovesFirst :
        (l : LinkedList A) (xs : List A) → IsList l xs → RemovesFirst l xs (list_remove fn l d)
    list_remove-RemovesFirst l xs h = rw (list_remove-loop l) (
        subst (λ n. RemovesFirst l xs (remove_loop fn d l n l.head)) (sym h.counted)
          (subst (λ p. RemovesFirst l xs (remove_loop fn d l (length h.line) p)) (sym h.starts)
            (remove_loop-RemovesFirst l xs h [] h.line refl tt)))

  -- what freeing a line of nodes leaves on the heap
  abbrev pub Frees : Line A → Heap (Node A) → List A × Heap (Node A) → Type ℓ
  Frees line heap (freed, left) =
      (freed ≡ values line)
      × ((a : Ptr) → find left.cells a ≡ (if has a line then none else find heap.cells a))

  free_chain-Frees :
      (heap : Heap (Node A)) (b : Ptr) (line : Line A)
      → Linked heap.cells b line null
      → Returns (Frees line heap) (free_chain heap (length line) (first_or line null))
  unfolding free_chain release
  free_chain-Frees heap b [] linked = returns (refl, λ a. refl)
  free_chain-Frees heap b ((p, x) ∷ line) (nonnull, at, once, linked) =
      rw (deref-ok heap p _ nonnull at) (
        Returns-bind _ _
          (free_chain-Frees (release heap p) p line
            (Linked-write heap.cells p none p line null once linked))
          λ (rest, left) (values_of, cells).
            returns (ap (◌∷◌ x) values_of, λ a. ground (arith, cells a)))

  -- list_free hands the elements of a list to the free function, in order, if there is one, and frees
  -- its nodes and no others.
  pub list_free-Frees :
      (fn : Bool) (l : LinkedList A) (xs : List A) (h : IsList l xs)
      → Returns
          (λ (freed, r).
            (freed ≡ (if fn then xs else []))
            × ((a : Ptr)
                → find r.heap.cells a ≡ (if has a h.line then none else find l.heap.cells a)))
          (list_free fn l)
  unfolding list_free
  list_free-Frees fn l xs h =
      rw (h.counted, h.starts)
        (Returns-bind _ _ (free_chain-Frees l.heap null h.line h.linked)
          λ (freed, heap) (values_of, cells). returns (rw (values_of, h.elements) refl, cells))
