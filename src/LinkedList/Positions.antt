-- ===== src/LinkedList/Positions.antt =====
-- list_get and list_remove_at at each index.
use mathlib.Core.Path.{subst}
use mathlib.Core.List.{append-nil}
use vlib.Base.{
  Bool-cases, ℕ, zero, suc, ◌<◌, ◌≤◌, ◌++◌, ◌≡◌, refl, sym, ap, ◌∙◌, List, [], ◌∷◌, none, some,
  true, false, ok, fault, Returns, returns, Returns-bind, arith, length, length-append, ltb, inl,
  inr, ◌⊎◌,
}
use vlib.Heap.{Ptr, null, Heap, deref, deref-ok}
use vlib.Heap.Lines.{Line, values, length-values}
use vlib.LinkedList.{
  Node, LinkedList, walk, list_get_at, list_get, list_remove_at, list_remove_node,
}
use vlib.LinkedList.Chains.{first_or, last_or, Linked, at_node}
use vlib.LinkedList.Contents.{IsList, len-IsList}
use vlib.LinkedList.Removal.{Removes, list_remove_node-Removes}

pub not_ltb : (a b : ℕ) → b ≤ a → ltb a b ≡ false
not_ltb a b h = ground arith

beyond_lt : (a b c : ℕ) → a ≡ b → ltb a c ≡ true → b < c
beyond_lt a b c e h = ground arith

at_end : (a b c : ℕ) → a ≡ b → ltb a c ≡ false → b ≤ c → c ≡ b
at_end a b c e h far = ground arith

module _ {ℓ} {A : Type ℓ} where
  walk-Linked :
      (h : Heap (Node A)) (b : Ptr) (ys m : Line A) (e : Ptr)
      → Linked h.cells b (ys ++ m) e
      → walk h (length ys) (first_or (ys ++ m) e) ≡ ok (first_or m e)
  unfolding walk
  walk-Linked h b [] m e linked = refl
  walk-Linked h b ((p, x) ∷ ys) m e (nonnull, at, once, linked) =
      rw (deref-ok h p _ nonnull at) (walk-Linked h p ys m e linked)

  abbrev SplitsAt : Line A → ℕ → Type ℓ
  SplitsAt line idx =
      ((ys : Line A) × (p : Ptr) × (x : A) × (zs : Line A) × (line ≡ ys ++ (p, x) ∷ zs)
        × (length ys ≡ idx))
      ⊎ (length line ≤ idx)

  splits_at : (line : Line A) (idx : ℕ) → SplitsAt line idx
  splits_at [] idx = inr (omega arith)
  splits_at ((p, x) ∷ line) zero = inl ([], p, x, line, refl, refl)
  splits_at ((p, x) ∷ line) (suc idx) = elim (splits_at line idx) [
    | inl (ys, q, y, zs, e, n) ↦ inl ((p, x) ∷ ys, q, y, zs, ap (◌∷◌ (p, x)) e, ap suc n)
    | inr far ↦ inr (omega arith)
  ]

  values-split :
      (ys : Line A) (p : Ptr) (x : A) (zs : Line A)
      → values (ys ++ (p, x) ∷ zs) ≡ values ys ++ x ∷ values zs
  values-split [] p x zs = refl
  values-split ((q, y) ∷ ys) p x zs = ap (◌∷◌ y) (values-split ys p x zs)

  values-join : (ys zs : Line A) → values (ys ++ zs) ≡ values ys ++ values zs
  values-join [] zs = refl
  values-join ((q, y) ∷ ys) zs = ap (◌∷◌ y) (values-join ys zs)

  -- list_remove_node on a node of the list
  pub remove-IsList :
      (l : LinkedList A) (xs : List A) (h : IsList l xs) (ys : Line A) (p : Ptr) (x : A)
      (zs : Line A)
      → h.line ≡ ys ++ (p, x) ∷ zs
      → Returns (Removes x (values ys ++ values zs)) (list_remove_node l p)
  remove-IsList l xs h ys p x zs e =
      subst (λ v. Returns (Removes x v) (list_remove_node l p)) (values-join ys zs)
        (list_remove_node-Removes l ys p x zs
          (subst (λ k. Linked l.heap.cells null k null) e h.linked) (h.counted ∙ ap length e)
          (h.starts ∙ ap (λ k. first_or k null) e) (h.ends ∙ ap (last_or null) e))

  pub elements-split :
      (l : LinkedList A) (xs : List A) (h : IsList l xs) (ys : Line A) (p : Ptr) (x : A)
      (zs : Line A)
      → h.line ≡ ys ++ (p, x) ∷ zs
      → xs ≡ values ys ++ x ∷ values zs
  elements-split l xs h ys p x zs e = sym h.elements ∙ ap values e ∙ values-split ys p x zs

  get_at-split :
      (l : LinkedList A) (xs : List A) (h : IsList l xs) (ys m : Line A) (idx : ℕ)
      → h.line ≡ ys ++ m
      → length ys ≡ idx
      → list_get_at l idx ≡ ok (first_or m null)
  unfolding list_get_at
  get_at-split l xs h ys m idx e n =
      rw (← n, h.starts, e)
        (walk-Linked l.heap null ys m null
          (subst (λ k. Linked l.heap.cells null k null) e h.linked))

  -- list_get and list_remove_at at the index `idx` of a list that stands for `xs`
  abbrev pub Reaches : LinkedList A → List A → ℕ → Type ℓ
  Reaches l xs idx =
      ((ys : List A) × (x : A) × (zs : List A) × (xs ≡ ys ++ x ∷ zs)
        × (length ys ≡ idx)
        × (list_get l idx ≡ ok (some x))
        × Returns (λ (out, r). (out ≡ some x) × IsList r (ys ++ zs)) (list_remove_at l idx))
      ⊎ (((idx ≡ length xs) × (list_get l idx ≡ fault) × (list_remove_at l idx ≡ fault))
          ⊎ ((length xs < idx)
              × (list_get l idx ≡ ok none)
              × (list_remove_at l idx ≡ ok (none, l))))

  inside :
      (l : LinkedList A) (xs : List A) (idx : ℕ) (h : IsList l xs) (ys : Line A) (p : Ptr) (x : A)
      (zs : Line A)
      → h.line ≡ ys ++ (p, x) ∷ zs
      → length ys ≡ idx
      → Reaches l xs idx
  unfolding list_get list_remove_at
  inside l xs idx h ys p x zs e n =
      let small : ltb l.len idx ≡ false =
        not_ltb l.len idx
          (omega (arith, h.counted, ap length e, length-append ys ((p, x) ∷ zs), n)) in
      let at = get_at-split l xs h ys ((p, x) ∷ zs) idx e n in
      let (nonnull, found, out, out', rest) =
        at_node l.heap.cells null ys p x zs null
          (subst (λ k. Linked l.heap.cells null k null) e h.linked) in
      inl (
        values ys,
        x,
        values zs,
        elements-split l xs h ys p x zs e,
        length-values ys ∙ n,
        rw (small, at, deref-ok l.heap p _ nonnull found) refl,
        rw (small, at)
            (Returns-bind _ _ (remove-IsList l xs h ys p x zs e)
              λ (y, r) (same, hr). returns (ap some same, hr)),
      )

  outside :
      (l : LinkedList A) (xs : List A) (idx : ℕ) (h : IsList l xs)
      → length h.line ≤ idx
      → Reaches l xs idx
  unfolding list_get list_remove_at list_remove_node deref
  outside l xs idx h far =
      let total = len-IsList l xs h in
      elim (Bool-cases (ltb l.len idx)) [
        | inl beyond ↦
            inr (inr (beyond_lt l.len (length xs) idx total beyond, rw beyond refl, rw beyond refl))
        | inr small ↦
            let here : idx ≡ length h.line = at_end l.len (length h.line) idx h.counted small far in
            let at : list_get_at l idx ≡ ok null =
              get_at-split l xs h h.line [] idx (sym (append-nil h.line)) (sym here) in
            inr (inl (here ∙ sym h.counted ∙ total, rw (small, at) refl, rw (small, at) refl))
      ]

  -- On a list that stands for `xs`, below the length list_get returns the element at the index and
  -- list_remove_at takes it out; at the length both read a null pointer; beyond it both fail and
  -- leave the list.
  pub list_get-list_remove_at :
      (l : LinkedList A) (xs : List A) (idx : ℕ) → IsList l xs → Reaches l xs idx
  list_get-list_remove_at l xs idx h = elim (splits_at h.line idx) [
    | inl (ys, p, x, zs, e, n) ↦ inside l xs idx h ys p x zs e n
    | inr far ↦ outside l xs idx h far
  ]
