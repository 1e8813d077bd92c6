-- ===== src/PriorityQueue/Heap.antt =====
-- Moving a new element up restores the heap order and only exchanges elements.
use mathlib.Core.List.Perm
use vlib.Base.{
  refl, ◌++◌, ok, ◌>>=◌, [], ◌∷◌, length-append, length-perm, get_elem?-eq-get_or, ℕ, zero, suc,
  ◌≤◌, ◌<◌, ◌≡◌, List, Perm, Returns, returns, Returns-map, Bool-cases, inl, inr, arith, length,
  get_or, true, get_elem?, some, ◌==◌, ◌∙◌, ◌≢◌, sym, get_elem?-some,
}
use vlib.Cmp.{CmpFn, IsCmp, is_pos, Le, Le-total}
use vlib.Array.Prefix.{load-append, swap-append, get_or-append}
use vlib.Array.{load-ok, swapped, swap-ok, length-swapped, get_or-swapped, swapped-perm}
use vlib.PriorityQueue.{parent_idx, heapify_up}

module _ {ℓ} {A : Type ℓ} (fn : CmpFn A) where
  -- no element stands below a greater one
  abbrev pub IsHeap : List A → Type ℓ
  IsHeap xs =
      (i : ℕ) (x y : A)
      → 0 < i
      → get_elem? xs (parent_idx i) ≡ some x
      → get_elem? xs i ≡ some y
      → Le fn x y

  module _ (laws : IsCmp fn) (d : A) where
    -- The entries up to `last` are in heap order, but for the entry at `k`, which may be too small
    -- for its place.
    record Rising (k last : ℕ) (a : List A) : Type 0 where
      inside : last < length a
      edges : (i : ℕ) → 0 < i → i ≤ last → i ≢ k → Le fn (get_or a (parent_idx i) d) (get_or a i d)
      around :
          (i : ℕ)
          → 0 < i
          → 0 < k
          → i ≤ last
          → parent_idx i ≡ k
          → Le fn (get_or a (parent_idx k) d) (get_or a i d)

    Rising-settled :
        (k last : ℕ) (a : List A)
        → Rising k last a
        → Le fn (get_or a (parent_idx k) d) (get_or a k d)
        → Rising 0 last a
    Rising-settled k last a r le = record {
      inside = r.inside;
      edges = λ i pos h ne. ground (arith, r.edges i);
      around = λ i pos zk h e. absurd (omega arith);
    }

    module _ (k last : ℕ) (a : List A) (r : Rising k last a) (pos : 0 < k) (h : k ≤ last)
        (gt : is_pos (fn (get_or a (parent_idx k) d) (get_or a k d)) ≡ true) where
      abbrev p : ℕ
      p = parent_idx k

      abbrev b : List A
      b = swapped d a k p

      hk : k < length a
      hk = let inside = r.inside in omega arith

      hp : p < length a
      hp = let inside = r.inside in omega arith

      below : Le fn (get_or a k d) (get_or a p d)
      below = Le-total fn laws (get_or a p d) (get_or a k d) gt

      -- a child of `p` other than `k` is not less than the entry that moves up
      beside :
          (i : ℕ)
          → 0 < i
          → i ≤ last
          → i ≢ k
          → parent_idx i ≡ p
          → Le fn (get_or a p d) (get_or a i d)
      beside i zi hi ne e = rw (sym e) (r.edges i zi hi ne)

      Rising-swapped : Rising p last b
      Rising-swapped =
          let inside = r.inside in
          let at = get_or-swapped d a k p hk hp in
          record {
            inside = omega (arith, length-swapped d a k p);
            edges = λ i zi hi ne. ground (
              arith,
              at i,
              at (parent_idx i),
              below,
              r.edges i,
              r.around i,
              beside i,
              laws.trans (get_or a k d) (get_or a p d) (get_or a i d),
            );
            around = λ i zi zp hi e. ground (
              arith,
              at i,
              at (parent_idx p),
              r.edges p,
              beside i,
              laws.trans (get_or a (parent_idx p) d) (get_or a p d) (get_or a i d),
            );
          }

    Rising-root : (k last : ℕ) (a : List A) → k ≡ 0 → Rising k last a → Rising 0 last a
    Rising-root k last a root r = record {
      inside = r.inside;
      edges = λ i pos h ne. r.edges i pos h (λ e. ne (e ∙ root));
      around = λ i pos zk h e. absurd (omega arith);
    }

    -- what moving up leaves: the same elements, in heap order up to `last`
    abbrev Risen : ℕ → List A → List A → Type ℓ
    Risen last a b = Perm b a × Rising 0 last b

    heapify_up-Risen :
        (n k last : ℕ) (a : List A)
        → k ≤ n
        → n ≤ last
        → Rising k last a
        → Returns (Risen last a) (heapify_up fn a n)
    unfolding heapify_up
    heapify_up-Risen zero k last a hk hn r =
        returns (Perm.rfl, Rising-root k last a (omega arith) r)
    heapify_up-Risen (suc n) k last a hk hn r =
        let inside = r.inside in
        let hp : parent_idx (suc n) < length a = omega arith in
        let hi : suc n < length a = omega arith in
        rw (load-ok a (parent_idx (suc n)) d hp, load-ok a (suc n) d hi)
          (elim (Bool-cases (is_pos (fn (get_or a (parent_idx (suc n)) d) (get_or a (suc n) d)))) [
            | inl gt ↦
                let top : k ≡ suc n = ground (arith, r.edges (suc n)) in
                let here : Rising (suc n) last a = rw (sym top) r in
                rw (gt, swap-ok d a (suc n) (parent_idx (suc n)) hi hp)
                  (Returns-map _
                    (heapify_up-Risen n (parent_idx (suc n)) last
                      (swapped d a (suc n) (parent_idx (suc n))) (omega arith) (omega arith)
                      (Rising-swapped (suc n) last a here (omega arith) hn gt))
                    λ c (same, done).
                      (Perm.trans same (swapped-perm d a (suc n) (parent_idx (suc n)) hi hp), done))
            | inr le ↦ rw le (elim (Bool-cases (k == suc n)) [
              | inl top ↦
                  let here : k ≡ suc n = ground arith in
                  let fine : Le fn (get_or a (parent_idx k) d) (get_or a k d) = rw here le in
                  heapify_up-Risen n 0 last a (omega arith) (omega arith)
                    (Rising-settled k last a r fine)
              | inr under ↦
                  let above : k ≤ n = ground arith in
                  heapify_up-Risen n k last a above (omega arith) r
            ])
          ])

    -- moving up in the first part of an array is moving up in that part
    pub heapify_up-append :
        (n : ℕ) (a rest : List A)
        → n < length a
        → heapify_up fn (a ++ rest) n ≡ (heapify_up fn a n >>= λ b. ok (b ++ rest))
    unfolding heapify_up
    heapify_up-append zero a rest h = refl
    heapify_up-append (suc n) a rest h =
        let hp : parent_idx (suc n) < length a = omega arith in
        rw
          (
            load-append d a rest (parent_idx (suc n)) hp,
            load-append d a rest (suc n) h,
            load-ok a (parent_idx (suc n)) d hp,
            load-ok a (suc n) d h,
            swap-append d a rest (suc n) h (parent_idx (suc n)) hp,
            swap-ok d a (suc n) (parent_idx (suc n)) h hp,
          )
          (elim (Bool-cases (is_pos (fn (get_or a (parent_idx (suc n)) d) (get_or a (suc n) d)))) [
            | inl gt ↦ rw gt (
                heapify_up-append n (swapped d a (suc n) (parent_idx (suc n))) rest
                  (omega (arith, length-swapped d a (suc n) (parent_idx (suc n)))))
            | inr le ↦ rw le (heapify_up-append n a rest (omega arith))
          ])

  -- Moving the last element of an otherwise ordered list up gives an ordered list of the same
  -- elements.
  pub heapify_up-IsHeap :
      IsCmp fn
      → (xs : List A) (x : A) → IsHeap xs
      → Returns (λ b. Perm b (xs ++ x ∷ []) × IsHeap b) (heapify_up fn (xs ++ x ∷ []) (length xs))
  heapify_up-IsHeap laws xs x h =
      Returns-map _
        (heapify_up-Risen laws x (length xs) (length xs) (length xs) (xs ++ x ∷ []) (omega arith)
          (omega arith) start)
        λ b (same, done). (
          same,
          λ i y z pos e f. ground (
            arith,
            length-perm same,
            length-append xs (x ∷ []),
            get_elem?-some b (parent_idx i) x e,
            get_elem?-some b i x f,
            done.edges i,
          ),
        )
    where
      start : Rising laws x (length xs) (length xs) (xs ++ x ∷ [])
      start = record {
        inside = omega (arith, length-append xs (x ∷ []));
        edges = λ i pos le ne. ground (
          arith,
          h i (get_or xs (parent_idx i) x) (get_or xs i x) pos,
          get_elem?-eq-get_or xs (parent_idx i) x,
          get_elem?-eq-get_or xs i x,
          get_or-append xs (x ∷ []) (parent_idx i) x,
          get_or-append xs (x ∷ []) i x,
        );
        around = λ i pos zk le e. absurd (omega arith);
      }
