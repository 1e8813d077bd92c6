-- ===== src/LinkedList/Chains.antt =====
-- The chain of nodes that a doubly linked list stands for.
use vlib.Base.{◌++◌, ◌≡◌, ◌≢◌, refl, [], ◌∷◌, Option, none, some, true, false, arith, ◌==◌}
use vlib.Heap.{Ptr, null, Cells, find, write}
use vlib.Heap.Lines.{Line, has, has-append}
use vlib.LinkedList.{Node}

module _ {ℓ} {A : Type ℓ} where
  abbrev pub first_or : Line A → Ptr → Ptr
  first_or [] e = e
  first_or ((p, x) ∷ line) e = p

  abbrev pub last_or : Ptr → Line A → Ptr
  last_or b [] = b
  last_or b ((p, x) ∷ line) = last_or p line

  -- the nodes of a line lead to each other both ways, from `b` before them to `e` behind them; no
  -- node occurs twice
  abbrev pub Linked : Cells (Node A) → Ptr → Line A → Ptr → Type ℓ
  Linked c b [] e = Unit
  Linked c b ((p, x) ∷ line) e =
      (p ≢ null)
      × (find c p ≡ some (record { prev = b; next = first_or line e; value = x }))
      × (has p line ≡ false)
      × Linked c p line e

  -- a change elsewhere
  pub Linked-write :
      (c : Cells (Node A)) (a : Ptr) (n : Option (Node A)) (b : Ptr) (line : Line A) (e : Ptr)
      → has a line ≡ false
      → Linked c b line e
      → Linked (write c a n) b line e
  Linked-write c a n b [] e out h = tt
  Linked-write c a n b ((p, x) ∷ line) e out (nonnull, at, once, h) =
      (nonnull, ground arith, once, Linked-write c a n p line e (ground arith) h)

  pub not-has_free :
      (c : Cells (Node A)) (a b : Ptr) (line : Line A) (e : Ptr)
      → find c a ≡ none
      → Linked c b line e
      → has a line ≡ false
  not-has_free c a b [] e free h = refl
  not-has_free c a b ((p, x) ∷ line) e free (nonnull, at, once, h) =
      ground (arith, not-has_free c a p line e free h)

  pub has-last : (p : Ptr) (x : A) (line : Line A) → has (last_or p line) ((p, x) ∷ line) ≡ true
  has-last p x [] = ground arith
  has-last p x ((q, y) ∷ line) = ground (arith, has-last q y line)

  -- the last node of a line
  pub at_last :
      (c : Cells (Node A)) (b p : Ptr) (x : A) (line : Line A) (e : Ptr)
      → Linked c b ((p, x) ∷ line) e
      → (n : Node A) × (find c (last_or p line) ≡ some n) × (n.next ≡ e) × (last_or p line ≢ null)
  at_last c b p x [] e (nonnull, at, once, h) = (_, at, refl, nonnull)
  at_last c b p x ((q, y) ∷ line) e (nonnull, at, once, h) = at_last c p q y line e h

  -- a node in the middle
  pub at_node :
      (c : Cells (Node A)) (b : Ptr) (l : Line A) (p : Ptr) (x : A) (m : Line A) (e : Ptr)
      → Linked c b (l ++ (p, x) ∷ m) e
      → (p ≢ null)
        × (find c p ≡ some (record { prev = last_or b l; next = first_or m e; value = x }))
        × (has p l ≡ false)
        × (has p m ≡ false)
        × Linked c p m e
  at_node c b [] p x m e (nonnull, at, once, h) = (nonnull, at, refl, once, h)
  at_node c b ((q, y) ∷ l) p x m e (nonnull, at, once, h) =
      let (p_nonnull, p_at, out, out', rest) = at_node c q l p x m e h in
      (p_nonnull, p_at, ground (arith, has-append q l ((p, x) ∷ m)), out', rest)

  pub not-last :
      (a q : Ptr) (y : A) (line : Line A)
      → has a ((q, y) ∷ line) ≡ false
      → (a == last_or q line) ≡ false
  not-last a q y [] out = ground arith
  not-last a q y ((r, z) ∷ line) out = not-last a r z line (ground arith)

  not-has_one :
      (p fresh : Ptr) (z : A) (line : Line A) (x : A)
      → has fresh ((p, x) ∷ line) ≡ false
      → has p ((fresh, z) ∷ []) ≡ false
  not-has_one p fresh z line x out = ground arith

  has-append_out :
      (a : Ptr) (l m : Line A) → has a l ≡ false → has a m ≡ false → has a (l ++ m) ≡ false
  has-append_out a l m out out' = ground (arith, has-append a l m)

  -- a new node behind the last one
  pub Linked-append :
      (c : Cells (Node A)) (b p : Ptr) (x : A) (line : Line A) (fresh : Ptr) (z : A) (n : Node A)
      → Linked c b ((p, x) ∷ line) null
      → fresh ≢ null
      → has fresh ((p, x) ∷ line) ≡ false
      → find c fresh ≡ some (record { prev = last_or p line; next = null; value = z })
      → find c (last_or p line) ≡ some n
      → Linked
          (write c (last_or p line) (some (record n { next = fresh })))
          b
          (((p, x) ∷ line) ++ (fresh, z) ∷ [])
          null
  Linked-append c b p x [] fresh z n (nonnull, at, once, h) new out there last =
      (nonnull, ground arith, ground arith, (new, ground arith, refl, tt))
  Linked-append c b p x ((q, y) ∷ line) fresh z n (nonnull, at, once, h) new out there last =
      let other = not-last p q y line once in
      let apart : has p ((fresh, z) ∷ []) ≡ false = not-has_one p fresh z ((q, y) ∷ line) x out in
      (
        nonnull,
        rw other at,
        has-append_out p ((q, y) ∷ line) ((fresh, z) ∷ []) once apart,
        Linked-append c p q y line fresh z n h new (ground arith) there last,
      )

  -- the last node taken out
  pub Linked-drop_last :
      (c : Cells (Node A)) (b q : Ptr) (y : A) (l : Line A) (p : Ptr) (x : A) (n : Node A)
      → Linked c b (((q, y) ∷ l) ++ (p, x) ∷ []) null
      → find c (last_or q l) ≡ some n
      → Linked
          (write (write c p none) (last_or q l) (some (record n { next = null })))
          b
          ((q, y) ∷ l)
          null
  Linked-drop_last c b q y [] p x n (nonnull, at, once, h) last = (nonnull, ground arith, refl, tt)
  Linked-drop_last c b q y ((r, z) ∷ l) p x n (nonnull, at, once, h) last =
      let apart = has-append q ((r, z) ∷ l) ((p, x) ∷ []) in
      (
        nonnull,
        ground (arith, has-last r z l, apart),
        ground (arith, apart),
        Linked-drop_last c q r z l p x n h last,
      )

  -- a node between two others taken out
  pub Linked-drop :
      (c : Cells (Node A)) (b q : Ptr) (y : A) (l : Line A) (p : Ptr) (x : A) (r : Ptr) (z : A)
      (m : Line A) (e : Ptr) (n n' : Node A)
      → Linked c b (((q, y) ∷ l) ++ (p, x) ∷ (r, z) ∷ m) e
      → find c (last_or q l) ≡ some n
      → find c r ≡ some n'
      → Linked
          (write
            (write
              (write c (last_or q l) (some (record n { next = r })))
              r
              (some (record n' { prev = last_or q l })))
            p
            none)
          b
          (((q, y) ∷ l) ++ (r, z) ∷ m)
          e
  Linked-drop c b q y [] p x r z m e n n' (nonnull, at, once, (pn, pat, ponce, (rn, rat, ronce, h)))
        last there =
      (
        nonnull,
        ground arith,
        ground arith,
        (
          rn,
          ground arith,
          ronce,
          Linked-write
              (write (write c q (some (record n { next = r }))) r (some (record n' { prev = q }))) p
              none r m e (ground arith)
              (Linked-write (write c q (some (record n { next = r }))) r
                (some (record n' { prev = q })) r m e ronce
                (Linked-write c q (some (record n { next = r })) r m e (ground arith) h)),
        ),
      )
  Linked-drop c b q y ((s, w) ∷ l) p x r z m e n n' (nonnull, at, once, h) last there =
      let apart = has-append q ((s, w) ∷ l) ((p, x) ∷ (r, z) ∷ m) in
      let apart' = has-append q ((s, w) ∷ l) ((r, z) ∷ m) in
      (
        nonnull,
        ground (arith, has-last s w l, apart),
        ground (arith, apart, apart'),
        Linked-drop c q s w l p x r z m e n n' h last there,
      )

  pub Linked-prefix :
      (c : Cells (Node A)) (b : Ptr) (l m : Line A) (e : Ptr)
      → Linked c b (l ++ m) e
      → Linked c b l (first_or m e)
  Linked-prefix c b [] m e h = tt
  Linked-prefix c b ((p, x) ∷ []) [] e (nonnull, at, once, h) = (nonnull, at, refl, tt)
  Linked-prefix c b ((p, x) ∷ []) ((q, y) ∷ m) e (nonnull, at, once, h) = (nonnull, at, refl, tt)
  Linked-prefix c b ((p, x) ∷ (r, z) ∷ l) m e (nonnull, at, once, h) = (
    nonnull,
    at,
    ground (arith, has-append p ((r, z) ∷ l) m),
    Linked-prefix c p ((r, z) ∷ l) m e h,
  )

  -- the last node of a line is none of those behind it
  pub last_or-apart :
      (c : Cells (Node A)) (b q : Ptr) (y : A) (l : Line A) (p : Ptr) (x : A) (m : Line A) (e : Ptr)
      → Linked c b (((q, y) ∷ l) ++ (p, x) ∷ m) e
      → has (last_or q l) ((p, x) ∷ m) ≡ false
  last_or-apart c b q y [] p x m e (nonnull, at, once, h) = once
  last_or-apart c b q y ((s, w) ∷ l) p x m e (nonnull, at, once, h) =
      last_or-apart c q s w l p x m e h

  pub last_or-append :
      (b : Ptr) (line : Line A) (r : Ptr) (z : A) (m : Line A)
      → last_or b (line ++ (r, z) ∷ m) ≡ last_or r m
  last_or-append b [] r z m = refl
  last_or-append b ((q, y) ∷ line) r z m = last_or-append q line r z m
