-- ===== src/Queue/Chains.antt =====
-- The chain of nodes that a queue stands for.
use vlib.Base.{◌++◌, ◌≡◌, ◌≢◌, refl, [], ◌∷◌, Option, none, some, true, false, arith}
use vlib.Heap.{Ptr, null, Cells, find, write}
use vlib.Heap.Lines.{Line, has, has-append}
use vlib.Queue.{QNode}

module _ {ℓ} {A : Type ℓ} where
  abbrev pub first_of : Line A → Ptr
  first_of [] = null
  first_of ((p, x) ∷ line) = p

  abbrev pub last_of : Line A → Ptr
  last_of [] = null
  last_of ((p, x) ∷ []) = p
  last_of ((p, x) ∷ (q, y) ∷ line) = last_of ((q, y) ∷ line)

  -- each node but the last leads to the next one; no node occurs twice
  abbrev pub Chained : Cells (QNode A) → Line A → Type ℓ
  Chained c [] = Unit
  Chained c ((p, x) ∷ []) =
      (p ≢ null) × ((next : Option Ptr) × (find c p ≡ some (record { next = next; value = x })))
  Chained c ((p, x) ∷ (q, y) ∷ line) =
      (p ≢ null)
      × (find c p ≡ some (record { next = some q; value = x }))
      × (has p ((q, y) ∷ line) ≡ false)
      × Chained c ((q, y) ∷ line)

  pub not-has_free :
      (c : Cells (QNode A)) (a : Ptr) (line : Line A)
      → find c a ≡ none
      → Chained c line
      → has a line ≡ false
  not-has_free c a [] e h = refl
  not-has_free c a ((p, x) ∷ []) e (nonnull, (next, at)) = ground arith
  not-has_free c a ((p, x) ∷ (q, y) ∷ line) e (nonnull, at, out, h) =
      ground (arith, not-has_free c a ((q, y) ∷ line) e h)

  pub first_nonnull :
      (c : Cells (QNode A)) (p : Ptr) (x : A) (line : Line A) → Chained c ((p, x) ∷ line) → p ≢ null
  first_nonnull c p x [] (nonnull, rest) = nonnull
  first_nonnull c p x ((q, y) ∷ line) (nonnull, at, out, h) = nonnull

  -- a change elsewhere
  pub Chained-write :
      (c : Cells (QNode A)) (a : Ptr) (n : Option (QNode A)) (line : Line A)
      → has a line ≡ false
      → Chained c line
      → Chained (write c a n) line
  Chained-write c a n [] out h = tt
  Chained-write c a n ((p, x) ∷ []) out (nonnull, (next, at)) = (nonnull, (next, ground arith))
  Chained-write c a n ((p, x) ∷ (q, y) ∷ line) out (nonnull, at, twice, h) =
      (nonnull, ground arith, twice, Chained-write c a n ((q, y) ∷ line) (ground arith) h)

  pub has-last :
      (p : Ptr) (x : A) (line : Line A) → has (last_of ((p, x) ∷ line)) ((p, x) ∷ line) ≡ true
  has-last p x [] = ground arith
  has-last p x ((q, y) ∷ line) = ground (arith, has-last q y line)

  -- the last node of a chain, with whatever is in its `next`
  pub at_last :
      (c : Cells (QNode A)) (p : Ptr) (x : A) (line : Line A)
      → Chained c ((p, x) ∷ line)
      → (n : QNode A) × (find c (last_of ((p, x) ∷ line)) ≡ some n)
        × (last_of ((p, x) ∷ line) ≢ null)
  at_last c p x [] (nonnull, (next, at)) = (_, at, nonnull)
  at_last c p x ((q, y) ∷ line) (nonnull, at, out, h) = at_last c q y line h

  -- a new node behind the last one
  pub Chained-link :
      (c : Cells (QNode A)) (p : Ptr) (x : A) (line : Line A) (fresh : Ptr) (z : A) (n : QNode A)
      → Chained c ((p, x) ∷ line)
      → fresh ≢ null
      → find c fresh ≡ none
      → find c (last_of ((p, x) ∷ line)) ≡ some n
      → Chained
          (write
            (write c fresh (some (record { next = none; value = z })))
            (last_of ((p, x) ∷ line))
            (some (record n { next = some fresh })))
          (((p, x) ∷ line) ++ (fresh, z) ∷ [])
  Chained-link c p x [] fresh z n (nonnull, (next, at)) new unused last =
      (nonnull, ground arith, ground arith, (new, (none, ground arith)))
  Chained-link c p x ((q, y) ∷ line) fresh z n (nonnull, at, out, h) new unused last = (
    nonnull,
    ground (arith, has-last q y line),
    ground (arith, has-append p ((q, y) ∷ line) ((fresh, z) ∷ [])),
    Chained-link c q y line fresh z n h new unused last,
  )

  pub last-append : (line : Line A) (p : Ptr) (x : A) → last_of (line ++ (p, x) ∷ []) ≡ p
  last-append [] p x = refl
  last-append ((q, y) ∷ []) p x = refl
  last-append ((q, y) ∷ (r, z) ∷ line) p x = last-append ((r, z) ∷ line) p x
