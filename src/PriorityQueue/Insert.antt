-- ===== src/PriorityQueue/Insert.antt =====
-- pq_insert keeps the heap order.
use vlib.Base.{
  refl, ◌∙◌, sym, ap, ℕ, suc, ◌-◌, ◌*◌, ◌%◌, ◌<◌, ◌≡◌, List, [], ◌∷◌, ◌++◌, Perm, Run, ok, ◌>>=◌,
  Returns, returns, Returns-bind, Status, success, failure, Bool, false, Bool-cases, inl, inr,
  arith, word, length, take, drop, ltb, replicate, ◌==◌, length-perm, take-append_whole,
  length-append, length-drop,
}
use vlib.Cmp.{CmpFn, IsCmp}
use vlib.Array.{store}
use vlib.Array.Prefix.{take-drop}
use vlib.Vec.{Vec, vec_push, vec_realloc, append_element}
use vlib.Vec.Contents.{IsValid, contents, Pushes, vec_push-Pushes, length-contents}
use vlib.PriorityQueue.{Pq, pq_realloc, put, pq_insert, heapify_up}
use vlib.PriorityQueue.Heap.{IsHeap, heapify_up-IsHeap, heapify_up-append}

module _ {ℓ} {A : Type ℓ} where
  -- the block of a queue is laid out as that of a vector
  abbrev pub as_vec : Pq A → Vec A
  as_vec pq = record { len = pq.len; cap = pq.cap; data_size = pq.data_size; slots = pq.slots }

  abbrev pub elements : Pq A → List A
  elements pq = contents (as_vec pq)

  -- a queue with its length in its capacity, and its elements in heap order
  abbrev pub IsQueue : CmpFn A → Pq A → Type ℓ
  IsQueue fn pq = IsValid (as_vec pq) × IsHeap fn (elements pq)

  -- what an insertion leaves: one element more, or nothing changed for want of memory
  abbrev pub Inserts : Bool → CmpFn A → Pq A → A → Status × Pq A → Type ℓ
  Inserts allocated fn pq x (success, p) = IsQueue fn p × Perm (elements p) (elements pq ++ x ∷ [])
  Inserts allocated fn pq x (failure, p) = (p ≡ pq) × (allocated ≡ false) × (pq.len ≡ pq.cap)

  -- the rest of the insertion, after the element was put behind the others
  abbrev lift : CmpFn A → Pq A → ℕ → Status × Vec A → Run (Status × Pq A)
  lift fn pq n (success, w) = heapify_up fn w.slots n >>= λ a.
      ok (success, record { len = w.len; cap = w.cap; data_size = w.data_size; slots = a })
  lift fn pq n (failure, w) = ok (failure, pq)

  module _ (zeroed : A) (allocated : Bool) (fn : CmpFn A) (pq : Pq A) (x : A) where
    put-vec : (p : Pq A) → put fn p x ≡ (append_element (as_vec p) x >>= lift fn pq p.len)
    unfolding put append_element
    put-vec p = elim (Bool-cases (ltb p.len (length p.slots))) [
      | inl room ↦ rw (room, store) refl
      | inr beyond ↦ rw (beyond, store) refl
    ]

    -- pq_insert is vec_push, followed by heapify_up
    pq_insert-vec :
        pq_insert zeroed allocated fn pq x
        ≡ (vec_push zeroed allocated (as_vec pq) x >>= lift fn pq pq.len)
    unfolding pq_insert vec_push vec_realloc pq_realloc
    pq_insert-vec = elim (Bool-cases (pq.len == pq.cap)) [
      | inr free ↦ rw free (put-vec pq)
      | inl full ↦ rw full (elim (Bool-cases allocated) [
        | inr short ↦ rw short refl
        | inl given ↦ rw given (elim (Bool-cases (ltb ((pq.cap * 2) % word) pq.len)) [
          | inl wrapped ↦ rw wrapped refl
          | inr fits ↦ rw fits (
              put-vec (record pq {
                cap = (pq.cap * 2) % word;
                slots = take pq.len pq.slots ++ replicate ((pq.cap * 2) % word - pq.len) zeroed;
              }))
        ])
      ])
    ]

    -- the elements in heap order, in front of the unused room
    abbrev Raised : List A → List A → Type ℓ
    Raised rest a = (b : List A) × (a ≡ b ++ rest) × Perm b (elements pq ++ x ∷ []) × IsHeap fn b

    raise :
        IsCmp fn
        → IsValid (as_vec pq)
        → IsHeap fn (elements pq)
        → (slots rest : List A) → slots ≡ (elements pq ++ x ∷ []) ++ rest
        → Returns (Raised rest) (heapify_up fn slots pq.len)
    raise laws valid heap slots rest e =
        let old = length-contents (as_vec pq) valid in
        let size = length-append (elements pq) (x ∷ []) in
        let raised = rw old at (heapify_up-IsHeap fn laws (elements pq) x heap) in
        rw (e, heapify_up-append fn laws x pq.len (elements pq ++ x ∷ []) rest (omega arith))
          (Returns-bind _ _ raised λ b (same, ordered). returns (b, refl, same, ordered))

    lift-Inserts :
        IsCmp fn
        → IsQueue fn pq
        → (r : Status × Vec A) → Pushes allocated (as_vec pq) x r
        → Returns (Inserts allocated fn pq x) (lift fn pq pq.len r)
    lift-Inserts laws (valid, heap) (failure, w) (e, refused, full) = returns (refl, refused, full)
    lift-Inserts laws (valid, heap) (success, w) (hw, c) =
        let rest = drop w.len w.slots in
        let old = length-contents (as_vec pq) valid in
        let new = length-contents w hw in
        let size = length-append (elements pq) (x ∷ []) in
        let grown : w.len ≡ suc pq.len = omega (arith, ap length c) in
        let whole : w.slots ≡ (elements pq ++ x ∷ []) ++ rest =
          sym (take-drop w.len w.slots) ∙ ap (λ l. l ++ rest) c in
        let moved = raise laws valid heap w.slots rest whole in
        Returns-bind _ _ moved λ a (b, e, same, ordered).
          let room = hw.room in
          let bounded = hw.bounded in
          let length_b : length b ≡ w.len = omega (arith, length-perm same) in
          let front : take w.len a ≡ b = rw e (take-append_whole w.len b rest length_b) in
          returns (
            (
              record {
                room = rw e (omega (arith, length-append b rest, length-drop w.len w.slots));
                bounded = hw.bounded;
                least = hw.least;
                small = hw.small;
              },
              rw front ordered,
            ),
            rw front same,
          )

  -- On a queue in heap order whose doubled capacity fits a size_t, pq_insert either adds exactly the
  -- new element and keeps the heap order and the bounds, or returns -1, with the queue unchanged,
  -- which it does only if the queue was full and realloc gave no memory.
  pub pq_insert-Inserts :
      (zeroed : A) (allocated : Bool) (fn : CmpFn A) (pq : Pq A) (x : A)
      → IsCmp fn
      → IsQueue fn pq
      → pq.cap * 2 < word
      → Returns (Inserts allocated fn pq x) (pq_insert zeroed allocated fn pq x)
  pq_insert-Inserts zeroed allocated fn pq x laws q small =
      rw (pq_insert-vec zeroed allocated fn pq x) (
        Returns-bind _ _ (vec_push-Pushes zeroed allocated (as_vec pq) x q.0 small)
          (lift-Inserts zeroed allocated fn pq x laws q))
