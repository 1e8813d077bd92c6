-- ===== src/PriorityQueue/Delete.antt =====
-- pq_delete takes a least element off the queue.
use mathlib.Core.List.Perm
use mathlib.Core.List.{perm_append_singleton}
use vlib.Array.{swap}
use vlib.Array.{load}
use vlib.Vec.Contents.{IsValid, length-contents}
use vlib.PriorityQueue.{Pq, pq_delete}
use vlib.PriorityQueue.Insert.{IsQueue, elements, as_vec}
use vlib.Array.Prefix.{take-drop, store-append}
use mathlib.Core.List.{append_assoc}
use vlib.Array.{store-ok}
use vlib.Base.{
  ◌==◌, ◌≢◌, false, length-set, get_elem?, ◌-◌, drop, length-drop, length-append, take-append_whole,
  length-perm, get_elem?-some, true, false, take_all, take-set_next, take-next, ℕ, suc, ◌*◌, ◌<◌,
  ◌≡◌, refl, sym, ap, ◌∙◌, List, [], ◌∷◌, ◌++◌, Option, none, some, Perm, ok, Returns, returns,
  Returns-bind, Bool-cases, inl, inr, arith, word, length, get_or, take, set, length-take,
  length-set,
}
use vlib.Cmp.{CmpFn, IsCmp, Le}
use vlib.Array.{swapped, length-swapped, swapped-perm, get_or-swapped}
use vlib.Array.Prefix.{load-append, swap-append}
use vlib.PriorityQueue.Sink.{root-Le, heapify_down-Sunk}

module _ {ℓ} {A : Type ℓ} (fn : CmpFn A) where
  module _ (d : A) (xs : List A) (m : ℕ) (e : length xs ≡ suc m) where
    -- the elements that are left after the last one took the place of the first
    abbrev left : List A
    left = take m (swapped d xs 0 m)

    length-left : length left ≡ m
    length-left = omega (arith, length-take m (swapped d xs 0 m), length-swapped d xs 0 m)

    left-perm : Perm (get_or xs 0 d ∷ left) xs
    left-perm =
        let ys = swapped d xs 0 m in
        let size : length ys ≡ suc m = omega (arith, length-swapped d xs 0 m) in
        let last : get_or ys m d ≡ get_or xs 0 d =
          ground (arith, get_or-swapped d xs 0 m (omega arith) (omega arith) m) in
        let split : ys ≡ left ++ get_or xs 0 d ∷ [] =
          sym (take_all (suc m) ys (omega arith))
          ∙ take-next m ys d (omega arith)
          ∙ ap (λ x. left ++ x ∷ []) last in
        let all : Perm (left ++ get_or xs 0 d ∷ []) xs =
          rw (sym split) (swapped-perm d xs 0 m (omega arith) (omega arith)) in
        Perm.trans (Perm.symm (perm_append_singleton (get_or xs 0 d) left)) all

    cleared : (zeroed : A) → set (swapped d xs 0 m) m zeroed ≡ left ++ zeroed ∷ []
    cleared zeroed =
        let ys = swapped d xs 0 m in
        let size = length-swapped d xs 0 m in
        sym (take_all (suc m) (set ys m zeroed) (omega (arith, length-set ys m zeroed)))
        ∙ take-set_next m ys zeroed (omega arith)

  -- what a deletion leaves: without its element, which is a least one, all others
  abbrev pub Takes : Pq A → Option A × Pq A → Type ℓ
  Takes pq (none, p) = (p ≡ pq) × (pq.len ≡ 0)
  Takes pq (some x, p) =
      IsValid (as_vec p)
      × Perm (x ∷ elements p) (elements pq)
      × ((i : ℕ) (y : A) → get_elem? (elements pq) i ≡ some y → Le fn x y)

  module _ (zeroed : A) (laws : IsCmp fn) (pq : Pq A) (q : IsQueue fn pq)
      (some_left : 0 < pq.len) where
    abbrev xs : List A
    xs = elements pq

    abbrev m : ℕ
    m = pq.len - 1

    abbrev rest : List A
    rest = drop pq.len pq.slots

    size : length xs ≡ suc m
    size = omega (arith, length-contents (as_vec pq) q.0)

    whole : xs ++ rest ≡ pq.slots
    whole = take-drop pq.len pq.slots

    loads : load pq.slots 0 ≡ ok (get_or xs 0 zeroed)
    loads =
        let h = size in ap (λ s. load s 0) (sym whole) ∙ load-append zeroed xs rest 0 (omega arith)

    least : (i : ℕ) (y : A) → get_elem? xs i ≡ some y → Le fn (get_or xs 0 zeroed) y
    least i y e =
        ground (arith, get_elem?-some xs i zeroed e, root-Le fn laws xs zeroed q.1 (suc i) i)

    -- the queue after its root was exchanged and the others were put in order
    shrunk : List A → Pq A
    shrunk slots = record pq { len = m; slots = slots }

    shrunk-IsValid :
        (slots : List A) → length slots ≡ length pq.slots → IsValid (as_vec (shrunk slots))
    unfolding shrunk
    shrunk-IsValid slots e =
        let valid = q.0 in
        let room = valid.room in
        let bounded = valid.bounded in
        record {
          room = omega arith;
          bounded = omega arith;
          least = valid.least;
          small = valid.small;
        }

    shrunk-Takes :
        (front behind : List A)
        → Perm front (left zeroed xs m size)
        → length (front ++ behind) ≡ length pq.slots
        → Takes pq (some (get_or xs 0 zeroed), shrunk (front ++ behind))
    unfolding shrunk
    shrunk-Takes front behind same e =
        let size_front : length front ≡ m =
          omega (arith, length-perm same, length-left zeroed xs m size) in
        let kept : take m (front ++ behind) ≡ front = take-append_whole m front behind size_front in
        (
          shrunk-IsValid (front ++ behind) e,
          rw kept (Perm.trans (Perm.cons' refl same) (left-perm zeroed xs m size)),
          least,
        )

    only-Takes : pq.len ≡ 1 → Returns (Takes pq) (pq_delete zeroed fn pq)
    unfolding pq_delete shrunk
    only-Takes one =
        let room = q.0.room in
        let bounded = q.0.bounded in
        let some_more : (pq.len == 0) ≡ false = ground arith in
        let is_one : (pq.len == 1) ≡ true = ground arith in
        let no_more : m ≡ 0 = omega arith in
        let none_left : Perm [] (left zeroed xs m size) = rw no_more Perm.rfl in
        let length_set = length-set pq.slots 0 zeroed in
        rw (some_more, is_one, loads, store-ok pq.slots 0 zeroed (omega arith))
          (returns (shrunk-Takes [] (set pq.slots 0 zeroed) none_left length_set))

    more-Takes : pq.len ≢ 1 → pq.len * 2 < word → Returns (Takes pq) (pq_delete zeroed fn pq)
    unfolding pq_delete shrunk
    more-Takes several small =
        let room = q.0.room in
        let bounded = q.0.bounded in
        let lengths = size in
        let some_more : (pq.len == 0) ≡ false = ground arith in
        let not_one : (pq.len == 1) ≡ false = ground arith in
        let swaps : swap pq.slots 0 m ≡ ok (swapped zeroed xs 0 m ++ rest) =
          ap (λ s. swap s 0 m) (sym whole)
          ∙ swap-append zeroed xs rest 0 (omega arith) m (omega arith) in
        rw
          (
            some_more,
            not_one,
            swaps,
            loads,
            store-append zeroed (swapped zeroed xs 0 m) rest m
                (omega (arith, length-swapped zeroed xs 0 m)) zeroed,
            cleared zeroed xs m size zeroed,
            append_assoc (left zeroed xs m size) (zeroed ∷ []) rest,
          )
          (Returns-bind _ _
            (heapify_down-Sunk fn zeroed pq.len (zeroed ∷ rest) m (left zeroed xs m size) 0
              (length-left zeroed xs m size) (omega arith) (omega arith) (omega arith))
            λ b (front, e, same).
              let size_front = length-perm same in
              let size_left = length-left zeroed xs m size in
              rw e (
                returns (
                  shrunk-Takes front (zeroed ∷ rest) same (
                    omega
                      (arith, length-append front (zeroed ∷ rest), length-drop pq.len pq.slots)))))

  -- On a queue in heap order whose doubled capacity fits a size_t, pq_delete returns, takes an
  -- element out that no other is less than, and keeps exactly the others within the bounds; it
  -- refuses exactly the empty queue.
  pub pq_delete-Takes :
      (zeroed : A) (pq : Pq A)
      → IsCmp fn
      → IsQueue fn pq
      → pq.cap * 2 < word
      → Returns (Takes pq) (pq_delete zeroed fn pq)
  unfolding pq_delete
  pq_delete-Takes zeroed pq laws q small =
      let bounded = q.0.bounded in
      elim (Bool-cases (pq.len == 0)) [
        | inl empty ↦ rw empty (returns (refl, ground arith))
        | inr filled ↦ elim (Bool-cases (pq.len == 1)) [
          | inl one ↦ only-Takes zeroed laws pq q (ground arith) (ground arith)
          | inr several ↦ more-Takes zeroed laws pq q (ground arith) (ground arith) (omega arith)
        ]
      ]
