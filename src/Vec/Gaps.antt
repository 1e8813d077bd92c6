-- ===== src/Vec/Gaps.antt =====
-- An array without the element at one index: the elements behind it closed up, or the last one
-- cleared. The removals of src/vec.c and of src/small_vec.h do this.
use mathlib.Core.List.{append-nil, append_assoc}
use vlib.Base.{
  ℕ, suc, ◌+◌, ◌-◌, ◌≤◌, ◌<◌, ◌≡◌, refl, sym, ◌∙◌, List, ◌++◌, some, true, ok, arith, length,
  get_elem?, get_or, set, take, drop, length-append, length-set, length-take, length-drop,
  get_elem?-eq-get_or, take-append_whole, take-set, take-take, drop-take, leb, get_elem?-take,
}
use vlib.Array.{memmove}

module _ {ℓ} {A : Type ℓ} (zeroed : A) (slots : List A) (len idx : ℕ) (bounded : len ≤ length slots)
    (lt : idx < len) where
  abbrev rest : ℕ
  rest = len - 1 - idx

  -- `x` is the element at the index, and `after` the array without it
  abbrev pub Closes : A → List A → Type ℓ
  Closes x after =
      (length after ≡ length slots)
      × (get_elem? (take len slots) idx ≡ some x)
      × (take (len - 1) after ≡ take idx (take len slots) ++ drop (idx + 1) (take len slots))

  removed-contents :
      take idx (take len slots) ++ drop (idx + 1) (take len slots)
      ≡ take idx slots ++ take rest (drop (idx + 1) slots)
  removed-contents =
      rw (take-take idx len slots (omega arith), drop-take (idx + 1) rest len slots (omega arith))

  read_contents : get_elem? (take len slots) idx ≡ some (get_or slots idx zeroed)
  read_contents =
      get_elem?-take len slots idx lt ∙ get_elem?-eq-get_or slots idx zeroed (omega arith)

  pub clear_last-Closes : suc idx ≡ len → Closes (get_or slots idx zeroed) (set slots idx zeroed)
  clear_last-Closes e =
      let none_behind : rest ≡ 0 = omega arith in
      let kept = take-set (len - 1) slots idx zeroed (omega arith) in
      let at : len - 1 ≡ idx = omega arith in
      (
        length-set slots idx zeroed,
        read_contents,
        kept ∙ (rw (removed-contents, none_behind, at) (sym (append-nil (take idx slots)))),
      )

  -- the elements after the `memmove`
  abbrev pub closed : List A
  closed = take idx slots ++ (take rest (drop (idx + 1) slots) ++ drop (idx + rest) slots)

  pub length-closed : length closed ≡ length slots
  length-closed = omega (
    arith,
    length-append (take idx slots) (take rest (drop (idx + 1) slots) ++ drop (idx + rest) slots),
    length-append (take rest (drop (idx + 1) slots)) (drop (idx + rest) slots),
    length-take idx slots,
    length-take rest (drop (idx + 1) slots),
    length-drop (idx + 1) slots,
    length-drop (idx + rest) slots,
  )

  take-closed : take (len - 1) closed ≡ take idx slots ++ take rest (drop (idx + 1) slots)
  take-closed =
      rw
        (← append_assoc (take idx slots) (take rest (drop (idx + 1) slots))
          (drop (idx + rest) slots))
        (take-append_whole (len - 1) (take idx slots ++ take rest (drop (idx + 1) slots)) _ (
          omega (
            arith,
            length-append (take idx slots) (take rest (drop (idx + 1) slots)),
            length-take idx slots,
            length-take rest (drop (idx + 1) slots),
            length-drop (idx + 1) slots,
          )))

  pub memmove-closed : memmove slots idx (idx + 1) rest ≡ ok closed
  unfolding memmove
  memmove-closed =
      let into : leb (idx + rest) (length slots) ≡ true = ground arith in
      let from : leb (idx + 1 + rest) (length slots) ≡ true = ground arith in rw (into, from) refl

  pub move_down-Closes : Closes (get_or slots idx zeroed) (set closed (len - 1) zeroed)
  move_down-Closes = (
    length-set closed (len - 1) zeroed ∙ length-closed,
    read_contents,
    take-set (len - 1) closed (len - 1) zeroed (omega arith) ∙ take-closed ∙ sym removed-contents,
  )
