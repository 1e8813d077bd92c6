-- ===== src/SmallVec/Contents.antt =====
-- small_vec.h implements a list of bounded length.
use vlib.Base.{
  ℕ, suc, ◌+◌, ◌-◌, ◌≤◌, ◌<◌, ◌≡◌, refl, ◌∙◌, List, [], ◌∷◌, ◌++◌, Option, none, some, Returns,
  returns, Status, success, failure, arith, length, get_elem?, take, drop, length-set, take-set,
  take-set_next, take-next, Bool-cases, inl, inr, ◌==◌, leb, length-replicate,
}
use vlib.Array.{load-ok, store-ok}
use vlib.Vec.Gaps.{
  Closes, clear_last-Closes, closed, length-closed, memmove-closed, move_down-Closes,
}
use vlib.SmallVec.{
  SmallVec, small_vec_init, small_vec_push, small_vec_pop, small_remove_last, small_remove_inner,
  small_vec_remove_at,
}

module _ {ℓ} {A : Type ℓ} where
  -- the elements that the vector holds
  abbrev pub contents : SmallVec A → List A
  contents v = take v.len v.slots

  pub record IsValid (v : SmallVec A) : Type ℓ where
    pub room : length v.slots ≡ v.cap
    pub bounded : v.len ≤ v.cap

  pub small_vec_init-IsValid :
      (zeroed : A) (capacity : ℕ)
      → IsValid (small_vec_init zeroed capacity)
        × (contents (small_vec_init zeroed capacity) ≡ [])
        × ((small_vec_init zeroed capacity).cap ≡ capacity)
  unfolding small_vec_init
  small_vec_init-IsValid zeroed capacity =
      (record { room = refl; bounded = omega arith }, refl, length-replicate capacity zeroed)

  -- what a push leaves: one element more at the end, or a full vector as it was
  abbrev pub Pushes : SmallVec A → A → Status × SmallVec A → Type ℓ
  Pushes v x (success, w) = IsValid w × (contents w ≡ contents v ++ x ∷ []) × (w.cap ≡ v.cap)
  Pushes v x (failure, w) = (w ≡ v) × (v.len ≡ v.cap)

  -- what a pop leaves
  abbrev pub Pops : SmallVec A → Option A × SmallVec A → Type ℓ
  Pops v (none, w) = (w ≡ v) × (v.len ≡ 0)
  Pops v (some x, w) = IsValid w × (contents v ≡ contents w ++ x ∷ []) × (w.cap ≡ v.cap)

  -- what a removal at `idx` leaves
  abbrev pub Removes : SmallVec A → ℕ → Option A × SmallVec A → Type ℓ
  Removes v idx (none, w) = (w ≡ v) × (v.len ≤ idx)
  Removes v idx (some x, w) =
      IsValid w
      × (get_elem? (contents v) idx ≡ some x)
      × (contents w ≡ take idx (contents v) ++ drop (idx + 1) (contents v))
      × (w.cap ≡ v.cap)

  pub small_vec_push-Pushes :
      (v : SmallVec A) (x : A) → IsValid v → Returns (Pushes v x) (small_vec_push v x)
  unfolding small_vec_push
  small_vec_push-Pushes v x h =
      let room = h.room in
      let bounded = h.bounded in
      elim (Bool-cases (v.len == v.cap)) [
        | inl full ↦ rw full (returns (refl, ground arith))
        | inr free ↦
            let lt : v.len < v.cap = ground arith in
            rw (free, store-ok v.slots v.len x (omega arith))
              (returns (
                record { room = length-set v.slots v.len x ∙ room; bounded = omega arith },
                let next : v.len + 1 ≡ suc v.len = omega arith in
                    rw next (take-set_next v.len v.slots x (omega arith)),
                refl,
              ))
      ]

  pub small_vec_pop-Pops :
      (zeroed : A) (v : SmallVec A) → IsValid v → Returns (Pops v) (small_vec_pop zeroed v)
  unfolding small_vec_pop
  small_vec_pop-Pops zeroed v h =
      let room = h.room in
      let bounded = h.bounded in
      elim (Bool-cases (v.len == 0)) [
        | inl none_left ↦ rw none_left (returns (refl, ground arith))
        | inr some_left ↦
            let pos : 0 < v.len = ground arith in
            let size : suc (v.len - 1) ≡ v.len = omega arith in
            let all = rw size at (take-next (v.len - 1) v.slots zeroed (omega arith)) in
            rw
              (
                some_left,
                load-ok v.slots (v.len - 1) zeroed (omega arith),
                store-ok v.slots (v.len - 1) zeroed (omega arith),
              )
              (returns (
                record {
                  room = length-set v.slots (v.len - 1) zeroed ∙ room;
                  bounded = omega arith;
                },
                rw (take-set (v.len - 1) v.slots (v.len - 1) zeroed (omega arith)) all,
                refl,
              ))
      ]

  module _ (zeroed : A) (v : SmallVec A) (idx : ℕ) (h : IsValid v) (lt : idx < v.len) where
    within : v.len ≤ length v.slots
    within = let room = h.room in let bounded = h.bounded in omega arith

    closes-Removes :
        (x : A) (after : List A)
        → Closes zeroed v.slots v.len idx within lt x after
        → Removes v idx (some x, record v { len = v.len - 1; slots = after })
    closes-Removes x after (size, read, rest) =
        let bounded = h.bounded in
        (record { room = size ∙ h.room; bounded = omega arith }, read, rest, refl)

    small_remove_last-Removes :
        suc idx ≡ v.len → Returns (Removes v idx) (small_remove_last zeroed v idx)
    unfolding small_remove_last
    small_remove_last-Removes e =
        let bound = within in
        rw (load-ok v.slots idx zeroed (omega arith), store-ok v.slots idx zeroed (omega arith))
          (returns (closes-Removes _ _ (clear_last-Closes zeroed v.slots v.len idx within lt e)))

    small_remove_inner-Removes : Returns (Removes v idx) (small_remove_inner zeroed v idx)
    unfolding small_remove_inner
    small_remove_inner-Removes =
        let bound = within in
        let size = length-closed zeroed v.slots v.len idx within lt in
        rw
          (
            load-ok v.slots idx zeroed (omega arith),
            memmove-closed zeroed v.slots v.len idx within lt,
            store-ok (closed zeroed v.slots v.len idx within lt) (v.len - 1) zeroed (omega arith),
          )
          (returns (closes-Removes _ _ (move_down-Closes zeroed v.slots v.len idx within lt)))

  pub small_vec_remove_at-Removes :
      (zeroed : A) (v : SmallVec A) (idx : ℕ)
      → IsValid v
      → Returns (Removes v idx) (small_vec_remove_at zeroed v idx)
  unfolding small_vec_remove_at
  small_vec_remove_at-Removes zeroed v idx h = elim (Bool-cases (leb v.len idx)) [
    | inl past ↦ rw past (returns (refl, ground arith))
    | inr inside ↦ elim (Bool-cases (idx == v.len - 1)) [
      | inl last ↦
          rw (inside, last) (small_remove_last-Removes zeroed v idx h (ground arith) (ground arith))
      | inr inner ↦ rw (inside, inner) (small_remove_inner-Removes zeroed v idx h (ground arith))
    ]
  ]

  -- On a valid vector, small_vec_push adds the element at the end or refuses when it is full,
  -- small_vec_pop takes the last element off or refuses when there is none, and
  -- small_vec_remove_at takes the element at the index out and closes the gap or refuses an index
  -- past the end; each keeps the vector valid and its capacity.
  pub small_vec_operations :
      (zeroed : A) (v : SmallVec A) (x : A) (idx : ℕ)
      → IsValid v
      → Returns (Pushes v x) (small_vec_push v x)
        × Returns (Pops v) (small_vec_pop zeroed v)
        × Returns (Removes v idx) (small_vec_remove_at zeroed v idx)
  small_vec_operations zeroed v x idx h = (
    small_vec_push-Pushes v x h,
    small_vec_pop-Pops zeroed v h,
    small_vec_remove_at-Removes zeroed v idx h,
  )
