-- ===== src/Vec/Contents.antt =====
-- vec.c implements a list: what each operation does to the elements, with the invariant kept.
use vlib.Base.{
  ◌>>=◌, ℕ, suc, ◌+◌, ◌-◌, ◌*◌, ◌%◌, ◌≤◌, ◌<◌, ◌≡◌, refl, ◌∙◌, ap, List, [], ◌∷◌, ◌++◌, Option,
  none, some, Bool, true, false, ok, Returns, returns, Returns-map, Status, success, failure, arith,
  word, length, get_elem?, get_or, take, drop, replicate, length-append, length-set, length-take,
  length-replicate, take-append_whole, take-set_next, take-next, Bool-cases, inl, inr, ltb,
  ltb-false, ◌==◌, leb,
}
use vlib.Array.{load-ok, store-ok}
use vlib.Vec.Gaps.{
  Closes, clear_last-Closes, closed, length-closed, memmove-closed, move_down-Closes,
}
use vlib.Vec.{
  Vec, vec_realloc, append_element, vec_push, vec_pop, remove_last, remove_inner, vec_remove_at,
}

module _ {ℓ} {A : Type ℓ} where
  -- the elements that the vector holds
  abbrev pub contents : Vec A → List A
  contents v = take v.len v.slots

  pub record IsValid (v : Vec A) : Type ℓ where
    pub room : length v.slots ≡ v.cap
    pub bounded : v.len ≤ v.cap
    pub least : 2 ≤ v.cap
    pub small : v.cap < word

  pub length-contents : (v : Vec A) → IsValid v → length (contents v) ≡ v.len
  length-contents v h =
      let room = h.room in let bounded = h.bounded in omega (arith, length-take v.len v.slots)

  -- what a new vector is: empty, with the capacity asked for
  abbrev pub IsNew : Bool → ℕ → Option (Vec A) → Type ℓ
  IsNew allocated cap none = (allocated ≡ false) × Unit {ℓ}
  IsNew allocated cap (some v) = IsValid v × (contents v ≡ []) × (v.cap ≡ cap)

  -- what a push leaves: one element more at the end, or nothing changed for want of memory
  abbrev pub Pushes : Bool → Vec A → A → Status × Vec A → Type ℓ
  Pushes allocated v x (success, w) = IsValid w × (contents w ≡ contents v ++ x ∷ [])
  Pushes allocated v x (failure, w) = (w ≡ v) × (allocated ≡ false) × (v.len ≡ v.cap)

  -- what a removal at `idx` leaves
  abbrev pub Removes : Vec A → ℕ → Option A × Vec A → Type ℓ
  Removes v idx (none, w) = (w ≡ v) × (v.len ≤ idx)
  Removes v idx (some x, w) =
      IsValid w
      × (get_elem? (contents v) idx ≡ some x)
      × (contents w ≡ take idx (contents v) ++ drop (idx + 1) (contents v))

  -- one element more, in the room that there is
  abbrev pub Appended : Vec A → A → Status × Vec A → Type ℓ
  Appended v x (s, w) =
      (s ≡ success) × IsValid w × (contents w ≡ contents v ++ x ∷ []) × (w.cap ≡ v.cap)

  pub append_element-Appended :
      (v : Vec A) (x : A) → IsValid v → v.len < v.cap → Returns (Appended v x) (append_element v x)
  unfolding append_element
  append_element-Appended v x h lt =
      let room = h.room in
      let small = h.small in
      let next : (v.len + 1) % word ≡ suc v.len = omega arith in
      rw (store-ok v.slots v.len x (omega arith), next)
        (returns (
          refl,
          record {
            room = omega (arith, length-set v.slots v.len x);
            bounded = lt;
            least = h.least;
            small = small;
          },
          take-set_next v.len v.slots x (omega arith),
          refl,
        ))

  Appended-Pushes :
      (allocated : Bool) (v : Vec A) (x : A) (r : Status × Vec A)
      → Appended v x r
      → Pushes allocated v x r
  Appended-Pushes allocated v x (success, w) (e, valid, c, cap) = (valid, c)
  Appended-Pushes allocated v x (failure, w) (e, valid, c, cap) = cc

  append_element-Pushes :
      (v : Vec A) (x : A) (allocated : Bool)
      → IsValid v
      → v.len < v.cap
      → Returns (Pushes allocated v x) (append_element v x)
  append_element-Pushes v x allocated h lt =
      Returns-map _ (append_element-Appended v x h lt) (Appended-Pushes allocated v x)

  -- doubling a full vector
  abbrev doubled : A → Vec A → Vec A
  doubled zeroed v = record v {
    cap = v.cap * 2;
    slots = take v.len v.slots ++ replicate (v.cap * 2 - v.len) zeroed;
  }

  doubled-IsValid :
      (zeroed : A) (v : Vec A) → IsValid v → v.cap * 2 < word → IsValid (doubled zeroed v)
  doubled-IsValid zeroed v h small =
      let room = h.room in
      let bounded = h.bounded in
      let least = h.least in
      record {
        room = omega (
          arith,
          length-append (take v.len v.slots) (replicate (v.cap * 2 - v.len) zeroed),
          length-take v.len v.slots,
          length-replicate (v.cap * 2 - v.len) zeroed,
        );
        bounded = omega arith;
        least = omega arith;
        small = small;
      }

  contents-doubled : (zeroed : A) (v : Vec A) → IsValid v → contents (doubled zeroed v) ≡ contents v
  contents-doubled zeroed v h =
      let room = h.room in
      let bounded = h.bounded in
      take-append_whole v.len (take v.len v.slots) _ (omega (arith, length-take v.len v.slots))

  Pushes-doubled :
      (zeroed : A) (v : Vec A) (x : A)
      → IsValid v
      → (r : Status × Vec A) → Pushes true (doubled zeroed v) x r
      → Pushes true v x r
  Pushes-doubled zeroed v x h (success, w) (valid, c) =
      (valid, c ∙ ap (λ l. l ++ x ∷ []) (contents-doubled zeroed v h))
  Pushes-doubled zeroed v x h (failure, w) (e, f, g) = cc

  -- On a valid vector whose doubled capacity fits a size_t, vec_push either appends exactly the new
  -- element and keeps the vector valid, or returns -1, with the vector unchanged, which it does only
  -- if the vector was full and realloc gave no memory.
  pub vec_push-Pushes :
      (zeroed : A) (allocated : Bool) (v : Vec A) (x : A)
      → IsValid v
      → v.cap * 2 < word
      → Returns (Pushes allocated v x) (vec_push zeroed allocated v x)
  unfolding vec_push vec_realloc
  vec_push-Pushes zeroed allocated v x h small = elim (Bool-cases (v.len == v.cap)) [
    | inr free ↦
        rw free (let bounded = h.bounded in append_element-Pushes v x allocated h (ground arith))
    | inl full ↦ rw full (grown allocated (ground arith))
  ]
    where
      fits : ltb ((v.cap * 2) % word) v.len ≡ false
      fits = let bounded = h.bounded in ltb-false ((v.cap * 2) % word) v.len (omega arith)

      wrapped : (v.cap * 2) % word ≡ v.cap * 2
      wrapped = omega arith

      grown :
          (allocated : Bool)
          → v.len ≡ v.cap
          → Returns (Pushes allocated v x) (
              vec_realloc zeroed allocated v v.cap v.len >>= λ (res, w). elim res [
                | success ↦ append_element w x
                | failure ↦ ok (failure, w)
              ])
      grown false e = returns (refl, refl, e)
      grown true e =
          let least = h.least in
          rw (wrapped, ltb-false (v.cap * 2) v.len (omega arith))
            (Returns-map _
              (append_element-Pushes (doubled zeroed v) x true (doubled-IsValid zeroed v h small)
                (omega arith))
              (Pushes-doubled zeroed v x h))

  abbrev pub Pops : Vec A → Option A × Vec A → Type ℓ
  Pops v (none, w) = (w ≡ v) × (v.len ≡ 0)
  Pops v (some x, w) = IsValid w × (contents v ≡ contents w ++ x ∷ [])

  -- On a valid vector, vec_pop takes the last element off, and refuses exactly the empty vector.
  pub vec_pop-Pops : (d : A) (v : Vec A) → IsValid v → Returns (Pops v) (vec_pop v)
  unfolding vec_pop
  vec_pop-Pops d v h = elim (Bool-cases (v.len == 0)) [
    | inl none_left ↦ rw none_left (returns (refl, ground arith))
    | inr some_left ↦
        let room = h.room in
        let bounded = h.bounded in
        let pos : 0 < v.len = ground arith in
        let last = get_or v.slots (v.len - 1) d in
        let size : suc (v.len - 1) ≡ v.len = omega arith in
        let all = rw size at (take-next (v.len - 1) v.slots d (omega arith)) in
        rw (some_left, load-ok v.slots (v.len - 1) d (omega arith))
          (returns
            (record { room = room; bounded = omega arith; least = h.least; small = h.small }, all))
  ]

  module _ (zeroed : A) (v : Vec A) (idx : ℕ) (h : IsValid v) (lt : idx < v.len) where
    within : v.len ≤ length v.slots
    within = let room = h.room in let bounded = h.bounded in omega arith

    closes-Removes :
        (x : A) (after : List A)
        → Closes zeroed v.slots v.len idx within lt x after
        → Removes v idx (some x, record v { len = v.len - 1; slots = after })
    closes-Removes x after (size, read, rest) =
        let bounded = h.bounded in
        (
          record { room = size ∙ h.room; bounded = omega arith; least = h.least; small = h.small },
          read,
          rest,
        )

    remove_last-Removes : suc idx ≡ v.len → Returns (Removes v idx) (remove_last zeroed v idx)
    unfolding remove_last
    remove_last-Removes e =
        let bound = within in
        rw (load-ok v.slots idx zeroed (omega arith), store-ok v.slots idx zeroed (omega arith))
          (returns (closes-Removes _ _ (clear_last-Closes zeroed v.slots v.len idx within lt e)))

    remove_inner-Removes : Returns (Removes v idx) (remove_inner zeroed v idx)
    unfolding remove_inner
    remove_inner-Removes =
        let bound = within in
        let size = length-closed zeroed v.slots v.len idx within lt in
        rw
          (
            load-ok v.slots idx zeroed (omega arith),
            memmove-closed zeroed v.slots v.len idx within lt,
            store-ok (closed zeroed v.slots v.len idx within lt) (v.len - 1) zeroed (omega arith),
          )
          (returns (closes-Removes _ _ (move_down-Closes zeroed v.slots v.len idx within lt)))

  -- On a valid vector, vec_remove_at takes exactly the element at the index out and closes the gap,
  -- and refuses exactly the indices past the end.
  pub vec_remove_at-Removes :
      (zeroed : A) (v : Vec A) (idx : ℕ)
      → IsValid v
      → Returns (Removes v idx) (vec_remove_at zeroed v idx)
  unfolding vec_remove_at
  vec_remove_at-Removes zeroed v idx h = elim (Bool-cases (leb v.len idx)) [
    | inl past ↦ rw past (returns (refl, ground arith))
    | inr inside ↦ elim (Bool-cases (v.len - 1 == idx)) [
      | inl last ↦
          rw (inside, last) (remove_last-Removes zeroed v idx h (ground arith) (ground arith))
      | inr inner ↦ rw (inside, inner) (remove_inner-Removes zeroed v idx h (ground arith))
    ]
  ]
