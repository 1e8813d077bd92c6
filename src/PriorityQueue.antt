-- ===== src/PriorityQueue.antt =====
-- src/pq.c: the priority queue, a heap in a growing array. As in vec.c, `zeroed` is the block of
-- zero bytes and `allocated` the outcome of `malloc` or `realloc`.
pub mod Heap
pub mod Insert
pub mod Sink
pub mod Delete
use vlib.Base.{
  ℕ, zero, suc, ◌+◌, ◌-◌, ◌*◌, ◌/◌, ◌%◌, ◌++◌, List, [], ◌∷◌, Option, none, some, Bool, ◌&&◌, Run,
  ok, fault, out_of_fuel, ◌>>=◌, Status, success, failure, word, ltb, leb, ◌==◌, if◌then◌else◌,
  take, replicate,
}
use vlib.Cmp.{CmpFn, is_pos, is_neg}
use vlib.Array.{load, store, swap}

-- `slots` is the flexible array member `data`, with room for `cap` elements.
pub record Pq {ℓ} (A : Type ℓ) : Type ℓ where
  pub len : ℕ
  pub cap : ℕ
  pub data_size : ℕ
  pub slots : List A

abbrev pq_initial_cap : ℕ
pq_initial_cap = 2

-- the root has no parent: heapify_up asks only for `idx > 0`
abbrev pub parent_idx : ℕ → ℕ
parent_idx idx = (idx - 1) / 2

abbrev pub left_child_idx : ℕ → ℕ
left_child_idx idx = (idx * 2 + 1) % word

abbrev pub right_child_idx : ℕ → ℕ
right_child_idx idx = (idx * 2 + 2) % word

module _ {ℓ} {A : Type ℓ} (fn : CmpFn A) where
  -- the `for` over `idx`, down to 1
  unfoldable pub heapify_up : List A → ℕ → Run (List A)
  heapify_up a zero = ok a
  heapify_up a (suc n) = do
    let par_idx = parent_idx (suc n)
    par_val ← load a par_idx
    val ← load a (suc n)
    b ← if is_pos (fn par_val val) then swap a (suc n) par_idx else ok a
    heapify_up b n

  -- one round of heapify_down up to its swap: the child to exchange with, if it goes on
  unfoldable pub smaller_child : List A → ℕ → ℕ → Run (Option ℕ)
  smaller_child a len idx =
      let left_idx = left_child_idx idx in
      let right_idx = right_child_idx idx in
      let choose = do
        left_val ← load a left_idx
        right_val ← load a right_idx
        val ← load a idx
        let cmp_lv_rv = fn right_val left_val
        let cmp_v_rv = fn right_val val
        let cmp_v_lv = fn left_val val
        let to_left = if is_pos cmp_lv_rv && is_neg cmp_v_lv then some left_idx else none
        ok (if is_neg cmp_lv_rv && is_neg cmp_v_rv then some right_idx else to_left)
      in if leb len left_idx then ok none else if leb len right_idx then ok none else choose

  -- the `while`, on fuel
  unfoldable pub heapify_down : ℕ → List A → ℕ → ℕ → Run (List A)
  unfolding smaller_child
  heapify_down zero a len idx = out_of_fuel
  heapify_down (suc fuel) a len idx =
      let round = smaller_child a len idx >>= λ child. elim child [
        | none ↦ ok a
        | some c ↦ swap a idx c >>= λ b. heapify_down fuel b len c
      ] in
      if ltb idx len then round else ok a

  -- the new element behind the others, moved up to its place
  unfoldable pub put : Pq A → A → Run (Status × Pq A)
  unfolding heapify_up store load swap
  put pq value = do
    slots ← store pq.slots pq.len value
    ordered ← heapify_up slots pq.len
    ok (success, record pq { slots = ordered; len = (pq.len + 1) % word })

module _ {ℓ} {A : Type ℓ} (zeroed : A) where
  unfoldable pub pq_new : Bool → ℕ → Option (Pq A)
  pq_new allocated data_size =
      if allocated
      then some (record {
        len = 0;
        cap = pq_initial_cap;
        data_size = data_size;
        slots = replicate pq_initial_cap zeroed;
      })
      else none

  -- The block is moved with its first `len` elements and cleared behind them.
  unfoldable pub pq_realloc : Bool → Pq A → Run (Status × Pq A)
  pq_realloc allocated pq =
      let new_cap = (pq.cap * 2) % word in
      if allocated
      then (if ltb new_cap pq.len
          then fault
          else ok (
            success,
            record pq {
              cap = new_cap;
              slots = take pq.len pq.slots ++ replicate (new_cap - pq.len) zeroed;
            },
          ))
      else ok (failure, pq)

  unfoldable pub pq_insert : Bool → CmpFn A → Pq A → A → Run (Status × Pq A)
  unfolding put pq_realloc heapify_up store load swap
  pq_insert allocated fn pq value =
      let grow = pq_realloc allocated pq >>= λ (res, p). elim res [
        | success ↦ put fn p value
        | failure ↦ ok (failure, p)
      ] in
      if pq.len == pq.cap then grow else put fn pq value

  -- The removed element is copied to `out`; `none` stands for -1. The fuel is the length.
  unfoldable pub pq_delete : CmpFn A → Pq A → Run (Option A × Pq A)
  unfolding heapify_down load store swap
  pq_delete fn pq =
      let only = do
        out ← load pq.slots 0
        slots ← store pq.slots 0 zeroed
        ok (some out, record pq { slots = slots; len = pq.len - 1 })
      in let more = do
        out ← load pq.slots 0
        let len = pq.len - 1
        moved ← swap pq.slots 0 len
        slots ← store moved len zeroed
        ordered ← heapify_down fn pq.len slots len 0
        ok (some out, record pq { slots = ordered; len = len })
        in if pq.len == 0 then ok (none, pq) else if pq.len == 1 then only else more

module _ {ℓ} {A : Type ℓ} where
  -- the elements handed to the free function, in order
  unfoldable pub free_elements : List A → ℕ → ℕ → Run (List A)
  free_elements slots zero i = ok []
  free_elements slots (suc n) i = do
    at ← load slots i
    rest ← free_elements slots n (i + 1)
    ok (at ∷ rest)

  unfoldable pub pq_free : Bool → Pq A → Run (List A)
  unfolding free_elements load
  pq_free fn pq = if fn then free_elements pq.slots pq.len 0 else ok []
