-- ===== src/Vec.antt =====
-- src/vec.c: the growing array. An element is one block of `data_size` bytes; `zeroed` is the block
-- of zero bytes that `memset` writes. An argument `allocated` tells whether `malloc` or `realloc`
-- gives memory. A request in bytes is taken not to wrap; the capacity wraps as in C.
pub mod Gaps
pub mod Contents
pub mod PushAll
pub mod Iter
pub mod Find
use vlib.Base.{
  [], ◌∷◌, ℕ, zero, suc, ◌+◌, ◌-◌, ◌*◌, ◌%◌, ◌++◌, List, Option, none, some, Bool, Run, ok, fault,
  ◌>>=◌, Status, success, failure, word, ltb, leb, ◌==◌, if◌then◌else◌, take, replicate,
}
use vlib.Cmp.{CmpFn, is_zero}
use vlib.Array.{load, store, memmove, clear}
use vlib.Search.{binary_search}
use vlib.Sort.Bubble.{bubble_sort}
use vlib.Sort.Insertion.{insertion_sort}
use vlib.Sort.Quick.{quick_sort}
use vlib.Sort.Merge.{merge_sort}

-- `slots` is the flexible array member, with room for `cap` elements.
pub record Vec {ℓ} (A : Type ℓ) : Type ℓ where
  pub len : ℕ
  pub cap : ℕ
  pub data_size : ℕ
  pub slots : List A

abbrev pub vec_initial_cap : ℕ
vec_initial_cap = 2

module _ {ℓ} {A : Type ℓ} where
  -- `memcpy` to the insertion point, and `len += 1`
  unfoldable pub append_element : Vec A → A → Run (Status × Vec A)
  append_element v x = do
    slots ← store v.slots v.len x
    ok (success, record v { slots = slots; len = (v.len + 1) % word })

module _ {ℓ} {A : Type ℓ} (zeroed : A) where
  unfoldable pub vec_new : Bool → ℕ → Option (Vec A)
  vec_new allocated data_size =
      if allocated
      then some (record {
        len = 0;
        cap = vec_initial_cap;
        data_size = data_size;
        slots = replicate vec_initial_cap zeroed;
      })
      else none

  unfoldable pub vec_new_with_capacity : Bool → ℕ → ℕ → Option (Vec A)
  vec_new_with_capacity allocated data_size capacity =
      if ltb capacity 2
      then none
      else if allocated
      then some (record {
        len = 0;
        cap = capacity;
        data_size = data_size;
        slots = replicate capacity zeroed;
      })
      else none

  -- The block is moved with its first `len` elements and cleared behind them; a capacity that has
  -- wrapped to less than `len` would make `(cap - len)` wrap too.
  unfoldable pub vec_realloc : Bool → Vec A → ℕ → ℕ → Run (Status × Vec A)
  vec_realloc allocated v cap len =
      let new_cap = (cap * 2) % word in
      if allocated
      then (if ltb new_cap len
          then fault
          else ok (
            success,
            record v {
              cap = new_cap;
              slots = take len v.slots ++ replicate (new_cap - len) zeroed;
            },
          ))
      else ok (failure, v)

  unfoldable pub vec_push : Bool → Vec A → A → Run (Status × Vec A)
  unfolding append_element vec_realloc store
  vec_push allocated v x =
      let grow = vec_realloc allocated v v.cap v.len >>= λ (res, w). elim res [
        | success ↦ append_element w x
        | failure ↦ ok (failure, w)
      ] in
      if v.len == v.cap then grow else append_element v x

module _ {ℓ} {A : Type ℓ} where
  -- the removed element is copied to `out`; `none` stands for -1, with `out` as it was
  unfoldable pub vec_pop : Vec A → Run (Option A × Vec A)
  unfolding load
  vec_pop v =
      if v.len == 0
      then ok (none, v)
      else do out ← load v.slots (v.len - 1); ok (some out, record v { len = v.len - 1 })

  -- the index of the slot that the returned pointer is to
  unfoldable pub vec_get_at : Vec A → ℕ → Option ℕ
  vec_get_at v idx = if leb v.len idx then none else some idx

  -- the last element is cleared; any other is closed up by the ones behind it
  remove_last : A → Vec A → ℕ → Run (Option A × Vec A)
  remove_last zeroed v idx = do
    out ← load v.slots idx
    slots ← store v.slots idx zeroed
    ok (some out, record v { len = v.len - 1; slots = slots })

  remove_inner : A → Vec A → ℕ → Run (Option A × Vec A)
  remove_inner zeroed v idx = do
    let new_len = v.len - 1
    out ← load v.slots idx
    moved ← memmove v.slots idx (idx + 1) (new_len - idx)
    slots ← store moved new_len zeroed
    ok (some out, record v { len = new_len; slots = slots })

  unfoldable pub vec_remove_at : A → Vec A → ℕ → Run (Option A × Vec A)
  unfolding remove_last remove_inner load store memmove
  vec_remove_at zeroed v idx =
      if leb v.len idx
      then ok (none, v)
      else if v.len - 1 == idx
      then remove_last zeroed v idx
      else remove_inner zeroed v idx

  -- the loop of vec_find, with the number of rounds left; the index and the copied element
  unfoldable pub find_loop : CmpFn A → List A → A → ℕ → ℕ → Run (Option (ℕ × A))
  unfolding load
  find_loop fn slots needle zero i = ok none
  find_loop fn slots needle (suc n) i = do
    at ← load slots i
    let rest = find_loop fn slots needle n (i + 1)
    if is_zero (fn needle at) then ok (some (i, at)) else rest

  unfoldable pub vec_find : CmpFn A → Vec A → A → Run (Option (ℕ × A))
  unfolding find_loop
  vec_find fn v cmp_data = find_loop fn v.slots cmp_data v.len 0

  -- the elements handed to the free function, in order; none if it is null
  free_loop : List A → ℕ → ℕ → Run (List A)
  free_loop slots zero i = ok []
  free_loop slots (suc n) i = do at ← load slots i; rest ← free_loop slots n (i + 1); ok (at ∷ rest)

  unfoldable pub vec_free : Bool → Vec A → Run (List A)
  unfolding free_loop load
  vec_free fn v = if fn then free_loop v.slots v.len 0 else ok []

  unfoldable pub vec_binary_search : CmpFn A → Vec A → A → Run Status
  vec_binary_search fn v needle = binary_search fn v.slots needle v.len

  -- the sorts leave all fields but the elements alone
  abbrev sorted_by : (List A → ℕ → Run (List A)) → Vec A → Run (Vec A)
  sorted_by sort v = do slots ← sort v.slots v.len; ok (record v { slots = slots })

  unfoldable pub vec_bubble_sort : CmpFn A → Vec A → Run (Vec A)
  vec_bubble_sort fn v = sorted_by (bubble_sort fn) v

  unfoldable pub vec_insertion_sort : CmpFn A → Bool → Vec A → Run (Vec A)
  vec_insertion_sort fn allocated v = sorted_by (insertion_sort fn allocated) v

  unfoldable pub vec_quick_sort : CmpFn A → Vec A → Run (Vec A)
  vec_quick_sort fn v = sorted_by (quick_sort fn) v

  unfoldable pub vec_merge_sort : CmpFn A → A → Bool → Vec A → Run (Vec A)
  vec_merge_sort fn zeroed allocated v = sorted_by (merge_sort fn zeroed allocated) v
