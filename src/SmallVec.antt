-- ===== src/SmallVec.antt =====
-- src/small_vec.h: the vector with an array of fixed size in its struct, as the macros define it for
-- one type; `zeroed` is the element of zero bytes that `memset` writes.
pub mod Contents
use vlib.Base.{
  ℕ, suc, ◌+◌, ◌-◌, List, Option, none, some, Run, ok, ◌>>=◌, Status, success, failure, leb, ◌==◌,
  if◌then◌else◌, replicate, length,
}
use vlib.Array.{load, store, memmove}

-- `small_vec_##name##_t`
pub record SmallVec {ℓ} (A : Type ℓ) : Type ℓ where
  pub len : ℕ
  pub cap : ℕ
  pub slots : List A

module _ {ℓ} {A : Type ℓ} where
  -- `cap` is computed from the array, which the declaration makes `capacity` elements long
  unfoldable pub small_vec_init : A → ℕ → SmallVec A
  small_vec_init zeroed capacity =
      let slots = replicate capacity zeroed in record { len = 0; cap = length slots; slots = slots }

  unfoldable pub small_vec_len : SmallVec A → ℕ
  small_vec_len v = v.len

  unfoldable pub small_vec_push : SmallVec A → A → Run (Status × SmallVec A)
  unfolding store
  small_vec_push v x =
      let pushed = store v.slots v.len x >>= λ slots.
      ok (success, record v { len = v.len + 1; slots = slots }) in
      if v.len == v.cap then ok (failure, v) else pushed

  -- the removed element is copied to `out`; `none` stands for -1, with `out` as it was
  unfoldable pub small_vec_pop : A → SmallVec A → Run (Option A × SmallVec A)
  unfolding load store
  small_vec_pop zeroed v =
      let pop_idx = v.len - 1 in
      let popped = (do
        out ← load v.slots pop_idx
        slots ← store v.slots pop_idx zeroed
        ok (some out, record v { len = v.len - 1; slots = slots })) in
      if v.len == 0 then ok (none, v) else popped

  -- the index of the slot that the returned pointer is to
  unfoldable pub small_vec_get_at : SmallVec A → ℕ → Option ℕ
  small_vec_get_at v idx = if leb v.len idx then none else some idx

  -- the last element is cleared; any other is closed up by the ones behind it
  unfoldable pub small_remove_last : A → SmallVec A → ℕ → Run (Option A × SmallVec A)
  unfolding load store
  small_remove_last zeroed v idx = do
    out ← load v.slots idx
    slots ← store v.slots idx zeroed
    ok (some out, record v { len = v.len - 1; slots = slots })

  unfoldable pub small_remove_inner : A → SmallVec A → ℕ → Run (Option A × SmallVec A)
  unfolding load store memmove
  small_remove_inner zeroed v idx = do
    out ← load v.slots idx
    let new_len = v.len - 1
    moved ← memmove v.slots idx (idx + 1) (new_len - idx)
    slots ← store moved new_len zeroed
    ok (some out, record v { len = v.len - 1; slots = slots })

  unfoldable pub small_vec_remove_at : A → SmallVec A → ℕ → Run (Option A × SmallVec A)
  unfolding small_remove_last small_remove_inner
  small_vec_remove_at zeroed v idx =
      let last = small_remove_last zeroed v idx in
      let inner = small_remove_inner zeroed v idx in
      if leb v.len idx then ok (none, v) else if idx == v.len - 1 then last else inner
