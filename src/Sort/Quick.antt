-- ===== src/Sort/Quick.antt =====
-- src/quick_sort.c
pub mod Ranges
pub mod Partition
pub mod Sorts
use vlib.Base.{ℕ, zero, suc, ◌+◌, ◌-◌, List, Run, ok, out_of_fuel, ◌>>=◌, ltb, if◌then◌else◌}
use vlib.Cmp.{CmpFn, is_pos}
use vlib.Array.{load, swap}

-- The `ssize_t` values `idx` and `hi` can be -1. They are kept one higher, as `next` and `end`.
module _ {ℓ} {A : Type ℓ} (cmp : CmpFn A) where
  -- the `for` over `i`, with the number of rounds left
  unfoldable pub partition_loop : ℕ → ℕ → ℕ → ℕ → List A → Run (ℕ × List A)
  partition_loop zero i next hi a = ok (next, a)
  partition_loop (suc n) i next hi a = do
    at ← load a i
    pivot ← load a hi
    let skip = partition_loop n (i + 1) next hi a
    let move = swap a next i >>= λ b. partition_loop n (i + 1) (next + 1) hi b
    if is_pos (cmp at pivot) then skip else move

  unfoldable pub partition : List A → ℕ → ℕ → Run (ℕ × List A)
  unfolding partition_loop load swap
  partition a lo hi = do
    (next, b) ← partition_loop (hi - lo) lo lo hi a
    c ← swap b next hi
    ok (next, c)

  -- The smaller part by a call, the other by the next round of the `while`. Each call and each round
  -- takes one unit of fuel; the ranges get shorter, so `len` units are enough.
  unfoldable pub qs : ℕ → List A → ℕ → ℕ → Run (List A)
  qs zero a lo end = if ltb (lo + 1) end then out_of_fuel else ok a
  qs (suc k) a lo end =
      let round = partition a lo (end - 1) >>= λ (p, b).
      let left_first = qs k b lo p >>= λ c. qs k c (p + 1) end in
      let right_first = qs k b (p + 1) end >>= λ c. qs k c lo p in
      if ltb (p - lo) (end - 1 - p) then left_first else right_first in
      if ltb (lo + 1) end then round else ok a

  unfoldable pub quick_sort : List A → ℕ → Run (List A)
  unfolding qs partition
  quick_sort a len = qs len a 0 len
