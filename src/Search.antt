-- ===== src/Search.antt =====
-- src/binary_search.c
pub mod Finds
use vlib.Base.{
  ℕ, zero, suc, ◌+◌, ◌-◌, ◌/◌, Ordering, List, Run, ok, out_of_fuel, ◌>>=◌, Status, success,
  failure, ltb, if◌then◌else◌,
}
use vlib.Cmp.{CmpFn}
use vlib.Array.{load}

module _ {ℓ} {A : Type ℓ} (cmp : CmpFn A) where
  -- one round of the `do`, and the test of `while (lo < hi)` behind it; `lo <= hi <= len` holds,
  -- so that the midpoint does not wrap
  unfoldable pub search_loop : ℕ → List A → A → ℕ → ℕ → Run Status
  search_loop zero arr needle lo hi = out_of_fuel
  search_loop (suc k) arr needle lo hi = do
    let m = lo + (hi - lo) / 2
    x ← load arr m
    elim (cmp x needle) [
      | Ordering.eq ↦ ok success
      | Ordering.gt ↦
          let again = search_loop k arr needle lo m in if ltb lo m then again else ok failure
      | Ordering.lt ↦
          let again = search_loop k arr needle (m + 1) hi in
          if ltb (m + 1) hi then again else ok failure
    ]

  -- every round shortens the range, so `len + 1` rounds are enough
  unfoldable pub binary_search : List A → A → ℕ → Run Status
  unfolding search_loop load
  binary_search arr needle len = search_loop (len + 1) arr needle 0 len
