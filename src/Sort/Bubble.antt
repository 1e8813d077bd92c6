-- ===== src/Sort/Bubble.antt =====
-- src/bubble_sort.c
pub mod Sorts
use vlib.Base.{ℕ, zero, suc, ◌+◌, ◌-◌, List, Run, ok, ◌>>=◌, if◌then◌else◌}
use vlib.Cmp.{CmpFn, is_pos}
use vlib.Array.{load, swap}

module _ {ℓ} {A : Type ℓ} (cmp : CmpFn A) where
  -- the `for` over `j`, with the number of rounds left
  unfoldable pub bubble_pass : ℕ → ℕ → List A → Run (List A)
  bubble_pass zero j a = ok a
  bubble_pass (suc n) j a = do
    x ← load a j
    y ← load a (j + 1)
    b ← if is_pos (cmp x y) then swap a j (j + 1) else ok a
    bubble_pass n (j + 1) b

  -- the `for` over `i`; in it `i < len`, so that `len - 1 - i` does not wrap
  unfoldable pub bubble_passes : ℕ → ℕ → ℕ → List A → Run (List A)
  bubble_passes len zero i a = ok a
  bubble_passes len (suc n) i a =
      bubble_pass (len - 1 - i) 0 a >>= λ b. bubble_passes len n (i + 1) b

  unfoldable pub bubble_sort : List A → ℕ → Run (List A)
  unfolding bubble_passes bubble_pass load swap
  bubble_sort a len = bubble_passes len len 0 a
