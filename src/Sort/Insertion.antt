-- ===== src/Sort/Insertion.antt =====
-- src/insertion_sort.c
pub mod Rounds
pub mod Sorts
use vlib.Base.{
  ℕ, zero, suc, ◌+◌, ◌-◌, ◌%◌, List, Run, ok, fault, out_of_fuel, ◌>>=◌, Bool, word, if◌then◌else◌,
}
use vlib.Cmp.{CmpFn, is_pos}
use vlib.Array.{load, store}

module _ {ℓ} {A : Type ℓ} (cmp : CmpFn A) where
  -- The `while`, with the index `j` that it leaves. `j` is a `size_t`: `j >= 0` always holds, and
  -- `j--` at 0 wraps to `SIZE_MAX`, whose element `arr + j * data_size` lies before the array.
  unfoldable pub shift : ℕ → A → ℕ → List A → Run (List A × ℕ)
  shift zero key j a = out_of_fuel
  shift (suc k) key j a = do
    x ← load a j
    let next = store a ((j + 1) % word) x >>= λ b. shift k key ((j + word - 1) % word) b
    if is_pos (cmp x key) then next else ok (a, j)

  -- one round of the `for`; `i + 1` tests end the `while`
  unfoldable pub insert_round : ℕ → List A → Run (List A)
  unfolding shift load store
  insert_round i a = do
    key ← load a i
    (b, j) ← shift (i + 1) key (i - 1) a
    store b ((j + 1) % word) key

  unfoldable pub insert_rounds : ℕ → ℕ → List A → Run (List A)
  insert_rounds zero i a = ok a
  insert_rounds (suc n) i a = insert_round i a >>= λ b. insert_rounds n (i + 1) b

  -- `allocated` tells whether `malloc` gave the buffer for `key`: `memset` takes it unchecked.
  unfoldable pub insertion_sort : Bool → List A → ℕ → Run (List A)
  unfolding insert_rounds insert_round
  insertion_sort allocated a len = if allocated then insert_rounds (len - 1) 1 a else fault
