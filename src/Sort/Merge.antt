-- ===== src/Sort/Merge.antt =====
-- src/merge_sort.c
pub mod Joining
pub mod Ordered
pub mod Sorts
use vlib.Base.{
  ℕ, zero, suc, ◌+◌, ◌-◌, ◌/◌, ◌%◌, List, Bool, Run, ok, aborted, out_of_fuel, ◌>>=◌, ◌&&◌, ltb,
  if◌then◌else◌, drop, replicate, word,
}
use vlib.Cmp.{CmpFn, is_pos}
use vlib.Array.{load, store, memcpy}

module _ {ℓ} {A : Type ℓ} (cmp : CmpFn A) where
  -- The `while` of merge on fuel. The runs `larr` and `rarr` of the lengths `n1` and `n2` stand one
  -- after the other in `tmp`; each round uses up one of their elements.
  unfoldable pub merge_loop : ℕ → ℕ → List A → ℕ → ℕ → ℕ → ℕ → List A → Run (ℕ × ℕ × ℕ × List A)
  unfolding load store
  merge_loop n1 n2 tmp zero i j k a = if ltb i n1 && ltb j n2 then out_of_fuel else ok (i, j, k, a)
  merge_loop n1 n2 tmp (suc n) i j k a =
      let round = (do
        x ← load tmp i
        y ← load tmp (n1 + j)
        let left = store a k x >>= λ b. merge_loop n1 n2 tmp n (i + 1) j (k + 1) b
        let right = store a k y >>= λ b. merge_loop n1 n2 tmp n i (j + 1) (k + 1) b
        if is_pos (cmp x y) then right else left) in
      if ltb i n1 && ltb j n2 then round else ok (i, j, k, a)

  unfoldable pub merge : List A → ℕ → ℕ → ℕ → List A → Run (List A × List A)
  unfolding merge_loop memcpy
  merge a l m r tmp =
      let n1 = m - l + 1 in
      let n2 = r - m in
      memcpy tmp 0 (drop l a) n1 >>= λ larr. memcpy larr n1 (drop (m + 1) a) n2 >>= λ both.
      merge_loop n1 n2 both (n1 + n2) 0 0 l a >>= λ (i, j, k, b).
      (if ltb i n1 then memcpy b k (drop i both) (n1 - i) else ok b) >>= λ c.
      (if ltb j n2 then memcpy c k (drop (n1 + j) both) (n2 - j) else ok c) >>= λ d. ok (d, both)

  -- The range from `l` to `r` is halved in each call.
  unfoldable pub ms : ℕ → List A → ℕ → ℕ → List A → Run (List A × List A)
  unfolding merge load
  ms zero a l r tmp = if ltb l r then out_of_fuel else ok (a, tmp)
  ms (suc n) a l r tmp =
      let m = l + (r - l) / 2 in
      let sorted = (do
        (b, t) ← ms n a l m tmp
        (c, u) ← ms n b (m + 1) r t
        x ← load c m
        y ← load c (m + 1)
        let merged = merge c l m r u
        if is_pos (cmp x y) then merged else ok (c, u)) in
      if ltb l r then sorted else ok (a, tmp)

  -- `zeroed` is an element of zero bytes. The length 0 wraps to the greatest `size_t` in `len - 1`;
  -- the fuel is enough for that too.
  unfoldable pub merge_sort : A → Bool → List A → ℕ → Run (List A)
  unfolding ms
  merge_sort zeroed allocated a len =
      let sorted =
        ms (len + 64) a 0 ((len + word - 1) % word) (replicate len zeroed) >>= λ (b, t). ok b in
      if allocated then sorted else aborted
