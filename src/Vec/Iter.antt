-- ===== src/Vec/Iter.antt =====
-- src/vec.c: the iterator over a vector. A pointer into the vector is the index of its slot.
use vlib.Base.{
  ℕ, zero, suc, ◌+◌, ◌-◌, ◌%◌, ◌<◌, ◌≡◌, Option, none, some, arith, word, ltb, if◌then◌else◌, ◌==◌,
  ◌||◌, ap, ◌∙◌,
}
use vlib.Vec.{Vec}
use vlib.Vec.Contents.{IsValid}

pub record VecIter : Type 0 where
  pub cur : Option ℕ
  pub next : Option ℕ
  pub next_idx : ℕ
  pub end_idx : ℕ

unfoldable pub vec_iter_next : VecIter → VecIter
vec_iter_next iter = record iter {
  cur = iter.next;
  next = if ltb iter.end_idx iter.next_idx then none else some iter.next_idx;
  next_idx = (iter.next_idx + 1) % word;
}

-- `len - 1` wraps at length 0
unfoldable pub vec_iter_new {ℓ} : {A : Type ℓ} → Vec A → VecIter
unfolding vec_iter_next
vec_iter_new v = vec_iter_next (
    vec_iter_next
      (record { cur = none; next = none; next_idx = 0; end_idx = (v.len + word - 1) % word }))

-- `k` calls of vec_iter_next
abbrev pub advance : ℕ → VecIter → VecIter
advance zero iter = iter
advance (suc k) iter = vec_iter_next (advance k iter)

abbrev slot : ℕ → ℕ → Option ℕ
slot end i = if ltb end i then none else some i

-- the iterator after `k` calls
abbrev at_step : ℕ → ℕ → VecIter
at_step end k = record {
  cur = slot end k;
  next = slot end (k + 1);
  next_idx = k + 2;
  end_idx = end;
}

module _ {ℓ} {A : Type ℓ} (v : Vec A) where
  abbrev last : ℕ
  last = (v.len + word - 1) % word

  advance-at_step : (k : ℕ) → k + 2 < word → advance k (vec_iter_new v) ≡ at_step last k
  unfolding vec_iter_new vec_iter_next
  advance-at_step zero h = ground arith
  advance-at_step (suc k) h = ground (arith, advance-at_step k)

  -- Below 2^64 - 2 calls of vec_iter_next behind vec_iter_new on a valid vector: on a vector with
  -- elements, the iterator stands on slot `k` after `k` calls as long as `k` is less than the length,
  -- and then on NULL. On an empty vector it stands on slot `k`, outside the vector, and not on NULL.
  pub vec_iter_walks :
      IsValid v
      → (k : ℕ) → k + 2 < word
      → (advance k (vec_iter_new v)).cur ≡ (if v.len == 0 || ltb k v.len then some k else none)
  vec_iter_walks h k small =
      let bounded = h.bounded in
      let fits = h.small in
      let here : (advance k (vec_iter_new v)).cur ≡ slot last k =
        ap (λ iter. iter.cur) (advance-at_step k small) in
      here ∙ ground arith
