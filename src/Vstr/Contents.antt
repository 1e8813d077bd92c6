-- ===== src/Vstr/Contents.antt =====
-- The bytes that a string stands for, and what writing behind them does.
use vlib.Base.{
  ℕ, zero, suc, ◌+◌, ◌-◌, ◌^◌, ◌++◌, ◌≤◌, ◌<◌, ◌≡◌, refl, sym, ap, List, [], ◌∷◌, true, ok, success,
  arith, leb, length, set, drop, replicate, length-append, length-replicate, take_all,
  take-append_whole, false,
}
use mathlib.Core.List.{append_assoc}
use vlib.Array.Prefix.{drop-append}
use vlib.Array.{store, store-ok}
use vlib.Array.{memcpy}
use vlib.Vstr.{
  Char, Large, Vstr, small, large, vstr_max_large_size, resized, vstr_make_lg, vstr_make_lg_len,
}

-- a block that holds `s`, with `spare` bytes more than `s` and its null byte need
abbrev pub block : List Char → ℕ → Large
block s spare = record {
  bytes = s ++ replicate (suc spare) 0;
  cap = length s + suc spare;
  len = length s;
}

-- The string stands for the bytes `s`, with null bytes behind them.
pub data IsString (s : List Char) : Vstr → Type 0 where
  within : (avail : ℕ) → length s + avail ≡ 23 → IsString s (small avail (s ++ replicate avail 0))
  on_heap :
      (spare : ℕ)
      → length s ≤ vstr_max_large_size
      → length s + spare < 2 ^ 57
      → IsString s (large (block s spare))

drop_zeros : (j k n : ℕ) → j + k ≡ n → drop j (replicate n (let z : Char = 0 in z)) ≡ replicate k 0
drop_zeros zero k n e = let same : k ≡ n = omega arith in rw same
drop_zeros (suc j) k zero e = absurd (omega arith)
drop_zeros (suc j) k (suc n) e = drop_zeros j k n (omega arith)

set_behind :
    (s : List Char) (c : Char) (k : ℕ)
    → set (s ++ replicate (suc k) 0) (length s) c ≡ (s ++ c ∷ []) ++ replicate k 0
set_behind [] c k = refl
set_behind (d ∷ s) c k = ap (◌∷◌ d) (set_behind s c k)

-- one byte behind `s`, and a string behind `s`
pub store_behind :
    (s : List Char) (c : Char) (k : ℕ)
    → store (s ++ replicate (suc k) 0) (length s) c ≡ ok ((s ++ c ∷ []) ++ replicate k 0)
store_behind s c k =
    let inside : length s < length (s ++ replicate (suc k) 0) =
      omega (arith, length-append s (replicate (suc k) (let z : Char = 0 in z))) in
    rw (store-ok (s ++ replicate (suc k) 0) (length s) c inside, set_behind s c k)

pub memcpy_behind :
    (s str : List Char) (k n : ℕ)
    → length str + k ≡ n
    → memcpy (s ++ replicate n 0) (length s) str (length str) ≡ ok ((s ++ str) ++ replicate k 0)
unfolding memcpy
memcpy_behind s str k n e =
    let size : length (s ++ replicate n (let z : Char = 0 in z)) ≡ length s + n =
      rw (length-append, length-replicate) refl in
    let inside : (leb (length s + length str) (length (s ++ replicate n (let z : Char = 0 in z))))
        ≡ true =
      ground arith in
    let readable : leb (length str) (length str) ≡ true = ground arith in
    rw
      (
        readable,
        inside,
        take-append_whole (length s) s (replicate n 0) refl,
        take_all (length str) str (omega arith),
        drop-append s (replicate n 0) (length str),
        drop_zeros (length str) k n e,
      )
      (ap ok (sym (append_assoc s str (replicate k 0))))

-- a block that realloc has moved
pub resized-block :
    (s : List Char) (spare k : ℕ)
    → resized true (block s spare) (length s) (length s + suc k) ≡ ok (success, block s k)
unfolding resized
resized-block s spare k =
    let fits : leb (length s) (length s + suc k) ≡ true = ground arith in
    let rest : length s + suc k - length s ≡ suc k = omega arith in
    rw (fits, rest, take-append_whole (length s) s (replicate (suc spare) 0) refl) refl

-- a copy to the start of a cleared block
pub memcpy_start :
    (s rest : List Char) (m k n : ℕ)
    → m ≡ length s
    → length s + k ≡ n
    → memcpy (replicate n 0) 0 (s ++ rest) m ≡ ok (s ++ replicate k 0)
unfolding memcpy
memcpy_start s rest m k n all size =
    let readable : leb m (length (s ++ rest)) ≡ true = ground (arith, length-append s rest) in
    let room : leb (0 + m) (length (replicate n (let z : Char = 0 in z))) ≡ true =
      ground (arith, length-replicate n (let z : Char = 0 in z)) in
    let behind : drop (0 + m) (replicate n (let z : Char = 0 in z)) ≡ replicate k 0 =
      drop_zeros (0 + m) k n (omega arith) in
    rw (readable, room, behind, take-append_whole m s rest (sym all))

-- the blocks that a short string moves to
pub vstr_make_lg-block :
    (s rest : List Char) → length s ≡ 23 → vstr_make_lg true (s ++ rest) ≡ ok (block s 1)
unfolding vstr_make_lg
vstr_make_lg-block s rest size =
    rw (memcpy_start s rest 23 2 25 (sym size) (omega arith), size) refl

pub vstr_make_lg_len-block :
    (s rest : List Char)
    → length s < vstr_max_large_size
    → vstr_make_lg_len true (s ++ rest) (length s) ≡ ok (block s 0)
unfolding vstr_make_lg_len
vstr_make_lg_len-block s rest short =
    let allowed : leb vstr_max_large_size (length s) ≡ false = ground arith in
    rw (allowed, memcpy_start s rest (length s) 1 (length s + 1) refl refl) refl
