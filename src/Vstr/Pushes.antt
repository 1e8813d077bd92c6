-- ===== src/Vstr/Pushes.antt =====
-- vstr_push_char and vstr_push_string append to the bytes of the string, or fail as stated.
use vlib.Base.{
  Run, ℕ, zero, suc, ◌+◌, ◌-◌, ◌*◌, ◌%◌, ◌^◌, ◌++◌, ◌≤◌, ◌<◌, ◌≡◌, ◌⊎◌, inl, inr, refl, List, [],
  ◌∷◌, Bool, true, false, ok, ◌>>=◌, Returns, returns, Returns-bind, Status, success, failure,
  arith, ltb, leb, ◌==◌, Bool-cases, if◌then◌else◌, word, length, replicate, length-append,
}
use vlib.Array.{store}
use vlib.Array.{memcpy}
use vlib.Vstr.{
  Char, Large, Vstr, small, large, zeroed, no_block, vstr_max_large_size, vstr_realloc_lg,
  vstr_realloc_lg_len, vstr_lg_push_char, vstr_lg_push_string, vstr_push_char, vstr_push_string,
  vstr_sm_push_char, vstr_sm_push_string, vstr_make_lg, vstr_make_lg_len, as_large,
}
use vlib.Vstr.Contents.{
  block, IsString, within, on_heap, store_behind, memcpy_behind, resized-block, vstr_make_lg-block,
  vstr_make_lg_len-block,
}

-- a push on a large string failed: for want of memory, or because the result would be too long
abbrev pub Refused : Bool → List Char → List Char → Type 0
Refused reallocated s str = (reallocated ≡ false) ⊎ (vstr_max_large_size < length s + length str)

-- what a push of `str` leaves of a large string with the bytes `s`
abbrev pub Extends : Bool → List Char → List Char → Status × Large → Type 0
Extends reallocated s str (success, lg) = IsString (s ++ str) (large lg)
Extends reallocated s str (failure, lg) = IsString s (large lg) × Refused reallocated s str

-- the new block, once its length is known
block-IsString :
    (s str : List Char) (k : ℕ)
    → length s + length str ≤ vstr_max_large_size
    → length s + length str + k < 2 ^ 57
    → IsString (s ++ str) (
        large (record {
          bytes = (s ++ str) ++ replicate (suc k) 0;
          cap = length s + length str + suc k;
          len = (length s + length str) % 2 ^ 56;
        }))
block-IsString s str k short bounded =
    let small_enough : (length s + length str) % 2 ^ 56 ≡ length s + length str = omega arith in
    rw (small_enough, ← length-append s str)
      (on_heap k (rw length-append short) (rw length-append bounded))

module _ (s : List Char) (spare : ℕ) (short : length s ≤ vstr_max_large_size)
    (bounded : length s + spare < 2 ^ 57) where
  -- what the two pushes do once there is room
  write_char-Extends :
      (r : Bool) (c : Char) (n : ℕ)
      → 1 ≤ n
      → length s + n < 2 ^ 57
      → Returns (Extends r s (c ∷ [])) (
          if ltb vstr_max_large_size (length s + 1)
          then ok (failure, block s n)
          else (store (block s n).bytes (length s) c >>= λ filled. ok (
            success,
            record { bytes = filled; cap = length s + suc n; len = (length s + 1) % 2 ^ 56 },
          )))
  write_char-Extends r c zero some_room bound = absurd (omega arith)
  write_char-Extends r c (suc k) some_room bound =
      elim (Bool-cases (ltb vstr_max_large_size (length s + 1))) [
        | inl long ↦ rw long (returns (on_heap (suc k) short bound, inr (ground arith)))
        | inr fits ↦
            let e : length s + suc (suc k) ≡ length s + 1 + suc k = omega arith in
            rw (fits, store_behind s c (suc k), e)
              (returns (block-IsString s (c ∷ []) k (ground arith) (omega arith)))
      ]

  write_string-Extends :
      (r : Bool) (str : List Char) (k n : ℕ)
      → length str + k ≡ n
      → length s + length str ≤ vstr_max_large_size
      → length s + n < 2 ^ 57
      → Returns (Extends r s str) (
          memcpy (block s n).bytes (length s) str (length str) >>= λ filled. ok (
            success,
            record {
              bytes = filled;
              cap = length s + suc n;
              len = (length s + length str) % 2 ^ 56;
            },
          ))
  write_string-Extends r str k n e fits bound =
      let size : length s + suc n ≡ length s + length str + suc k = omega arith in
      rw (memcpy_behind s str (suc k) (suc n) (omega arith), size)
        (returns (block-IsString s str k fits (omega arith)))

  push_char-Extends :
      (reallocated : Bool) (c : Char)
      → Returns (Extends reallocated s (c ∷ [])) (vstr_lg_push_char reallocated (block s spare) c)
  unfolding vstr_lg_push_char vstr_realloc_lg
  push_char-Extends reallocated c =
      let has_block : (length s + suc spare == 0) ≡ false = ground arith in
      elim (Bool-cases (length s == length s + suc spare - 1)) [
        | inr room ↦
            rw (has_block, room) (write_char-Extends reallocated c spare (ground arith) bounded)
        | inl full ↦ elim (Bool-cases reallocated) [
          | inr none_left ↦
              rw (has_block, full, none_left) (returns (on_heap spare short bounded, inl refl))
          | inl moved ↦
              let grown : ((length s + suc spare) * 2) % word ≡ length s + suc (length s + 1) =
                ground arith in
              rw (has_block, full, moved, grown, resized-block s spare (length s + 1))
                (write_char-Extends true c (length s + 1) (omega arith) (ground arith))
        ]
      ]

  push_string-Extends :
      (reallocated : Bool) (str : List Char)
      → length str < 2 ^ 63
      → Returns (Extends reallocated s str) (vstr_lg_push_string reallocated (block s spare) str)
  unfolding vstr_lg_push_string vstr_realloc_lg_len
  push_string-Extends reallocated str readable =
      let has_block : (length s + suc spare == 0) ≡ false = ground arith in
      let no_wrap : (length s + length str) % word ≡ length s + length str = omega arith in
      elim (Bool-cases (ltb vstr_max_large_size (length s + length str))) [
        | inl long ↦
            rw (has_block, no_wrap, long)
              (returns (on_heap spare short bounded, inr (ground arith)))
        | inr fits ↦ elim (Bool-cases (ltb (length s + suc spare - 1) (length s + length str))) [
          | inr room ↦
              rw (has_block, no_wrap, fits, room)
                (write_string-Extends reallocated str (spare - length str) spare (ground arith)
                  (ground arith) bounded)
          | inl full ↦ elim (Bool-cases reallocated) [
            | inr none_left ↦
                rw (has_block, no_wrap, fits, full, none_left)
                  (returns (on_heap spare short bounded, inl refl))
            | inl moved ↦
                let grown : (length s + suc spare + length str) % word
                    ≡ length s + suc (spare + length str) =
                  ground arith in
                rw
                  (
                    has_block,
                    no_wrap,
                    fits,
                    full,
                    moved,
                    grown,
                    resized-block s spare (spare + length str),
                  )
                  (write_string-Extends true str spare (spare + length str) (omega arith)
                    (ground arith) (ground arith))
          ]
        ]
      ]

-- What a push of `str` leaves of a string with the bytes `s`: all of them; or the string as it was;
-- or `lost`, when a short string could not be moved to the heap.
abbrev pub Pushes : Bool → Bool → Vstr → List Char → List Char → Status × Vstr → Type 0
Pushes allocated reallocated lost s str (success, w) = IsString (s ++ str) w
Pushes allocated reallocated lost s str (failure, w) =
    (IsString s w × Refused reallocated s str) ⊎ ((allocated ≡ false) × (w ≡ lost))

Extends-Pushes :
    (allocated reallocated : Bool) (lost : Vstr) (s str : List Char) (r : Status × Large)
    → Extends reallocated s str r
    → Returns (Pushes allocated reallocated lost s str) (as_large r)
Extends-Pushes allocated reallocated lost s str (success, lg) e = returns e
Extends-Pushes allocated reallocated lost s str (failure, lg) e = returns (inl e)

Returns-else {ℓ κ} :
    {A : Type ℓ} {P : A → Type κ} (b : Bool)
    → b ≡ false
    → (x y : Run A) → Returns P y
    → Returns P (if b then x else y)
Returns-else b e x y p = rw e p

-- vstr_push_char appends the byte, or returns -1 with the string as it was, for want of memory or
-- beyond the greatest length; but a full short string for which there is no block becomes 23 null
-- bytes.
pub vstr_push_char-Pushes :
    (allocated reallocated : Bool) (s : List Char) (v : Vstr) (c : Char)
    → IsString s v
    → Returns
        (Pushes allocated reallocated (small 0 zeroed) s (c ∷ []))
        (vstr_push_char allocated reallocated v c)
unfolding vstr_push_char vstr_sm_push_char vstr_make_lg
vstr_push_char-Pushes allocated reallocated s v c (on_heap spare short bounded) =
    Returns-bind _ _ (push_char-Extends s spare short bounded reallocated c)
      λ r e. Extends-Pushes allocated reallocated (small 0 zeroed) s (c ∷ []) r e
vstr_push_char-Pushes allocated reallocated s v c (within (suc avail) size) =
    let at : 23 - suc avail ≡ length s = omega arith in
    let some_left : (suc avail == 0) ≡ false = ground arith in
    let fewer : suc avail - 1 ≡ avail = omega arith in
    rw (some_left, at, store_behind s c avail, fewer)
      (returns (within avail (omega (arith, length-append s (c ∷ [])))))
vstr_push_char-Pushes true reallocated s v c (within zero size) =
    let has_block : (length s + 2 == 0) ≡ false = ground arith in
    rw (vstr_make_lg-block s [] (omega arith)) (
      Returns-else _ has_block _ _ (
        Returns-bind _ _ (push_char-Extends s 1 (omega arith) (omega arith) reallocated c)
          λ r e. Extends-Pushes true reallocated (small 0 zeroed) s (c ∷ []) r e))
vstr_push_char-Pushes false reallocated s v c (within zero size) = returns (inr (refl, refl))

-- vstr_push_string appends the bytes, or returns -1 with the string as it was, for want of memory or
-- beyond the greatest length; but a short string that cannot be moved to the heap becomes an
-- empty one without a block.
pub vstr_push_string-Pushes :
    (allocated reallocated : Bool) (s : List Char) (v : Vstr) (str : List Char)
    → length str < 2 ^ 63
    → IsString s v
    → Returns
        (Pushes allocated reallocated (large no_block) s str)
        (vstr_push_string allocated reallocated v str)
unfolding vstr_push_string vstr_sm_push_string vstr_make_lg_len vstr_lg_push_string
vstr_push_string-Pushes allocated reallocated s v str readable (on_heap spare short bounded) =
    Returns-bind _ _ (push_string-Extends s spare short bounded reallocated str readable)
      λ r e. Extends-Pushes allocated reallocated (large no_block) s str r e
vstr_push_string-Pushes allocated reallocated s v str readable (within avail size) =
    let at : 23 - avail ≡ length s = omega arith in
    elim (Bool-cases (ltb avail (length str))) [
      | inr fits ↦
          rw (fits, at, memcpy_behind s str (avail - length str) avail (ground arith))
            (returns (within (avail - length str) (ground (arith, length-append s str))))
      | inl full ↦ rw (full, at) (promoted allocated)
    ]
  where
    promoted :
        (allocated : Bool)
        → Returns (Pushes allocated reallocated (large no_block) s str) (
            vstr_make_lg_len allocated (s ++ replicate avail 0) (length s) >>= λ lg.
            vstr_lg_push_string reallocated lg str >>= as_large)
    promoted true = rw (vstr_make_lg_len-block s (replicate avail 0) (omega arith)) (
        Returns-bind _ _
          (push_string-Extends s 0 (omega arith) (omega arith) reallocated str readable)
          λ r e. Extends-Pushes true reallocated (large no_block) s str r e)
    promoted false =
        let allowed : leb vstr_max_large_size (length s) ≡ false = ground arith in
        rw allowed (returns (inr (refl, refl)))
