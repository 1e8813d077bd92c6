-- ===== src/Vstr/Makes.antt =====
-- New strings, and what vstr_len and vstr_data read of a string.
use vlib.Base.{
  ℕ, zero, suc, ◌+◌, ◌-◌, ◌*◌, ◌%◌, ◌^◌, ◌++◌, ◌≤◌, ◌<◌, ◌≡◌, ◌⊎◌, inl, inr, refl, sym, ap, ◌∙◌,
  List, [], ◌∷◌, Bool, true, false, ok, ◌>>=◌, Returns, returns, arith, ltb, leb, ◌==◌, Bool-cases,
  length, replicate, length-append,
}
use mathlib.Core.Path.{subst}
use mathlib.Core.List.{append-nil, append_assoc}
use vlib.Array.{memcpy}
use vlib.Vstr.{
  Char, Vstr, small, large, zeroed, vstr_max_large_size, vstr_make_lg_len, vstr_new_len,
  vstr_lg_new_len, vstr_from, vstr_from_len, vstr_format, vstr_len, vstr_data, from_block,
}
use vlib.Vstr.Contents.{block, IsString, within, on_heap, memcpy_start, vstr_make_lg_len-block}

-- The bytes behind the returned pointer start with those of the string and a null byte.
abbrev pub IsRead : List Char → Vstr → Type 0
IsRead s v = (vstr_len v ≡ length s) × ((rest : List Char) × (vstr_data v ≡ s ++ 0 ∷ rest))

pub IsString-IsRead : (s : List Char) (v : Vstr) → IsString s v → IsRead s v
unfolding vstr_len vstr_data
IsString-IsRead s v (within zero size) = (omega arith, ([], ap (λ l. l ++ 0 ∷ []) (append-nil s)))
IsString-IsRead s v (within (suc avail) size) = (
  omega arith,
  (
    replicate avail 0 ++ (suc avail * 2) ∷ [],
    append_assoc s (replicate (suc avail) 0) ((suc avail * 2) ∷ []),
  ),
)
IsString-IsRead s v (on_heap spare short bounded) = (refl, (replicate spare 0, refl))

-- a string of the bytes, or the 23 null bytes of a failure
abbrev pub Makes : Bool → List Char → Vstr → Type 0
Makes allocated s v =
    (IsString s v × IsRead s v)
    ⊎ ((v ≡ small 0 zeroed)
        × (23 < length s)
        × ((allocated ≡ false) ⊎ (vstr_max_large_size ≤ length s)))

-- vstr_from_len makes a string of the first `len` bytes at the pointer, which vstr_len and vstr_data
-- then give back, with a null byte behind them. When it needs a block and there is no memory, or
-- the length is too great, it returns a short string of 23 null bytes.
pub vstr_from_len-Makes :
    (allocated : Bool) (s rest : List Char)
    → Returns (Makes allocated s) (vstr_from_len allocated (s ++ rest) (length s))
unfolding vstr_from_len vstr_make_lg_len
vstr_from_len-Makes allocated s rest = elim (Bool-cases (ltb 23 (length s))) [
  | inr fits ↦
      let inner : IsString s (small (23 - length s) (s ++ replicate (23 - length s) 0)) =
        within (23 - length s) (ground arith) in
      rw (fits, memcpy_start s rest (length s) (23 - length s) 23 refl (ground arith))
        (returns (inl (inner, IsString-IsRead s _ inner)))
  | inl long ↦
      rw long (made allocated (ground arith) (Bool-cases (leb vstr_max_large_size (length s))))
]
  where
    made :
        (a : Bool)
        → 23 < length s
        → (leb vstr_max_large_size (length s) ≡ true) ⊎ (leb vstr_max_large_size (length s) ≡ false)
        → Returns
            (Makes a s)
            (vstr_make_lg_len a (s ++ rest) (length s) >>= λ lg. ok (from_block lg))
    made a long (inl too_long) = rw too_long (returns (inr (refl, long, inr (ground arith))))
    made false long (inr short) = rw short (returns (inr (refl, long, inl refl)))
    made true long (inr short) =
        let has_block : (length s + 1 == 0) ≡ false = ground arith in
        let outer : IsString s (large (block s 0)) = on_heap 0 (ground arith) (ground arith) in
        rw (vstr_make_lg_len-block s rest (ground arith), has_block)
          (returns (inl (outer, IsString-IsRead s _ outer)))

-- vstr_from does the same with all bytes in front of the null byte.
pub vstr_from-Makes :
    (allocated : Bool) (cstr : List Char)
    → Returns (Makes allocated cstr) (vstr_from allocated cstr)
unfolding vstr_from vstr_from_len
vstr_from-Makes allocated cstr =
    subst (λ l. Returns (Makes allocated cstr) (vstr_from_len allocated l (length cstr)))
      (append-nil cstr) (vstr_from_len-Makes allocated cstr [])

-- an empty string, with room for `len` bytes
pub vstr_new_len-IsString :
    (len : ℕ) → len ≤ vstr_max_large_size → Returns (IsString []) (vstr_new_len true len)
unfolding vstr_new_len vstr_lg_new_len
vstr_new_len-IsString len short = elim (Bool-cases (ltb 23 len)) [
  | inr fits ↦ rw fits (returns (within 23 refl))
  | inl long ↦
      let allowed : leb len vstr_max_large_size ≡ true = ground arith in
      let one_more : len + 1 ≡ suc len = omega arith in
      let zero_plus : 0 + suc len ≡ suc len = omega arith in
      rw (long, allowed, one_more)
        (returns (
          subst
            (λ n. IsString [] (large (record { bytes = replicate (suc len) 0; cap = n; len = 0 })))
            zero_plus (on_heap len (omega arith) (omega arith))))
]

-- the copy of a text with its null byte
memcpy_text :
    (text : List Char) (k n : ℕ)
    → length text + suc k ≡ n
    → memcpy (replicate n 0) 0 (text ++ 0 ∷ []) (length text + 1) ≡ ok (text ++ replicate (suc k) 0)
memcpy_text text k n size =
    let size' : length (text ++ 0 ∷ []) ≡ length text + 1 = length-append text (0 ∷ []) in
    let copied : memcpy (replicate n 0) 0 ((text ++ 0 ∷ []) ++ []) (length text + 1)
        ≡ ok ((text ++ 0 ∷ []) ++ replicate k 0) =
      memcpy_start (text ++ 0 ∷ []) [] (length text + 1) k n (sym size') (omega arith) in
    let whole : (text ++ 0 ∷ []) ++ [] ≡ text ++ 0 ∷ [] = append-nil (text ++ 0 ∷ []) in
    ap (λ l. memcpy (replicate n 0) 0 l (length text + 1)) (sym whole)
    ∙ copied
    ∙ ap ok (append_assoc text (0 ∷ []) (replicate k 0))

-- vstr_format makes a string of a formatted text that is not empty and is shorter than the greatest
-- length, when there is memory; vstr_len and vstr_data then give it back.
pub vstr_format-IsString :
    (text : List Char)
    → 0 < length text
    → length text < vstr_max_large_size
    → Returns (λ v. IsString text v × IsRead text v) (vstr_format true text)
unfolding vstr_format vstr_new_len vstr_lg_new_len
vstr_format-IsString text some_text short =
    let filled : (length text == 0) ≡ false = ground arith in
    elim (Bool-cases (ltb 23 (length text + 1))) [
      | inr fits ↦
          let left : 24 - (length text + 1) ≡ suc (22 - length text) = ground arith in
          let inner : IsString text
              (small (suc (22 - length text)) (text ++ replicate (suc (22 - length text)) 0)) =
            within (suc (22 - length text)) (ground arith) in
          rw (filled, fits, memcpy_text text (22 - length text) 23 (ground arith), left)
            (returns (inner, IsString-IsRead text _ inner))
      | inl long ↦
          let allowed : leb (length text + 1) vstr_max_large_size ≡ true = ground arith in
          let new_len : (length text + 1 - 1) % 2 ^ 56 ≡ length text = omega arith in
          let new_cap : length text + 1 + 1 ≡ length text + 2 = omega arith in
          let outer : IsString text (large (block text 1)) =
            on_heap 1 (omega arith) (omega arith) in
          rw (filled, long, allowed, new_cap, memcpy_text text 1 (length text + 2) refl, new_len)
            (returns (outer, IsString-IsRead text _ outer))
    ]
