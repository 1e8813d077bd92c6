-- ===== src/Vstr.antt =====
-- src/vstr.c: strings that are kept in the struct up to 23 bytes, and in a block on the heap beyond.
-- The outcomes of calloc and realloc are the arguments `allocated` and `reallocated`.
pub mod Contents
pub mod Pushes
pub mod Makes
pub mod Compare
use vlib.Base.{
  ℕ, zero, suc, ◌+◌, ◌-◌, ◌*◌, ◌%◌, ◌^◌, ◌++◌, List, [], ◌∷◌, Option, none, some, Bool, ◌&&◌, Run,
  ok, fault, aborted, ◌>>=◌, Status, success, failure, Ordering, ltb, leb, ◌==◌, if◌then◌else◌,
  word, length, take, drop, replicate,
}
use vlib.Cmp.{is_zero}
use vlib.Array.{store, memcpy}

abbrev pub Char : Type 0
Char = ℕ

abbrev pub vstr_max_small_size : ℕ
vstr_max_small_size = 23

abbrev pub vstr_max_large_size : ℕ
vstr_max_large_size = 2 ^ 56 - 1

-- `vstr_lg`; a null pointer is an empty block
pub record Large : Type 0 where
  pub bytes : List Char
  pub cap : ℕ
  pub len : ℕ

-- The constructor is `is_large`. A small string has `small_avail` and the 23 bytes of its buffer.
-- A cleared union is 23 zero bytes, whichever member it is read through. Nothing reads the
-- `small_avail` of a large string.
pub data Vstr : Type 0 where
  small : ℕ → List Char → Vstr
  large : Large → Vstr

abbrev pub zeroed : List Char
zeroed = replicate vstr_max_small_size 0

abbrev pub no_block : Large
no_block = record { bytes = []; cap = 0; len = 0 }

unfoldable pub vstr_new : Vstr
vstr_new = small vstr_max_small_size zeroed

unfoldable pub vstr_lg_new_len : Bool → ℕ → Run Large
vstr_lg_new_len allocated len =
    if allocated
    then ok (record { bytes = replicate (len + 1) 0; cap = len + 1; len = 0 })
    else aborted

unfoldable pub vstr_new_len : Bool → ℕ → Run Vstr
unfolding vstr_lg_new_len
vstr_new_len allocated len =
    let block = vstr_lg_new_len allocated len >>= λ lg. ok (large lg) in
    let asserted = if leb len vstr_max_large_size then block else aborted in
    if ltb vstr_max_small_size len then asserted else ok (small vstr_max_small_size zeroed)

unfoldable pub vstr_make_lg : Bool → List Char → Run Large
unfolding memcpy
vstr_make_lg allocated bytes =
    let cap = vstr_max_small_size + 2 in
    let filled = (do
      block ← memcpy (replicate cap 0) 0 bytes vstr_max_small_size
      ok (record { bytes = block; cap = cap; len = vstr_max_small_size })) in
    if allocated then filled else ok no_block

unfoldable pub vstr_make_lg_len : Bool → List Char → ℕ → Run Large
unfolding memcpy
vstr_make_lg_len allocated bytes len =
    let filled = (do
      block ← memcpy (replicate (len + 1) 0) 0 bytes len
      ok (record { bytes = block; cap = len + 1; len = len })) in
    let made = if allocated then filled else ok no_block in
    if leb vstr_max_large_size len then ok no_block else made

-- what vstr_from and vstr_from_len make of the block
abbrev pub from_block : Large → Vstr
from_block lg = if lg.cap == 0 then small 0 zeroed else large lg

unfoldable pub vstr_from_len : Bool → List Char → ℕ → Run Vstr
unfolding vstr_make_lg_len memcpy
vstr_from_len allocated cstr len =
    let block = vstr_make_lg_len allocated cstr len >>= λ lg. ok (from_block lg) in
    let inner =
      memcpy zeroed 0 cstr len >>= λ bytes. ok (small (vstr_max_small_size - len) bytes) in
    if ltb vstr_max_small_size len then block else inner

-- `cstr` is the string up to its null byte
unfoldable pub vstr_from : Bool → List Char → Run Vstr
unfolding vstr_make_lg_len memcpy
vstr_from allocated cstr =
    let cstr_len = length cstr in
    let block = vstr_make_lg_len allocated cstr cstr_len >>= λ lg. ok (from_block lg) in
    let inner = memcpy zeroed 0 cstr cstr_len >>= λ bytes.
    ok (small (vstr_max_small_size - cstr_len) bytes) in
    if ltb vstr_max_small_size cstr_len then block else inner

-- `text` is what vsnprintf writes in front of its null byte; a length 0 fails the `assert`
unfoldable pub vstr_format : Bool → List Char → Run Vstr
unfolding vstr_new_len memcpy
vstr_format allocated text =
    let size = length text + 1 in
    let write : Vstr → Run Vstr = λ s. elim s [
      | large lg ↦ do
        filled ← memcpy lg.bytes 0 (text ++ 0 ∷ []) size
        ok (large (record lg { bytes = filled; len = (size - 1) % 2 ^ 56 }))
      | small avail bytes ↦ do
        filled ← memcpy bytes 0 (text ++ 0 ∷ []) size
        ok (small (vstr_max_small_size + 1 - size) filled)
    ] in
    let written = vstr_new_len allocated size >>= write in
    if length text == 0 then aborted else written

unfoldable pub vstr_len : Vstr → ℕ
vstr_len (small avail bytes) = vstr_max_small_size - avail
vstr_len (large lg) = lg.len

-- the bytes from the returned pointer on; behind a small string's buffer stands the byte with
-- `is_large` and `small_avail`
unfoldable pub vstr_data : Vstr → List Char
vstr_data (small avail bytes) = bytes ++ avail * 2 ∷ []
vstr_data (large lg) = lg.bytes

-- the sign of `strncmp`, and a fault for a read outside the two blocks
unfoldable pub strncmp : List Char → List Char → ℕ → Run Ordering
strncmp xs ys zero = ok Ordering.eq
strncmp [] ys (suc n) = fault
strncmp (a ∷ xs) [] (suc n) = fault
strncmp (a ∷ xs) (b ∷ ys) (suc n) =
    let rest = strncmp xs ys n in
    if ltb a b
    then ok Ordering.lt
    else if ltb b a
    then ok Ordering.gt
    else if a == 0
    then ok Ordering.eq
    else rest

-- `cmp`, or `result` if it is 0
abbrev pub unless_equal : Ordering → Ordering → Run Ordering
unless_equal result cmp = ok (if is_zero cmp then result else cmp)

-- the sign of the result
unfoldable pub vstr_cmp : Vstr → Vstr → Run Ordering
unfolding vstr_len vstr_data strncmp
vstr_cmp a b =
    let alen = vstr_len a in
    let blen = vstr_len b in
    let astr = vstr_data a in
    let bstr = vstr_data b in
    if alen == blen
    then strncmp astr bstr alen
    else if ltb alen blen
    then strncmp astr bstr alen >>= unless_equal Ordering.gt
    else strncmp astr bstr blen >>= unless_equal Ordering.lt

unfoldable pub vstr_sm_push_char : List Char → Char → ℕ → Run (Status × List Char)
unfolding store
vstr_sm_push_char bytes c avail =
    let written = store bytes (vstr_max_small_size - avail) c >>= λ written_bytes.
    ok (success, written_bytes) in
    if avail == 0 then ok (failure, bytes) else written

unfoldable pub vstr_sm_push_string : List Char → List Char → ℕ → Run (Status × List Char)
unfolding memcpy
vstr_sm_push_string bytes str avail =
    let written = (do
      filled ← memcpy bytes (vstr_max_small_size - avail) str (length str)
      ok (success, filled)) in
    if ltb avail (length str) then ok (failure, bytes) else written

-- `realloc` keeps the first `len` bytes, and the rest is cleared
unfoldable pub resized : Bool → Large → ℕ → ℕ → Run (Status × Large)
resized reallocated lg len cap =
    let kept = take len lg.bytes ++ replicate (cap - len) 0 in
    let moved =
      if leb len cap then ok (success, record lg { bytes = kept; cap = cap }) else fault in
    if reallocated then moved else ok (failure, lg)

unfoldable pub vstr_realloc_lg : Bool → Large → ℕ → ℕ → Run (Status × Large)
unfolding resized
vstr_realloc_lg reallocated lg len cap = resized reallocated lg len ((cap * 2) % word)

unfoldable pub vstr_realloc_lg_len : Bool → Large → ℕ → ℕ → ℕ → Run (Status × Large)
unfolding resized
vstr_realloc_lg_len reallocated lg len cap new_len =
    resized reallocated lg len ((cap + new_len) % word)

unfoldable pub vstr_lg_push_char : Bool → Large → Char → Run (Status × Large)
unfolding vstr_realloc_lg store
vstr_lg_push_char reallocated lg c =
    let len = lg.len in
    let cap = lg.cap in
    let grown = vstr_realloc_lg reallocated lg len cap in
    let written : Large → Run (Status × Large) = λ l. (do
      filled ← store l.bytes len c
      ok (success, record l { bytes = filled; len = (l.len + 1) % 2 ^ 56 })) in
    let pushed : Status × Large → Run (Status × Large) = λ (res, l). elim res [
      | failure ↦ ok (failure, l)
      | success ↦ if ltb vstr_max_large_size (len + 1) then ok (failure, l) else written l
    ] in
    let room = (if len == cap - 1 then grown else ok (success, lg)) >>= pushed in
    if cap == 0 then ok (failure, lg) else room

unfoldable pub vstr_lg_push_string : Bool → Large → List Char → Run (Status × Large)
unfolding vstr_realloc_lg_len memcpy
vstr_lg_push_string reallocated lg str =
    let len = lg.len in
    let cap = lg.cap in
    let str_len = length str in
    let new_len = (len + str_len) % word in
    let grown = vstr_realloc_lg_len reallocated lg len cap str_len in
    let written : Large → Run (Status × Large) = λ l. (do
      filled ← memcpy l.bytes len str str_len
      ok (success, record l { bytes = filled; len = (l.len + str_len) % 2 ^ 56 })) in
    let pushed : Status × Large → Run (Status × Large) =
      λ (res, l). elim res [ failure ↦ ok (failure, l) | success ↦ written l ] in
    let room = (if ltb (cap - 1) new_len then grown else ok (success, lg)) >>= pushed in
    if cap == 0
    then ok (failure, lg)
    else if ltb vstr_max_large_size new_len
    then ok (failure, lg)
    else room

abbrev pub as_large : Status × Large → Run (Status × Vstr)
as_large (res, lg) = ok (res, large lg)

unfoldable pub vstr_push_char : Bool → Bool → Vstr → Char → Run (Status × Vstr)
unfolding vstr_lg_push_char vstr_sm_push_char vstr_make_lg
vstr_push_char allocated reallocated (large lg) c = vstr_lg_push_char reallocated lg c >>= as_large
vstr_push_char allocated reallocated (small avail bytes) c = do
  (push_res, buffer) ← vstr_sm_push_char bytes c avail
  let promoted = vstr_make_lg allocated buffer >>= λ lg.
      let pushed = vstr_lg_push_char reallocated lg c >>= as_large in
      if lg.cap == 0 then ok (failure, small avail zeroed) else pushed
  elim push_res [ success ↦ ok (success, small (avail - 1) buffer) | failure ↦ promoted ]

unfoldable pub vstr_push_string : Bool → Bool → Vstr → List Char → Run (Status × Vstr)
unfolding vstr_lg_push_string vstr_sm_push_string vstr_make_lg_len
vstr_push_string allocated reallocated (large lg) str =
    vstr_lg_push_string reallocated lg str >>= as_large
vstr_push_string allocated reallocated (small avail bytes) str = do
  (push_res, buffer) ← vstr_sm_push_string bytes str avail
  let promoted = do
    lg ← vstr_make_lg_len allocated buffer (vstr_max_small_size - avail)
    pushed ← vstr_lg_push_string reallocated lg str
    as_large pushed
  elim push_res [ success ↦ ok (success, small (avail - length str) buffer) | failure ↦ promoted ]

-- the block that is handed to `free`
unfoldable pub vstr_free : Vstr → Option (List Char)
vstr_free (small avail bytes) = none
vstr_free (large lg) = some lg.bytes
