-- ===== src/Examples/Vstr.antt =====
-- Runs of the strings.
use vlib.Base.{
  ℕ, ◌≡◌, ◌↔◌, ◌++◌, ◌>>=◌, refl, List, [], ◌∷◌, true, false, ok, Returns, Status, success,
  Ordering, arith, replicate,
}
use vlib.Vstr.{
  Char, Vstr, small, large, zeroed, no_block, vstr_from, vstr_from_len, vstr_push_char,
  vstr_push_string, vstr_len, vstr_cmp,
}
use vlib.Vstr.Contents.{IsString, within}
use vlib.Vstr.Pushes.{Pushes, vstr_push_char-Pushes, vstr_push_string-Pushes}
use vlib.Vstr.Makes.{Makes, vstr_from_len-Makes, vstr_from-Makes}
use vlib.Vstr.Compare.{byte_order, vstr_cmp-byte_order}

abbrev full_text : List Char
full_text = replicate 23 97

abbrev hi : List Char
hi = 104 ∷ 105 ∷ []

abbrev full_string : Vstr
full_string = small 0 (full_text ++ [])

abbrev hi_string : Vstr
hi_string = small 21 (hi ++ replicate 21 0)

hi_string-IsString : IsString hi hi_string
hi_string-IsString = within 21 refl

full_string-IsString : IsString full_text full_string
full_string-IsString = within 0 refl

-- the 24th byte moves the string to the heap
promote_run :
    (vstr_push_char true true full_string 98 >>= λ (s, v).
    ok (let r : Status × ℕ = (s, vstr_len v) in r))
    ≡ ok (success, 24)
unfolding vstr_push_char vstr_len
promote_run = refl

prefix_run : vstr_cmp hi_string (small 22 (104 ∷ replicate 22 0)) ≡ ok Ordering.lt
unfolding vstr_cmp
prefix_run = refl

vstr_push_char-Pushes_example :
    Returns
      (Pushes false true (small 0 zeroed) full_text (98 ∷ []))
      (vstr_push_char false true full_string 98)
vstr_push_char-Pushes_example =
    vstr_push_char-Pushes false true full_text full_string 98 full_string-IsString

vstr_push_string-Pushes_example :
    Returns
      (Pushes true true (large no_block) full_text hi)
      (vstr_push_string true true full_string hi)
vstr_push_string-Pushes_example =
    vstr_push_string-Pushes true true full_text full_string hi (omega arith) full_string-IsString

vstr_from_len-Makes_example : Returns (Makes true hi) (vstr_from_len true (hi ++ 33 ∷ []) 2)
vstr_from_len-Makes_example = vstr_from_len-Makes true hi (33 ∷ [])

vstr_from-Makes_example : Returns (Makes true hi) (vstr_from true hi)
vstr_from-Makes_example = vstr_from-Makes true hi

vstr_cmp-byte_order_example :
    (vstr_cmp hi_string full_string ≡ ok (byte_order hi full_text))
    × ((byte_order hi full_text ≡ Ordering.eq) ↔ (hi ≡ full_text))
vstr_cmp-byte_order_example =
    vstr_cmp-byte_order hi full_text hi_string full_string hi_string-IsString full_string-IsString
      (refl, (refl, tt))
