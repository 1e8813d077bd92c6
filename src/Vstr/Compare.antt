-- ===== src/Vstr/Compare.antt =====
-- vstr_cmp compares the bytes of two strings.
use vlib.Base.{
  ℕ, zero, suc, ◌++◌, ◌≤◌, ◌<◌, ◌≡◌, ◌⊎◌, ◌↔◌, inl, inr, refl, List, [], ◌∷◌, false, ok, ◌>>=◌,
  arith, ltb, ◌==◌, Bool-cases, Ordering, if◌then◌else◌, length,
}
use vlib.Cmp.{is_zero}
use vlib.Vstr.{unless_equal, Char, Vstr, strncmp, vstr_cmp}
use vlib.Vstr.Contents.{IsString}
use vlib.Vstr.Makes.{IsString-IsRead}

-- no null byte among them
abbrev pub HasNoNull : List Char → Type 0
HasNoNull [] = Unit
HasNoNull (c ∷ s) = ((c == 0) ≡ false) × HasNoNull s

-- The order of vstr_cmp: byte by byte, and a string comes behind those that it starts.
abbrev pub byte_order : List Char → List Char → Ordering
byte_order [] [] = Ordering.eq
byte_order [] (b ∷ t) = Ordering.gt
byte_order (a ∷ s) [] = Ordering.lt
byte_order (a ∷ s) (b ∷ t) =
    let rest = byte_order s t in
    if ltb a b then Ordering.lt else if ltb b a then Ordering.gt else rest

-- the same as far as both go
abbrev common_order : List Char → List Char → Ordering
common_order [] t = Ordering.eq
common_order (a ∷ s) [] = Ordering.eq
common_order (a ∷ s) (b ∷ t) =
    let rest = common_order s t in
    if ltb a b then Ordering.lt else if ltb b a then Ordering.gt else rest

strncmp-common_order :
    (s t u w : List Char) (n : ℕ)
    → HasNoNull s
    → n ≤ length s
    → n ≤ length t
    → (n ≡ length s) ⊎ (n ≡ length t)
    → strncmp (s ++ u) (t ++ w) n ≡ ok (common_order s t)
unfolding strncmp
strncmp-common_order [] t u w zero full hs ht shorter = refl
strncmp-common_order [] t u w (suc n) full hs ht shorter = absurd (omega arith)
strncmp-common_order (a ∷ s) [] u w zero full hs ht shorter = refl
strncmp-common_order (a ∷ s) [] u w (suc n) full hs ht shorter = absurd (omega arith)
strncmp-common_order (a ∷ s) (b ∷ t) u w zero full hs ht shorter = absurd (omega arith)
strncmp-common_order (a ∷ s) (b ∷ t) u w (suc n) (nonzero, full) hs ht shorter =
    let rest = strncmp-common_order s t u w n full (omega arith) (omega arith) (ground arith) in
    rw (nonzero, rest) (ground arith)

equal_lengths : (s t : List Char) → length s ≡ length t → common_order s t ≡ byte_order s t
equal_lengths [] [] e = refl
equal_lengths [] (b ∷ t) e = absurd (omega arith)
equal_lengths (a ∷ s) [] e = absurd (omega arith)
equal_lengths (a ∷ s) (b ∷ t) e = rw (equal_lengths s t (omega arith)) refl

shorter_left :
    (s t : List Char)
    → length s < length t
    → (if is_zero (common_order s t) then Ordering.gt else common_order s t) ≡ byte_order s t
shorter_left [] [] e = absurd (omega arith)
shorter_left [] (b ∷ t) e = refl
shorter_left (a ∷ s) [] e = absurd (omega arith)
shorter_left (a ∷ s) (b ∷ t) e = ground (arith, shorter_left s t (omega arith))

shorter_right :
    (s t : List Char)
    → length t < length s
    → (if is_zero (common_order s t) then Ordering.lt else common_order s t) ≡ byte_order s t
shorter_right [] [] e = absurd (omega arith)
shorter_right [] (b ∷ t) e = absurd (omega arith)
shorter_right (a ∷ s) [] e = refl
shorter_right (a ∷ s) (b ∷ t) e = ground (arith, shorter_right s t (omega arith))

byte_order-eq : (s t : List Char) → byte_order s t ≡ Ordering.eq → s ≡ t
byte_order-eq [] [] e = refl
byte_order-eq [] (b ∷ t) e = cc
byte_order-eq (a ∷ s) [] e = cc
byte_order-eq (a ∷ s) (b ∷ t) e =
    let head : a ≡ b = ground arith in let tail : s ≡ t = byte_order-eq s t (ground arith) in cc

byte_order_self : (s : List Char) → byte_order s s ≡ Ordering.eq
byte_order_self [] = refl
byte_order_self (a ∷ s) = ground (arith, byte_order_self s)

-- For strings without null bytes, vstr_cmp returns 0 exactly if they are equal, and otherwise the sign
-- at the first byte that differs; a string compares greater than one that it is the start of.
pub vstr_cmp-byte_order :
    (s t : List Char) (v w : Vstr)
    → IsString s v
    → IsString t w
    → HasNoNull s
    → (vstr_cmp v w ≡ ok (byte_order s t)) × ((byte_order s t ≡ Ordering.eq) ↔ (s ≡ t))
unfolding vstr_cmp
vstr_cmp-byte_order s t v w hv hw full =
    let (len_v, (rest_v, at_v)) = IsString-IsRead s v hv in
    let (len_w, (rest_w, at_w)) = IsString-IsRead t w hw in
    rw (len_v, len_w, at_v, at_w)
      (compared rest_v rest_w, (byte_order-eq s t, λ same. rw same (byte_order_self t)))
  where
    compared :
        (u w : List Char)
        → (if length s == length t
            then strncmp (s ++ 0 ∷ u) (t ++ 0 ∷ w) (length s)
            else if ltb (length s) (length t)
            then strncmp (s ++ 0 ∷ u) (t ++ 0 ∷ w) (length s) >>= unless_equal Ordering.gt
            else strncmp (s ++ 0 ∷ u) (t ++ 0 ∷ w) (length t) >>= unless_equal Ordering.lt)
          ≡ ok (byte_order s t)
    compared u w = elim (Bool-cases (length s == length t)) [
      | inl same ↦
          rw
            (
              same,
              strncmp-common_order s t (0 ∷ u) (0 ∷ w) (length s) full (ground arith) (ground arith)
                  (inl refl),
              equal_lengths s t (ground arith),
            )
            refl
      | inr differ ↦ elim (Bool-cases (ltb (length s) (length t))) [
        | inl less ↦
            rw
              (
                differ,
                less,
                strncmp-common_order s t (0 ∷ u) (0 ∷ w) (length s) full (ground arith)
                    (ground arith) (inl refl),
                shorter_left s t (ground arith),
              )
              refl
        | inr more ↦
            rw
              (
                differ,
                more,
                strncmp-common_order s t (0 ∷ u) (0 ∷ w) (length t) full (ground arith)
                    (ground arith) (inr refl),
                shorter_right s t (ground arith),
              )
              refl
      ]
    ]
