-- ===== src/Vec/Find.antt =====
-- src/vec.c: vec_find returns the first match, and vec_free visits every element once.
use vlib.Base.{
  ℕ, zero, suc, ◌+◌, ◌≤◌, ◌<◌, ◌≡◌, refl, List, Option, none, some, Bool-cases, inl, inr, true,
  false, Returns, returns, Returns-map, arith, length, get_elem?, get_or, get_elem?-eq-get_or, take,
  get_elem?-take, length-take, get_elem?-some,
}
use vlib.Cmp.{CmpFn, is_zero}
use vlib.Array.{load-ok}
use vlib.Vec.{Vec, find_loop, vec_find}
use vlib.Vec.Contents.{IsValid, contents}

module _ {ℓ} {A : Type ℓ} (fn : CmpFn A) (needle : A) where
  -- the result of a search in `xs`: the first match with its index, or that there is none
  abbrev pub FirstMatch : List A → Option (ℕ × A) → Type ℓ
  FirstMatch xs none = (i : ℕ) (x : A) → get_elem? xs i ≡ some x → is_zero (fn needle x) ≡ false
  FirstMatch xs (some (i, x)) =
      (get_elem? xs i ≡ some x)
      × (is_zero (fn needle x) ≡ true)
      × ((j : ℕ) (y : A) → j < i → get_elem? xs j ≡ some y → is_zero (fn needle y) ≡ false)

  module _ (d : A) (slots : List A) where
    -- the same, over the slots before `len`
    abbrev MatchBelow : ℕ → Option (ℕ × A) → Type ℓ
    MatchBelow len none =
        ((j : ℕ) → j < len → is_zero (fn needle (get_or slots j d)) ≡ false) × Unit {ℓ}
    MatchBelow len (some (i, x)) =
        (i < len)
        × (get_or slots i d ≡ x)
        × (is_zero (fn needle x) ≡ true)
        × ((j : ℕ) → j < i → is_zero (fn needle (get_or slots j d)) ≡ false)

    find_loop-MatchBelow :
        (n i len : ℕ)
        → i + n ≡ len
        → len ≤ length slots
        → ((j : ℕ) → j < i → is_zero (fn needle (get_or slots j d)) ≡ false)
        → Returns (MatchBelow len) (find_loop fn slots needle n i)
    unfolding find_loop
    find_loop-MatchBelow zero i len e h seen = returns ((λ j lt. seen j (omega arith)), tt)
    find_loop-MatchBelow (suc n) i len e h seen =
        rw (load-ok slots i d (omega arith))
          (elim (Bool-cases (is_zero (fn needle (get_or slots i d)))) [
            | inl hit ↦ rw hit (returns (omega arith, refl, hit, seen))
            | inr miss ↦
                rw miss (
                  find_loop-MatchBelow n (i + 1) len (omega arith) h λ j lt. ground (arith, seen j))
          ])

    MatchBelow-FirstMatch :
        (len : ℕ)
        → len ≤ length slots
        → (r : Option (ℕ × A)) → MatchBelow len r
        → FirstMatch (take len slots) r
    MatchBelow-FirstMatch len h none (m, _) = λ i x e. ground (
      arith,
      length-take len slots,
      get_elem?-some (take len slots) i d e,
      get_elem?-take len slots i,
      get_elem?-eq-get_or slots i d,
      m i,
    )
    MatchBelow-FirstMatch len h (some (i, x)) (lt, at, hit, before) = (
      ground (arith, get_elem?-take len slots i, get_elem?-eq-get_or slots i d),
      hit,
      λ j y jlt e.
          ground (arith, get_elem?-take len slots j, get_elem?-eq-get_or slots j d, before j),
    )

  -- On a valid vector, vec_find returns the first element that compares equal to the needle, with its
  -- index, and -1 only if no element does.
  pub vec_find-FirstMatch :
      (d : A) (v : Vec A) → IsValid v → Returns (FirstMatch (contents v)) (vec_find fn v needle)
  unfolding vec_find
  vec_find-FirstMatch d v h =
      let room = h.room in
      let bounded = h.bounded in
      Returns-map _
        (find_loop-MatchBelow d v.slots v.len 0 v.len (omega arith) (omega arith)
          (λ j lt. absurd (omega arith)))
        (MatchBelow-FirstMatch d v.slots v.len (omega arith))
