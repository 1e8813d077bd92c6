-- ===== src/Vec/PushAll.antt =====
-- A run of vec_push over a list, whose results the callers ignore.
use vlib.Base.{
  ◌+◌, ◌≤◌, ◌<◌, ◌≡◌, refl, sym, ap, ◌∙◌, List, [], ◌∷◌, ◌++◌, Bool, false, Run, ok, fault, aborted,
  out_of_fuel, ◌>>=◌, Returns, returns, Returns-bind, Returns-map, Status, arith, length, ◌==◌,
  length-append,
}
use mathlib.Core.List.{append-nil, append_assoc}
use vlib.Vec.{Vec, vec_push}
use vlib.Vec.Contents.{IsValid, contents, append_element-Appended, length-contents}

module _ {ℓ} {A : Type ℓ} (zeroed : A) (allocated : Bool) where
  unfoldable pub push_all : Vec A → List A → Run (Vec A)
  push_all v [] = ok v
  push_all v (x ∷ xs) = vec_push zeroed allocated v x >>= λ (_, w). push_all w xs

  pub push_all-append :
      (v : Vec A) (xs ys : List A) → push_all v (xs ++ ys) ≡ (push_all v xs >>= λ w. push_all w ys)
  unfolding push_all
  push_all-append v [] ys = refl
  push_all-append v (x ∷ xs) ys =
      step (vec_push zeroed allocated v x) (λ w. push_all-append w xs ys)
    where
      step :
          (r : Run (Status × Vec A))
          → ((w : Vec A) → push_all w (xs ++ ys) ≡ (push_all w xs >>= λ u. push_all u ys))
          → (r >>= λ (_, w). push_all w (xs ++ ys))
            ≡ ((r >>= λ (_, w). push_all w xs) >>= λ u. push_all u ys)
      step (ok (s, w)) ih = ih w
      step fault ih = refl
      step aborted ih = refl
      step out_of_fuel ih = refl

  -- what is left of pushing a list into free room
  abbrev pub Extends : Vec A → List A → Vec A → Type ℓ
  Extends v xs w = IsValid w × (contents w ≡ contents v ++ xs) × (w.cap ≡ v.cap)

  push_room :
      (v : Vec A) (x : A)
      → IsValid v
      → v.len < v.cap
      → Returns (λ r. Extends v (x ∷ []) r.1) (vec_push zeroed allocated v x)
  unfolding vec_push
  push_room v x h lt =
      let free : (v.len == v.cap) ≡ false = ground arith in
      rw free (
        Returns-map _ (append_element-Appended v x h lt)
          λ (s, w) (e, valid, c, cap). (valid, c, cap))

  -- A list that fits behind the elements is appended, without a call of realloc.
  pub push_all-Extends :
      (xs : List A) (v : Vec A)
      → IsValid v
      → v.len + length xs ≤ v.cap
      → Returns (Extends v xs) (push_all v xs)
  unfolding push_all
  push_all-Extends [] v h fits = returns (h, sym (append-nil (contents v)), refl)
  push_all-Extends (x ∷ xs) v h fits =
      Returns-bind _ _ (push_room v x h (omega arith)) λ (s, w) (hw, c, cap).
        let size = length-contents w hw in
        let old = length-contents v h in
        Returns-map _
          (push_all-Extends xs w hw
            (omega (arith, ap (length {ℓ}) c, length-append (contents v) (x ∷ []))))
          λ u (hu, d, cap'). (hu, d ∙ (rw c (append_assoc (contents v) (x ∷ []) xs)), cap' ∙ cap)
