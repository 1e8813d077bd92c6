-- ===== src/Sort/Quick/Ranges.antt =====
-- Changes that stay within a range of an array.
use mathlib.Core.List.Perm
use vlib.Base.{
  ℕ, ◌≤◌, ◌<◌, ◌≡◌, refl, ◌∙◌, List, Perm, arith, length, get_or, inl, inr, Bool-cases, ltb, leb,
  ◌==◌,
}
use vlib.Cmp.{CmpFn, Le}
use vlib.Array.{swapped, swapped-perm, get_or-swapped}

module _ {ℓ} {A : Type ℓ} (d : A) where
  -- the entry of `b` at `q` is one of `a` between `lo` and `end`
  abbrev pub IsFrom : ℕ → ℕ → List A → List A → ℕ → Type ℓ
  IsFrom lo end a b q = (r : ℕ) × (lo ≤ r) × (r < end) × (get_or b q d ≡ get_or a r d)

  -- `b` is `a` but for a rearrangement of the entries between `lo` and `end`
  pub record Within (lo end : ℕ) (a b : List A) : Type ℓ where
    pub same : Perm b a
    pub moved : (q : ℕ) → lo ≤ q → q < end → IsFrom lo end a b q
    pub before : (q : ℕ) → q < lo → get_or b q d ≡ get_or a q d
    pub behind : (q : ℕ) → end ≤ q → get_or b q d ≡ get_or a q d

  pub Within-refl : (lo end : ℕ) (a : List A) → Within lo end a a
  Within-refl lo end a = record {
    same = Perm.rfl;
    moved = λ q le lt. (q, le, lt, refl);
    before = λ q lt. refl;
    behind = λ q le. refl;
  }

  pub Within-trans :
      (lo end : ℕ) (a b c : List A) → Within lo end a b → Within lo end b c → Within lo end a c
  Within-trans lo end a b c u v = record {
    same = Perm.trans v.same u.same;
    moved = λ q le lt.
        let (r, le', lt', e) = v.moved q le lt in
        let (s, le'', lt'', f) = u.moved r le' lt' in (s, le'', lt'', e ∙ f);
    before = λ q lt. v.before q lt ∙ u.before q lt;
    behind = λ q le. v.behind q le ∙ u.behind q le;
  }

  -- a change of a shorter range
  pub Within-wider :
      (lo end lo' end' : ℕ) (a b : List A)
      → lo ≤ lo'
      → end' ≤ end
      → Within lo' end' a b
      → Within lo end a b
  Within-wider lo end lo' end' a b h k v = record {
    same = v.same;
    moved = λ q le lt. elim (Bool-cases (ltb q lo')) [
      | inl early ↦ (q, le, lt, v.before q (ground arith))
      | inr on ↦ elim (Bool-cases (leb end' q)) [
        | inl late ↦ (q, le, lt, v.behind q (ground arith))
        | inr inside ↦
            let (r, le', lt', e) = v.moved q (ground arith) (ground arith) in
            (r, omega arith, omega arith, e)
      ]
    ];
    before = λ q lt. v.before q (omega arith);
    behind = λ q le. v.behind q (omega arith);
  }

  pub Within-swapped :
      (lo end i j : ℕ) (a : List A)
      → lo ≤ i
      → i < end
      → lo ≤ j
      → j < end
      → end ≤ length a
      → Within lo end a (swapped d a i j)
  Within-swapped lo end i j a li ie lj je h =
      let at = get_or-swapped d a i j (omega arith) (omega arith) in
      record {
        same = swapped-perm d a i j (omega arith) (omega arith);
        moved = λ q le lt. elim (Bool-cases (j == q)) [
          | inl e ↦ (i, li, ie, ground (arith, at q))
          | inr ne ↦ elim (Bool-cases (i == q)) [
            | inl e ↦ (j, lj, je, ground (arith, at q))
            | inr ne' ↦ (q, le, lt, ground (arith, at q))
          ]
        ];
        before = λ q lt. ground (arith, at q);
        behind = λ q le. ground (arith, at q);
      }

  -- the entries between `lo` and `end` are in order
  abbrev pub IsSortedIn : (cmp : CmpFn A) → ℕ → ℕ → List A → Type 0
  IsSortedIn cmp lo end a =
      (p q : ℕ) → lo ≤ p → p < q → q < end → Le cmp (get_or a p d) (get_or a q d)
