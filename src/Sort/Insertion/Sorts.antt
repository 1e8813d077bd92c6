-- ===== src/Sort/Insertion/Sorts.antt =====
-- When insertion_sort.c sorts an array, and when it reads in front of it.
use mathlib.Core.List.Perm
use vlib.Base.{
  ℕ, zero, suc, ◌+◌, ◌-◌, ◌≤◌, ◌<◌, ◌≡◌, ◌≢◌, List, ◌∷◌, Perm, fault, Returns, returns,
  Returns-bind, Returns-map, Bool-cases, inl, inr, true, arith, length, get_elem?, get_or,
  get_elem?-some, get_elem?-eq-get_or, length-perm, word, some, Ordering,
}
use vlib.Cmp.{CmpFn, IsCmp, is_pos, Le}
use vlib.Array.{load-ok}
use vlib.Sort.Order.{Sorts, IsSettled-IsSorted}
use vlib.Sort.Insertion.{insert_round, insert_rounds, insertion_sort}
use vlib.Sort.Insertion.Rounds.{insert_round-Round, shift-fault}

module _ {ℓ} {A : Type ℓ} (cmp : CmpFn A) (d : A) where
  -- the entries before `i` are in order
  abbrev IsUpto : ℕ → List A → Type 0
  IsUpto i a = (p q : ℕ) → p < q → q < i → Le cmp (get_or a p d) (get_or a q d)

  -- nothing from `i` on is less than the first entry
  abbrev IsLeast : ℕ → List A → Type 0
  IsLeast i a = (q : ℕ) → i ≤ q → q < length a → Le cmp (get_or a 0 d) (get_or a q d)

  module _ (laws : IsCmp cmp) where
    insert_rounds-Sorts :
        (n i : ℕ) (a : List A)
        → 0 < i
        → i + n ≡ length a
        → length a < word
        → IsUpto i a
        → IsLeast i a
        → Returns (λ b. IsUpto (length b) b × Perm b a) (insert_rounds cmp n i a)
    unfolding insert_rounds
    insert_rounds-Sorts zero i a pos e small s least =
        returns (λ p q lt end. s p q lt (omega arith), Perm.rfl)
    insert_rounds-Sorts (suc n) i a pos e small s least =
        Returns-bind _ _
          (insert_round-Round cmp d laws i a pos (omega arith) small s
            (least i (omega arith) (omega arith)))
          λ b r.
            let size = length-perm r.same in
            let head = r.head in
            Returns-map _
              (insert_rounds-Sorts n (i + 1) b (omega arith) (omega arith) (omega arith)
                (λ p q lt end. r.sorted p q lt (omega arith))
                (λ q le end. ground (arith, r.head, r.rest q, least q)))
              λ c (sorted, same). (sorted, Perm.trans same r.same)

    insert_round-fault :
        (i : ℕ) (a : List A)
        → 0 < i
        → i < length a
        → length a < word
        → IsUpto i a
        → is_pos (cmp (get_or a 0 d) (get_or a i d)) ≡ true
        → insert_round cmp i a ≡ fault
    unfolding insert_round
    insert_round-fault zero a pos hi small s gt = absurd (omega arith)
    insert_round-fault (suc j) a pos hi small s gt =
        let key = get_or a (suc j) d in
        let before : suc j - 1 ≡ j = omega arith in
        let one_more : suc j + 1 ≡ suc (suc j) = omega arith in
        let all : (p : ℕ) → p ≤ j → is_pos (cmp (get_or a p d) key) ≡ true =
          λ p le. ground (arith, s 0 p, laws.trans (get_or a 0 d) (get_or a p d) key, gt) in
        rw (
          load-ok a (suc j) d hi,
          before,
          one_more,
          shift-fault cmp d laws (suc j) j key a (omega arith) hi small all,
        )

    insert_rounds-fault :
        (n i q : ℕ) (a : List A)
        → 0 < i
        → i + n ≡ length a
        → length a < word
        → IsUpto i a
        → i ≤ q
        → q < length a
        → is_pos (cmp (get_or a 0 d) (get_or a q d)) ≡ true
        → insert_rounds cmp n i a ≡ fault
    unfolding insert_rounds
    insert_rounds-fault zero i q a pos e small s le end gt = absurd (omega arith)
    insert_rounds-fault (suc n) i q a pos e small s le end gt =
        elim (Bool-cases (is_pos (cmp (get_or a 0 d) (get_or a i d)))) [
          | inl now ↦ rw (insert_round-fault i a pos (omega arith) small s now)
          | inr later ↦
              let (b, done, r) =
                insert_round-Round cmp d laws i a pos (omega arith) small s later in
              let size = length-perm r.same in
              let ne : i ≢ q = λ same. ground (arith, later, gt, same) in
              rw done (
                insert_rounds-fault n (i + 1) q b (omega arith) (omega arith) (omega arith)
                  (λ u v lt end. r.sorted u v lt (omega arith)) (omega arith) (omega arith)
                  (ground (arith, r.head, r.rest q, gt)))
        ]

module _ {ℓ} {A : Type ℓ} (cmp : CmpFn A) (laws : IsCmp cmp) (x : A) (a : List A) where
  least_at :
      ((i : ℕ) (y : A) → get_elem? a i ≡ some y → Le cmp x y)
      → (q : ℕ) → 1 ≤ q
      → q < length (x ∷ a)
      → Le cmp x (get_or (x ∷ a) q x)
  least_at least zero le end = absurd (omega arith)
  least_at least (suc q) le end = least q _ (get_elem?-eq-get_or a q x (omega arith))

  -- For a total preorder, and an array whose first element is a least one and whose length is below
  -- 2^64, insertion_sort, given its buffer, returns, within the bounds of the array, an ascending
  -- array of the same elements.
  pub insertion_sort-Sorts :
      length (x ∷ a) < word
      → ((i : ℕ) (y : A) → get_elem? a i ≡ some y → Le cmp x y)
      → Returns (Sorts cmp (x ∷ a)) (insertion_sort cmp true (x ∷ a) (length (x ∷ a)))
  unfolding insertion_sort
  insertion_sort-Sorts small least =
      Returns-map _
        (insert_rounds-Sorts cmp x laws (length (x ∷ a) - 1) 1 (x ∷ a) (omega arith) (omega arith)
          small (λ p q lt end. absurd (omega arith)) (least_at least))
        λ b (sorted, same). (IsSettled-IsSorted cmp x b (λ p q lt le end. sorted p q lt end), same)

  -- For a total preorder and an array of a length below 2^64, insertion_sort reads outside the array
  -- as soon as some element is less than the first one.
  pub insertion_sort-fault :
      (i : ℕ) (y : A)
      → length (x ∷ a) < word
      → get_elem? a i ≡ some y
      → cmp x y ≡ Ordering.gt
      → insertion_sort cmp true (x ∷ a) (length (x ∷ a)) ≡ fault
  unfolding insertion_sort
  insertion_sort-fault i y small e gt =
      let (end, at) = get_elem?-some a i x e in
      insert_rounds-fault cmp x laws (length (x ∷ a) - 1) 1 (suc i) (x ∷ a) (omega arith)
        (omega arith) small (λ p q lt end. absurd (omega arith)) (omega arith) (omega arith)
        (ground (arith, at))
