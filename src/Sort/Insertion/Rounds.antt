-- ===== src/Sort/Insertion/Rounds.antt =====
-- One round of insertion_sort.c: where it inserts, and when it runs off the front of the array.
use mathlib.Core.List.Perm
use vlib.Base.{
  ℕ, zero, suc, ◌+◌, ◌-◌, ◌%◌, ◌≤◌, ◌<◌, ◌≡◌, ◌≢◌, refl, List, Perm, Returns, returns, Returns-map,
  Bool-cases, inl, inr, true, arith, length, get_or, word, set, length-set, get_or-set, hole-perm,
  Returns-bind, fault, set-get_or, get_elem?-none,
}
use vlib.Cmp.{CmpFn, IsCmp, is_pos, Le, Le-total}
use vlib.Array.{load-ok, store-ok, load}
use vlib.Sort.Insertion.{shift, insert_round}

module _ {ℓ} {A : Type ℓ} (cmp : CmpFn A) (d : A) where
  -- `c` has the elements of `a`, those up to `i` in order, and is `a` at the front and behind `i`
  pub record Round (i : ℕ) (a c : List A) : Type ℓ where
    pub same : Perm c a
    pub sorted : (p q : ℕ) → p < q → q ≤ i → Le cmp (get_or c p d) (get_or c q d)
    pub head : get_or c 0 d ≡ get_or a 0 d
    pub rest : (q : ℕ) → i < q → get_or c q d ≡ get_or a q d

  -- inside the `while`, with the hole at `j + 1`
  record Hole (i j : ℕ) (key : A) (b : List A) : Type 0 where
    inside : i < length b
    small : length b < word
    order : j < i
    sorted :
        (p q : ℕ) → p < q → q ≤ i → p ≢ suc j → q ≢ suc j → Le cmp (get_or b p d) (get_or b q d)
    above : (q : ℕ) → suc j < q → q ≤ i → is_pos (cmp (get_or b q d) key) ≡ true
    least : Le cmp (get_or b 0 d) key

  abbrev Inserted : ℕ → A → List A → List A × ℕ → Type ℓ
  Inserted i key a (b, j) = (suc j < length b) × (length b < word) × Round i a (set b (suc j) key)

  module _ (laws : IsCmp cmp) where
    -- the `while` stops at `j`
    Hole-stop :
        (i j : ℕ) (key : A) (b : List A)
        → Hole i j key b
        → Le cmp (get_or b j d) key
        → Inserted i key (set b (suc j) key) (b, j)
    Hole-stop i j key b v le =
        let inside = v.inside in
        let order = v.order in
        (
          omega arith,
          v.small,
          record {
            same = Perm.rfl;
            sorted = λ p q lt end. ground (
              arith,
              get_or-set b (suc j) p key d,
              get_or-set b (suc j) q key d,
              v.sorted p q lt end,
              v.sorted p j,
              v.above q,
              laws.trans (get_or b p d) (get_or b j d) key,
              Le-total cmp laws (get_or b q d) key,
            );
            head = refl;
            rest = λ q lt. refl;
          },
        )

    -- it moves the entry at `suc j` up
    Hole-move :
        (i j : ℕ) (key : A) (b : List A)
        → Hole i (suc j) key b
        → is_pos (cmp (get_or b (suc j) d) key) ≡ true
        → Hole i j key (set b (suc (suc j)) (get_or b (suc j) d))
    Hole-move i j key b v gt =
        let inside = v.inside in
        let order = v.order in
        let x = get_or b (suc j) d in
        let at = λ (q : ℕ). get_or-set b (suc (suc j)) q x d in
        let size = length-set b (suc (suc j)) x in
        record {
          inside = omega (arith, size);
          small = rw size v.small;
          order = omega arith;
          sorted = λ p q lt end np nq.
              ground
                (arith, at p, at q, v.sorted p q lt end, v.sorted p (suc j), v.sorted (suc j) q);
          above = λ q lt end. ground (arith, at q, v.above q);
          least = ground (arith, at 0, v.least);
        }

    Round-moved :
        (i j : ℕ) (key : A) (b c : List A)
        → Hole i (suc j) key b
        → Round i (set (set b (suc (suc j)) (get_or b (suc j) d)) (suc j) key) c
        → Round i (set b (suc (suc j)) key) c
    Round-moved i j key b c v r =
        let inside = v.inside in
        let order = v.order in
        let x = get_or b (suc j) d in
        let b' = set b (suc (suc j)) x in
        let size = length-set b (suc (suc j)) x in
        let at = λ (q : ℕ). get_or-set b (suc (suc j)) q x d in
        let at' = λ (q : ℕ). get_or-set b' (suc j) q key d in
        let new = λ (q : ℕ). get_or-set b (suc (suc j)) q key d in
        record {
          same =
              Perm.trans r.same
                (hole-perm b (suc j) (suc (suc j)) key d (omega arith) (omega arith) (omega arith));
          sorted = r.sorted;
          head = ground (arith, size, at 0, at' 0, new 0, r.head);
          rest = λ q lt. ground (arith, size, at q, at' q, new q, r.rest q);
        }

    shift-Inserted :
        (k i j : ℕ) (key : A) (b : List A)
        → j < k
        → Hole i j key b
        → Returns (Inserted i key (set b (suc j) key)) (shift cmp k key j b)
    unfolding shift
    shift-Inserted zero i j key b f v = absurd (omega arith)
    shift-Inserted (suc k) i zero key b f v =
        let inside = v.inside in
        rw (load-ok b 0 d (omega arith), v.least) (returns (Hole-stop i 0 key b v v.least))
    shift-Inserted (suc k) i (suc j) key b f v =
        let inside = v.inside in
        let order = v.order in
        let small = v.small in
        let x = get_or b (suc j) d in
        let up : (suc j + 1) % word ≡ suc (suc j) = omega arith in
        let down : (suc j + word - 1) % word ≡ j = omega arith in
        rw (load-ok b (suc j) d (omega arith), up, down, store-ok b (suc (suc j)) x (omega arith))
          (elim (Bool-cases (is_pos (cmp x key))) [
            | inr le ↦ rw le (returns (Hole-stop i (suc j) key b v le))
            | inl gt ↦ rw gt (
                Returns-map _
                  (shift-Inserted k i j key (set b (suc (suc j)) x) (omega arith)
                    (Hole-move i j key b v gt))
                  λ (c, h) (lt, few, r). (lt, few, Round-moved i j key b (set c (suc h) key) v r))
          ])

    -- A round inserts the entry at `i` into the ones before it, if the first is no greater.
    pub insert_round-Round :
        (i : ℕ) (a : List A)
        → 0 < i
        → i < length a
        → length a < word
        → ((p q : ℕ) → p < q → q < i → Le cmp (get_or a p d) (get_or a q d))
        → Le cmp (get_or a 0 d) (get_or a i d)
        → Returns (Round i a) (insert_round cmp i a)
    unfolding insert_round
    insert_round-Round zero a pos hi small s le = absurd (omega arith)
    insert_round-Round (suc j) a pos hi small s le =
        let key = get_or a (suc j) d in
        let start : Hole (suc j) j key a = record {
          inside = hi;
          small = small;
          order = omega arith;
          sorted = λ p q lt end np nq. s p q lt (omega arith);
          above = λ q lt end. absurd (omega arith);
          least = le;
        } in
        let before : suc j - 1 ≡ j = omega arith in
        rw (load-ok a (suc j) d hi, before)
          (Returns-bind _ _ (shift-Inserted (suc j + 1) (suc j) j key a (omega arith) start)
            λ (b, h) (lt, few, r).
              let at : (h + 1) % word ≡ suc h = omega arith in
              rw (at, store-ok b (suc h) key lt) (returns (rw (set-get_or a (suc j) d) at r)))

    -- The `while` runs off the front of the array if it meets only greater entries.
    pub shift-fault :
        (k j : ℕ) (key : A) (a : List A)
        → j < k
        → suc j < length a
        → length a < word
        → ((p : ℕ) → p ≤ j → is_pos (cmp (get_or a p d) key) ≡ true)
        → shift cmp (suc k) key j a ≡ fault
    unfolding shift load
    shift-fault zero j key a f h small gt = absurd (omega arith)
    shift-fault (suc k) zero key a f h small gt =
        let up : (0 + 1) % word ≡ 1 = omega arith in
        let down : (0 + word - 1) % word ≡ word - 1 = omega arith in
        let x = get_or a 0 d in
        let gone = get_elem?-none (set a 1 x) (word - 1) (omega (arith, length-set a 1 x)) in
        rw (load-ok a 0 d (omega arith), gt 0 (omega arith), up, down, store-ok a 1 x h, gone)
    shift-fault (suc k) (suc j) key a f h small gt =
        let up : (suc j + 1) % word ≡ suc (suc j) = omega arith in
        let down : (suc j + word - 1) % word ≡ j = omega arith in
        let x = get_or a (suc j) d in
        let size = length-set a (suc (suc j)) x in
        rw
          (
            load-ok a (suc j) d (omega arith),
            gt (suc j) (omega arith),
            up,
            down,
            store-ok a (suc (suc j)) x h,
          )
          (shift-fault k j key (set a (suc (suc j)) x) (omega arith) (omega (arith, size))
            (omega (arith, size)) λ p le. ground (arith, get_or-set a (suc (suc j)) p x d, gt p))
