-- ===== src/Hash/Entries.antt =====
-- The functions for one bucket, over the list of its entries.
pub mod Removal
pub mod Adding
use vlib.Base.{
  ◌<◌, ◌≤◌, ℕ, zero, suc, ◌+◌, ◌-◌, ◌≡◌, refl, sym, ap, ◌∙◌, List, [], ◌∷◌, ◌++◌, Option, none,
  some, Bool, true, false, Bool-cases, inl, inr, Run, ok, ◌>>=◌, arith, length, length-append, drop,
  set, ◌==◌, if◌then◌else◌, ltb, lt→ltb, take, replicate,
}
use vlib.Array.{load, store}
use vlib.Hash.{Key, Entry, Bucket, find_entry}

module _ {ℓ} {A : Type ℓ} where
  pub load-drop :
      (i : ℕ) (xs ys : List A) (x : A)
      → drop i xs ≡ x ∷ ys
      → (load xs i ≡ ok x) × (drop (suc i) xs ≡ ys)
  unfolding load
  load-drop zero [] ys x e = ground arith
  load-drop (suc i) [] ys x e = ground arith
  load-drop zero (z ∷ xs) ys x e = ground arith
  load-drop (suc i) (z ∷ xs) ys x e = load-drop i xs ys x e

  set_middle : (xs ys : List A) (y z : A) → set (xs ++ y ∷ ys) (length xs) z ≡ xs ++ z ∷ ys
  set_middle [] ys y z = refl
  set_middle (x ∷ xs) ys y z = ap (λ l. x ∷ l) (set_middle xs ys y z)

  pub store_middle :
      (n : ℕ) (xs ys : List A) (y z : A)
      → n ≡ length xs
      → store (xs ++ y ∷ ys) n z ≡ ok (xs ++ z ∷ ys)
  unfolding store
  store_middle n xs ys y z e =
      let inside = lt→ltb n (length (xs ++ y ∷ ys)) (omega (arith, length-append xs (y ∷ ys))) in
      rw (inside, e, set_middle xs ys y z)

module _ {ℓ} {V : Type ℓ} where
  abbrev pub pointers : List (Entry V) → List (Option (Entry V))
  pointers [] = []
  pointers (e ∷ c) = some e ∷ pointers c

  pub length-pointers : (c : List (Entry V)) → length (pointers c) ≡ length c
  length-pointers [] = refl
  length-pointers (e ∷ c) = ap suc (length-pointers c)

  pub pointers-append : (a b : List (Entry V)) → pointers (a ++ b) ≡ pointers a ++ pointers b
  pointers-append [] b = refl
  pointers-append (e ∷ a) b = ap (λ l. some e ∷ l) (pointers-append a b)

  -- `c` are the entries of the bucket
  pub record Holds (b : Bucket V) (c : List (Entry V)) : Type ℓ where
    pub behind : List (Option (Entry V))
    pub layout : b.entries ≡ pointers c ++ behind
    pub counted : b.len ≡ length c
    pub roomy : b.cap ≡ length c + length behind

  module _ (t : Key → Bool) where
    -- the search, the overwriting of a value and the removal on a list of entries
    abbrev pub first : ℕ → List (Entry V) → Option (ℕ × Entry V)
    first i [] = none
    first i (e ∷ c) = if t e.key then some (i, e) else first (i + 1) c

    abbrev pub lookup : List (Entry V) → Option V
    lookup [] = none
    lookup (e ∷ c) = if t e.key then some e.value else lookup c

    abbrev pub assign : V → List (Entry V) → List (Entry V)
    assign v [] = []
    assign v (e ∷ c) = if t e.key then record e { value = v } ∷ c else e ∷ assign v c

    abbrev pub erase : List (Entry V) → List (Entry V)
    erase [] = []
    erase (e ∷ c) = if t e.key then c else e ∷ erase c

    find_entry-drop :
        (c : List (Entry V)) (entries behind : List (Option (Entry V))) (i : ℕ)
        → drop i entries ≡ pointers c ++ behind
        → find_entry t entries (length c) i ≡ ok (first i c)
    unfolding find_entry
    find_entry-drop [] entries behind i e = refl
    find_entry-drop (x ∷ c) entries behind i e =
        let (at, rest) = load-drop i entries (pointers c ++ behind) (some x) e in
        let next : i + 1 ≡ suc i = omega arith in
        rw at (elim (Bool-cases (t x.key)) [
          | inl hit ↦ rw hit
          | inr miss ↦ rw miss (find_entry-drop c entries behind (i + 1) (rw next rest))
        ])

    -- the loop over the entries of a bucket finds the first one that passes the test
    pub find_entry-first :
        (b : Bucket V) (c : List (Entry V))
        → Holds b c
        → find_entry t b.entries b.len 0 ≡ ok (first 0 c)
    find_entry-first b c h = rw h.counted (find_entry-drop c b.entries h.behind 0 h.layout)

    -- what it means that the first match is the entry `e` at `j`, where the list begins at `i`
    pub record FirstAt (c : List (Entry V)) (i j : ℕ) (e : Entry V) : Type ℓ where
      pub before : List (Entry V)
      pub after : List (Entry V)
      pub split : c ≡ before ++ e ∷ after
      pub index : j ≡ i + length before
      pub hit : t e.key ≡ true
      pub found : lookup c ≡ some e.value
      pub assigned : (v : V) → assign v c ≡ before ++ record e { value = v } ∷ after
      pub erased : erase c ≡ before ++ after

    pub first-FirstAt :
        (c : List (Entry V)) (i j : ℕ) (e : Entry V) → first i c ≡ some (j, e) → FirstAt c i j e
    first-FirstAt [] i j e h = ground arith
    first-FirstAt (x ∷ c) i j e h = elim (Bool-cases (t x.key)) [
      | inl hit ↦
          let here : x ≡ e = ground arith in
          let start : i ≡ j = ground arith in
          record {
            before = [];
            after = c;
            split = rw here;
            index = omega arith;
            hit = rw (← here) hit;
            found = rw (hit, here);
            assigned = λ v. rw (hit, here);
            erased = rw hit;
          }
      | inr miss ↦
          let f = first-FirstAt c (i + 1) j e (ground arith) in
          let index = f.index in
          record {
            before = x ∷ f.before;
            after = f.after;
            split = ap (λ l. x ∷ l) f.split;
            index = omega arith;
            hit = f.hit;
            found = rw miss f.found;
            assigned = λ v. rw miss (ap (λ l. x ∷ l) (f.assigned v));
            erased = rw miss (ap (λ l. x ∷ l) f.erased);
          }
    ]

    pub first-none : (c : List (Entry V)) (i : ℕ) → first i c ≡ none → lookup c ≡ none
    first-none [] i h = refl
    first-none (x ∷ c) i h = ground (arith, first-none c (i + 1))

    pub first_nil : (i : ℕ) (c : List (Entry V)) → length c ≡ 0 → first i c ≡ none
    first_nil i [] e = refl
    first_nil i (x ∷ c) e = absurd (omega arith)
