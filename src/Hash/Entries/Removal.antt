-- ===== src/Hash/Entries/Removal.antt =====
-- Writing to the entry that a search found, adding an entry and removing one, on one bucket.
use mathlib.Core.List.{append_assoc}
use vlib.Base.{
  ◌<◌, ℕ, zero, suc, ◌+◌, ◌-◌, ◌≡◌, refl, sym, ap, ◌∙◌, List, [], ◌∷◌, ◌++◌, Option, none, some,
  Bool, true, Bool-cases, inl, inr, ok, Returns, returns, arith, length, length-append, drop, ◌==◌,
  leb, take-append_whole,
}
use vlib.Array.{load, store, memmove}
use vlib.Hash.{Key, Entry, Bucket, ht_bucket_remove, ht_entry_free, place}
use vlib.Hash.Entries.{
  store_middle, pointers, length-pointers, pointers-append, Holds, FirstAt, load-drop, erase,
  assign,
}

module _ {ℓ} {A : Type ℓ} where
  drop_past : (n m : ℕ) (xs ys : List A) → n ≡ length xs + m → drop n (xs ++ ys) ≡ drop m ys
  drop_past n m [] ys e = let same : n ≡ m = omega arith in rw same
  drop_past zero m (x ∷ xs) ys e = absurd (omega arith)
  drop_past (suc n) m (x ∷ xs) ys e = drop_past n m xs ys (omega arith)

  -- the last element of a list, in front of what follows the list
  last : A → List A → A
  last y [] = y
  last y (z ∷ zs) = last z zs

  drop-last : (y : A) (zs ws : List A) → drop (length zs) (y ∷ zs ++ ws) ≡ last y zs ∷ ws
  unfolding last
  drop-last y [] ws = refl
  drop-last y (z ∷ zs) ws = drop-last z zs ws

  -- `memmove` over one element, and the last slot then cleared
  memmove_over :
      (xs : List A) (y : A) (zs ws : List A) (n : ℕ)
      → n ≡ length xs + length zs
      → (memmove (xs ++ y ∷ (zs ++ ws)) (length xs) (length xs + 1) (n - length xs))
        ≡ ok (xs ++ (zs ++ last y zs ∷ ws))
  unfolding memmove
  memmove_over xs y zs ws n e =
      let moved = n - length xs in
      let es = xs ++ y ∷ (zs ++ ws) in
      let size = length-append xs (y ∷ (zs ++ ws)) in
      let size' = length-append zs ws in
      let to : leb (length xs + moved) (length es) ≡ true = ground arith in
      let from : leb (length xs + 1 + moved) (length es) ≡ true = ground arith in
      rw (
        to,
        from,
        take-append_whole (length xs) xs (y ∷ (zs ++ ws)) refl,
        drop_past (length xs + 1) 1 xs (y ∷ (zs ++ ws)) refl,
        take-append_whole moved zs ws (omega arith),
        drop_past (length xs + moved) (length zs) xs (y ∷ (zs ++ ws)) (omega arith),
        drop-last y zs ws,
      )

module _ {ℓ} {V : Type ℓ} where
  around_entry :
      (before : List (Entry V)) (e : Entry V) (after : List (Entry V))
      (behind : List (Option (Entry V)))
      → pointers (before ++ e ∷ after) ++ behind
        ≡ pointers before ++ some e ∷ (pointers after ++ behind)
  around_entry before e after behind =
      rw (pointers-append before (e ∷ after))
        (append_assoc (pointers before) (some e ∷ pointers after) behind)

  -- the slots around the entry that a search found
  FirstAt-layout :
      (t : Key → Bool) (b : Bucket V) (c : List (Entry V)) (j : ℕ) (e : Entry V) (h : Holds b c)
      (f : FirstAt t c 0 j e)
      → b.entries ≡ pointers f.before ++ some e ∷ (pointers f.after ++ h.behind)
  FirstAt-layout t b c j e h f =
      h.layout ∙ ap (λ l. pointers l ++ h.behind) f.split ∙ around_entry f.before e f.after h.behind

  place_room :
      (b : Bucket V) (c : List (Entry V)) (e : Entry V) (behind : List (Option (Entry V)))
      → b.entries ≡ pointers c ++ behind
      → b.len ≡ length c
      → b.cap ≡ length c + length behind
      → b.len < b.cap
      → Returns (λ w. Holds w (c ++ e ∷ [])) (place b b.len e)
  unfolding place
  place_room b c e [] layout counted roomy room = absurd (omega arith)
  place_room b c e (x ∷ xs) layout counted roomy room =
      let put = store_middle b.len (pointers c) xs x (some e) (omega (arith, length-pointers c)) in
      rw (layout, put)
        (returns (record {
          behind = xs;
          layout = sym (around_entry c e [] xs);
          counted = omega (arith, length-append c (e ∷ []));
          roomy = omega (arith, length-append c (e ∷ []));
        }))

  -- a new entry behind the others, where there is room
  pub place-Holds :
      (b : Bucket V) (c : List (Entry V)) (e : Entry V)
      → Holds b c
      → b.len < b.cap
      → Returns (λ w. Holds w (c ++ e ∷ [])) (place b b.len e)
  place-Holds b c e h room = place_room b c e h.behind h.layout h.counted h.roomy room

  -- the value of the entry that a search found is replaced
  pub assign-Holds :
      (t : Key → Bool) (b : Bucket V) (c : List (Entry V)) (j : ℕ) (e : Entry V) (v : V)
      → Holds b c
      → FirstAt t c 0 j e
      → Returns
          (λ es. Holds (record b { entries = es }) (assign t v c))
          (store b.entries j (some (record e { value = v })))
  assign-Holds t b c j e v h f =
      let new = record e { value = v } in
      let counted = h.counted in
      let roomy = h.roomy in
      let index = f.index in
      let size = length-append f.before (e ∷ f.after) in
      let size' = length-append f.before (new ∷ f.after) in
      let old_size = ap length f.split in
      let new_size = ap length (f.assigned v) in
      (
        pointers f.before ++ some new ∷ (pointers f.after ++ h.behind),
        ap (λ es. store es j (some new)) (FirstAt-layout t b c j e h f)
            ∙ store_middle j (pointers f.before) (pointers f.after ++ h.behind) (some e) (some new)
                (omega (arith, length-pointers f.before)),
        record {
          behind = h.behind;
          layout = rw (f.assigned v) (sym (around_entry f.before new f.after h.behind));
          counted = omega arith;
          roomy = omega arith;
        },
      )

  both_nil : (xs ys : List (Entry V)) → length xs + length ys ≡ 0 → (xs ≡ []) × (ys ≡ [])
  both_nil [] [] h = (refl, refl)
  both_nil [] (y ∷ ys) h = absurd (omega arith)
  both_nil (x ∷ xs) ys h = absurd (omega arith)

  -- the slots once the entry between the two lists is removed
  abbrev cleared :
      List (Entry V) → List (Entry V) → List (Option (Entry V)) → List (Option (Entry V))
  cleared before after behind = (pointers before ++ pointers after) ++ none ∷ behind

  -- the entry that a search found is taken out, and its parts are freed
  pub remove-Holds :
      (t : Key → Bool) (free_key free_val : Bool) (b : Bucket V) (c : List (Entry V)) (j : ℕ)
      (e : Entry V)
      → Holds b c
      → FirstAt t c 0 j e
      → Returns
          (λ (freed, w). (freed ≡ ht_entry_free free_key free_val e) × Holds w (erase t c))
          (ht_bucket_remove free_key free_val b j)
  unfolding ht_bucket_remove
  remove-Holds t free_key free_val b c j e h f =
      let counted = h.counted in
      let roomy = h.roomy in
      let index = f.index in
      let shape = FirstAt-layout t b c j e h f in
      let at = length-pointers f.before in
      let reads : load b.entries j ≡ ok (some e) =
        ap (λ es. load es j) shape
        ∙ (load-drop j _ _ (some e) (
            drop_past j 0 (pointers f.before) (some e ∷ (pointers f.after ++ h.behind))
              (omega arith))).0 in
      let split = ap length f.split in
      let size = length-append f.before (e ∷ f.after) in
      let left = length-append f.before f.after in
      let front = length-append (pointers f.before) (pointers f.after) in
      let at' = length-pointers f.after in
      let holds : Holds (record b { len = b.len - 1; entries = cleared f.before f.after h.behind })
          (erase t c) =
        record {
          behind = none ∷ h.behind;
          layout = rw (f.erased, pointers-append f.before f.after);
          counted = omega (arith, ap length f.erased);
          roomy = omega (arith, ap length f.erased);
        } in
      rw reads (elim (Bool-cases (b.len - 1 == 0)) [
        | inl only ↦
            rw only
              let (none_before, none_after) = both_nil f.before f.after (ground arith) in
                let put : store b.entries 0 none ≡ ok (cleared f.before f.after h.behind) =
                  ap (λ es. store es 0 none) shape
                  ∙ store_middle 0 (pointers f.before) (pointers f.after ++ h.behind) (some e) none
                      (omega (arith, ap length none_before))
                  ∙ rw (none_before, none_after) refl in
                rw put (returns (refl, holds))
        | inr more ↦
            rw more
              let start : j ≡ length (pointers f.before) = omega arith in
                let over =
                  memmove_over (pointers f.before) (some e) (pointers f.after) h.behind (b.len - 1)
                    (omega arith) in
                let moved : memmove b.entries j (j + 1) (b.len - 1 - j)
                    ≡ ok (
                        pointers f.before
                        ++ (pointers f.after ++ last (some e) (pointers f.after) ∷ h.behind)) =
                  ap (λ es. memmove es j (j + 1) (b.len - 1 - j)) shape ∙ rw start over in
                rw
                  (
                    moved,
                    ← append_assoc (pointers f.before) (pointers f.after)
                        (last (some e) (pointers f.after) ∷ h.behind),
                    store_middle (b.len - 1) (pointers f.before ++ pointers f.after) h.behind
                        (last (some e) (pointers f.after)) none (omega arith),
                  )
                  (returns (refl, holds))
      ])
