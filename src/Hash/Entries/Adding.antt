-- ===== src/Hash/Entries/Adding.antt =====
-- An insertion into one bucket adds the entry at the end, unless the key is there or memory is missing.
use vlib.Base.{
  if◌then◌else◌, ◌<◌, ℕ, ◌-◌, ◌*◌, ◌≡◌, ◌⊎◌, refl, ap, List, [], ◌∷◌, ◌++◌, Option, none, some,
  Bool, true, false, Bool-cases, Option-cases, inl, inr, Returns, returns, success, arith,
  length-replicate, ◌==◌, take, take-append_whole, replicate,
}
use vlib.Hash.{
  Key, Entry, Bucket, Memory, Insertion, added, refused, present, ht_init_bucket, ht_realloc_bucket,
  add_entry, add_with_room, bucket_insert,
}
use vlib.Hash.Entries.{first_nil, pointers, length-pointers, Holds, first, find_entry-first}
use vlib.Hash.Entries.Removal.{place-Holds}

module _ {ℓ} {V : Type ℓ} (taken : Key → Bool) (entry : Entry V) where
  -- What an insertion into a bucket with the entries `c` does; the first two arguments tell whether
  -- there is memory for the bucket and for the entry.
  abbrev pub Inserted : Bool → Bool → List (Entry V) → Insertion V → Type ℓ
  Inserted bg eg c (added w) = Holds w (c ++ entry ∷ []) × (first taken 0 c ≡ none)
  Inserted bg eg c (refused w) =
      Holds w c × (first taken 0 c ≡ none) × ((bg ≡ false) ⊎ (eg ≡ false))
  Inserted bg eg c (present i cur) = first taken 0 c ≡ some (i, cur)

  add_entry-Inserted :
      (bg eg : Bool) (b : Bucket V) (c : List (Entry V)) (at : ℕ)
      → Holds b c
      → at ≡ b.len
      → b.len < b.cap
      → first taken 0 c ≡ none
      → Returns (Inserted bg eg c) (add_entry eg b at entry)
  unfolding add_entry
  add_entry-Inserted bg true b c at h e room absent =
      let (w, run, hw) = place-Holds b c entry h room in rw (e, run) (returns (hw, absent))
  add_entry-Inserted bg false b c at h e room absent = returns (h, absent, inr refl)

  -- a bucket without an array is empty, and gets one
  init-Inserted :
      (bg eg : Bool) (b : Bucket V) (c : List (Entry V))
      → Holds b c
      → b.cap ≡ 0
      → Returns (Inserted bg eg c) (add_with_room eg 0 entry (ht_init_bucket bg b))
  unfolding add_with_room ht_init_bucket
  init-Inserted true eg b [] h none_yet =
      let counted = h.counted in
      let fresh : Bucket V = record b { cap = 2; entries = none ∷ none ∷ [] } in
      let start : Holds fresh [] = record {
        behind = none ∷ none ∷ [];
        layout = refl;
        counted = counted;
        roomy = refl;
      } in
      add_entry-Inserted true eg fresh [] 0 start (omega arith) (omega arith) refl
  init-Inserted false eg b [] h none_yet = returns (h, refl, inl refl)
  init-Inserted bg eg b (e ∷ c) h none_yet = let roomy = h.roomy in absurd (omega arith)

  grown-Holds :
      (b : Bucket V) (c : List (Entry V))
      → Holds b c
      → Holds
          (record b {
            cap = b.cap * 2;
            entries = take b.len b.entries ++ replicate (b.cap * 2 - b.len) none;
          })
          c
  grown-Holds b c h =
      let counted = h.counted in
      let roomy = h.roomy in
      let size = length-pointers c in
      record {
        behind = replicate (b.cap * 2 - b.len) none;
        layout =
            ap (λ l. l ++ replicate (b.cap * 2 - b.len) none)
              (rw h.layout (take-append_whole b.len (pointers c) h.behind (omega arith)));
        counted = counted;
        roomy =
            rw (length-replicate (b.cap * 2 - b.len) (let p : Option (Entry V) = none in p))
              (omega arith);
      }

  realloc-Inserted :
      (bg eg : Bool) (b : Bucket V) (c : List (Entry V))
      → Holds b c
      → b.len ≡ b.cap
      → 0 < b.cap
      → first taken 0 c ≡ none
      → Returns (Inserted bg eg c) (add_with_room eg b.len entry (ht_realloc_bucket bg b))
  unfolding add_with_room ht_realloc_bucket
  realloc-Inserted true eg b c h full pos absent =
      add_entry-Inserted true eg _ c b.len (grown-Holds b c h) refl (omega arith) absent
  realloc-Inserted false eg b c h full pos absent = returns (h, absent, inl refl)

  grown-Inserted :
      (bg eg : Bool) (b : Bucket V) (c : List (Entry V))
      → Holds b c
      → 0 < b.cap
      → first taken 0 c ≡ none
      → Returns (Inserted bg eg c) (
          add_with_room eg b.len entry
            (if b.len == b.cap then ht_realloc_bucket bg b else (success, b)))
  unfolding add_with_room ht_realloc_bucket
  grown-Inserted bg eg b c h pos absent =
      let counted = h.counted in
      let roomy = h.roomy in
      elim (Bool-cases (b.len == b.cap)) [
        | inr free ↦ rw free (add_entry-Inserted bg eg b c b.len h refl (ground arith) absent)
        | inl full ↦ rw full (realloc-Inserted bg eg b c h (ground arith) pos absent)
      ]

  pub bucket_insert-Inserted :
      (m : Memory) (b : Bucket V) (c : List (Entry V))
      → Holds b c
      → Returns (Inserted m.bucket m.entry c) (bucket_insert m taken entry b)
  unfolding bucket_insert
  bucket_insert-Inserted m b c h =
      let counted = h.counted in
      let roomy = h.roomy in
      elim (Bool-cases (b.cap == 0)) [
        | inl none_yet ↦ rw none_yet (init-Inserted m.bucket m.entry b c h (ground arith))
        | inr some_cap ↦ elim (Bool-cases (b.len == 0)) [
          | inl empty ↦
              let none_there : first taken 0 c ≡ none = first_nil taken 0 c (ground arith) in
              rw (some_cap, empty)
                (add_entry-Inserted m.bucket m.entry b c 0 h (ground arith) (ground arith)
                  none_there)
          | inr filled ↦
              rw (some_cap, filled, find_entry-first taken b c h)
                (elim (Option-cases (first taken 0 c)) [
                  | inl absent ↦
                      rw absent (grown-Inserted m.bucket m.entry b c h (ground arith) absent)
                  | inr ((i, cur), found) ↦ rw found (returns found)
                ])
        ]
      ]
