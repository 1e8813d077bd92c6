-- ===== src/Examples/Hash.antt =====
-- Runs of the hash table and of the set, with the length of the key as hash.
use vlib.Base.{
  ℕ, ◌+◌, ◌≡◌, refl, List, [], ◌∷◌, Option, none, some, Bool, true, false, ok, ◌≤◌, zero, suc, ◌%◌,
  ◌>>=◌, Returns, Status, success, length, if◌then◌else◌, arith,
}
use mathlib.Core.List.{flatten}
use vlib.Hash.{bytes_equal, Key, Memory, is_found}
use vlib.Hash.Chains.{Chain, one_if}
use vlib.Hash.Places.{IsPlaced, view}
use vlib.Hash.Keys.{IsKeyed, bytes-IsKeyed}
use vlib.Hash.Table.{Ht, ht_get, ht_insert, ht_try_insert, ht_delete, ht_free}
use vlib.Hash.Table.Reads.{Models, ht_get-reads}
use vlib.Hash.Table.Writes.{Inserts, ht_insert-Inserts}
use vlib.Hash.Table.Tries.{TryInserts, ht_try_insert-TryInserts}
use vlib.Hash.Table.Deletes.{Deletes, ht_delete-Deletes}
use vlib.Hash.Table.Rounds.{ht_get-ht_insert}
use vlib.Hash.Members.{Set, NoValue, set_insert, set_delete}
use vlib.Hash.Members.Membership.{SetInserts, set_insert-SetInserts}
use vlib.Hash.Members.Removal.{SetDeletes, set_delete-SetDeletes}

abbrev hash_length : Key → List ℕ → ℕ
hash_length key seed = length key

abbrev enough : Memory
enough = record { table = true; bucket = true; entry = true; moved = λ i j. true }

abbrev no_entry : Memory
no_entry = record enough { entry = false }

abbrev red : Key
red = 114 ∷ []

abbrev blue : Key
blue = 98 ∷ []

-- a table of one bucket with one entry
abbrev one_entry {ℓ} : {V : Type ℓ} → V → Ht V
one_entry v = record {
  len = 1;
  cap = 1;
  data_size = 0;
  cmp_key = none;
  seed = [];
  buckets =
      record { len = 1; cap = 2; entries = some (record { key = red; value = v }) ∷ none ∷ [] }
      ∷ [];
}

-- the map that it stands for
abbrev only_red {ℓ} : {V : Type ℓ} → V → Key → Option V
only_red v q = if bytes_equal q red then some v else none

-- the entries of its bucket
abbrev red_chains {ℓ} : {V : Type ℓ} → V → List (Chain V)
red_chains v = (record { key = red; value = v } ∷ []) ∷ []

abbrev crowded : Ht ℕ
crowded = one_entry 7

-- the insertion resizes the array of buckets, but not the table
resize_run :
    (ht_insert hash_length enough true crowded (98 ∷ []) 9 >>= λ (s, ht, freed).
    ok (let r : Status × ℕ × ℕ = (s, ht.cap, length ht.buckets) in r))
    ≡ ok (success, 1, 2)
unfolding ht_insert bytes_equal
resize_run = refl

insert_twice_run :
    (ht_insert hash_length enough true crowded red 9 >>= λ (s, ht, freed).
    ht_get hash_length ht red >>= λ v.
    ok (let r : Status × ℕ × Option ℕ × Option ℕ = (s, ht.len, freed, v) in r))
    ≡ ok (success, 1, some 7, some 9)
unfolding ht_insert ht_get bytes_equal
insert_twice_run = refl

delete_run :
    (ht_delete hash_length true true crowded red >>= λ (s, ht, freed).
    ok (let r : Status × ℕ × Option (Option Key × Option ℕ) = (s, ht.len, freed) in r))
    ≡ ok (success, 0, some (some red, some 7))
unfolding ht_delete bytes_equal
delete_run = refl

free_run : ht_free true true crowded ≡ ok ((some red, some 7) ∷ [])
unfolding ht_free
free_run = refl

by_length : IsKeyed hash_length [] none
by_length = bytes-IsKeyed hash_length []

one_if_le : (b : Bool) → one_if b + 0 ≤ 1
one_if_le true = omega arith
one_if_le false = omega arith

red-IsPlaced {ℓ} : {V : Type ℓ} (v : V) → IsPlaced hash_length [] none 1 (red_chains v)
red-IsPlaced v q zero =
    let at_zero : length q % 1 ≡ 0 = omega arith in
    (one_if_le (bytes_equal q red), λ other. absurd (other at_zero))
red-IsPlaced v q (suc i) = (omega arith, λ _. refl)

red_read {ℓ} :
    {V : Type ℓ} (v : V) (q : Key) → view hash_length [] none 1 (red_chains v) q ≡ only_red v q
red_read v q = let at_zero : length q % 1 ≡ 0 = omega arith in rw at_zero refl

one_entry-Models {ℓ} : {V : Type ℓ} (v : V) → Models hash_length (only_red v) (one_entry v)
unfolding flatten
one_entry-Models v = record {
  chains = (record { key = red; value = v } ∷ []) ∷ [];
  backed = (record { behind = none ∷ []; layout = refl; counted = refl; roomy = refl }, tt);
  meant = record {
    width = refl;
    counted = refl;
    placed = red-IsPlaced v;
    reads = λ q. red_read v q;
  };
  some_cap = omega arith;
}

ht_get-reads_example : ht_get hash_length crowded red ≡ ok (some 7)
unfolding bytes_equal
ht_get-reads_example =
    ht_get-reads hash_length (only_red 7) crowded (one_entry-Models 7) red by_length

ht_insert-Inserts_example :
    Returns
      (Inserts hash_length enough true (only_red 7) crowded blue 9)
      (ht_insert hash_length enough true crowded blue 9)
ht_insert-Inserts_example =
    ht_insert-Inserts hash_length enough true (only_red 7) crowded blue 9 by_length
      (one_entry-Models 7)

ht_get-ht_insert_example :
    Returns
      (λ (s, w, freed).
        s ≡ success
        → (q : Key)
        → ht_get hash_length w q
          ≡ ok (if is_found crowded.cmp_key q red then some 9 else only_red 7 q))
      (ht_insert hash_length enough true crowded red 9)
ht_get-ht_insert_example =
    ht_get-ht_insert hash_length enough true (only_red 7) crowded red 9 by_length
      (one_entry-Models 7)

ht_try_insert-TryInserts_example :
    Returns
      (TryInserts hash_length no_entry (only_red 7) crowded blue 9)
      (ht_try_insert hash_length no_entry crowded blue 9)
ht_try_insert-TryInserts_example =
    ht_try_insert-TryInserts hash_length no_entry (only_red 7) crowded blue 9 by_length
      (one_entry-Models 7)

ht_delete-Deletes_example :
    Returns
      (Deletes hash_length true false (only_red 7) crowded red)
      (ht_delete hash_length true false crowded red)
ht_delete-Deletes_example =
    ht_delete-Deletes hash_length true false (only_red 7) crowded by_length (one_entry-Models 7) red

abbrev nothing : NoValue
nothing = tt

abbrev one_member : Set
one_member = record {
  len = 1;
  cap = 1;
  cmp_key = none;
  seed = [];
  buckets =
      record {
        len = 1;
        cap = 2;
        entries = some (record { key = red; value = nothing }) ∷ none ∷ [];
      }
      ∷ [];
}

set_insert-SetInserts_example :
    Returns
      (SetInserts hash_length enough (only_red nothing) one_member blue)
      (set_insert hash_length enough one_member blue)
set_insert-SetInserts_example =
    set_insert-SetInserts hash_length enough (only_red nothing) one_member blue by_length
      (one_entry-Models nothing)

set_delete-SetDeletes_example :
    Returns
      (SetDeletes hash_length true one_member (only_red nothing) red)
      (set_delete hash_length true one_member red)
set_delete-SetDeletes_example =
    set_delete-SetDeletes hash_length true one_member (only_red nothing) red by_length
      (one_entry-Models nothing)
