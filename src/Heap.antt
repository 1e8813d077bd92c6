-- ===== src/Heap.antt =====
-- The nodes that src/queue.c and src/list.c keep on the heap, as the log of the writes to them.
-- malloc comes from outside: it is a parameter that may refuse any request.
pub mod Lines
use vlib.Base.{
  ℕ, ◌+◌, List, [], ◌∷◌, ◌≡◌, ◌≢◌, refl, Option, none, some, false, Run, ok, fault, from_option,
  arith, ◌==◌, if◌then◌else◌,
}

abbrev pub Ptr : Type 0
Ptr = ℕ

abbrev pub null : Ptr
null = 0

abbrev pub Cells {ℓ} : Type ℓ → Type ℓ
Cells N = List (Ptr × Option N)

-- what is at an address: the last write there, or nothing
abbrev pub find {ℓ} : {N : Type ℓ} → Cells N → Ptr → Option N
find [] a = none
find ((p, n) ∷ c) a = if a == p then n else find c a

-- the nodes in use, and the number of requests so far
pub record Heap {ℓ} (N : Type ℓ) : Type ℓ where
  pub cells : Cells N
  pub requests : ℕ

-- The answer to a request depends on how many there were and on what is in use.
abbrev pub Malloc {ℓ} : Type ℓ → Type ℓ
Malloc N = ℕ → Cells N → Option Ptr

-- malloc hands out unused addresses
abbrev pub IsMalloc {ℓ} : {N : Type ℓ} → Malloc N → Type ℓ
IsMalloc {N} malloc =
    (n : ℕ) (c : Cells N) (p : Ptr) → malloc n c ≡ some p → (p ≢ null) × (find c p ≡ none)

-- malloc refuses no request
abbrev pub Grants {ℓ} : {N : Type ℓ} → Malloc N → Type ℓ
Grants {N} malloc = (n : ℕ) (c : Cells N) → malloc n c ≢ none

module _ {ℓ} {N : Type ℓ} where
  abbrev pub write : Cells N → Ptr → Option N → Cells N
  write c p n = (p, n) ∷ c

  -- a read through a pointer: a fault at the null pointer and where there is no node
  unfoldable pub deref : Heap N → Ptr → Run N
  deref h p = if p == null then fault else from_option (find h.cells p)

  unfoldable pub put : Heap N → Ptr → N → Heap N
  put h p n = record h { cells = write h.cells p (some n) }

  unfoldable pub release : Heap N → Ptr → Heap N
  release h p = record h { cells = write h.cells p none }

  -- a request for a node that gets the contents `n`
  unfoldable pub allocate : Malloc N → Heap N → N → Option Ptr × Heap N
  unfolding put
  allocate malloc h n =
      let asked = record h { requests = h.requests + 1 } in
      elim (malloc h.requests h.cells) [ none ↦ (none, asked) | some p ↦ (some p, put asked p n) ]

  pub deref-ok :
      (h : Heap N) (p : Ptr) (n : N) → p ≢ null → find h.cells p ≡ some n → deref h p ≡ ok n
  unfolding deref
  deref-ok h p n nonnull e = let there : (p == null) ≡ false = ground arith in rw (there, e)

  module _ (malloc : Malloc N) (h : Heap N) (n : N) where
    abbrev pub asked : Heap N
    asked = record h { requests = h.requests + 1 }

    pub allocate-none : malloc h.requests h.cells ≡ none → allocate malloc h n ≡ (none, asked)
    unfolding allocate
    allocate-none e = rw (e, allocate) refl

    pub allocate-some :
        (p : Ptr)
        → malloc h.requests h.cells ≡ some p
        → allocate malloc h n ≡ (some p, put asked p n)
    unfolding allocate
    allocate-some p e = rw (e, allocate) refl
