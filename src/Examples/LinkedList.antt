-- ===== src/Examples/LinkedList.antt =====
-- Runs of the doubly linked list, and the theorems about it at a list of two elements.
use vlib.Base.{ℕ, ◌≡◌, refl, [], ◌∷◌, Option, none, some, ok, fault, ◌>>=◌, arith}
use vlib.Heap.{Malloc}
use vlib.LinkedList.{
  LinkedList, list_new, list_append, list_prepend, list_insert_at, list_get, list_remove,
  list_remove_at,
}
use vlib.LinkedList.Contents.{IsList}
use vlib.LinkedList.Growth.{Grows, list_append-list_prepend}
use vlib.LinkedList.Positions.{Reaches, list_get-list_remove_at}
use vlib.LinkedList.Search.{RemovesFirst, list_remove-RemovesFirst}
use vlib.Examples.Numbers.{nat_cmp}
use vlib.Examples.Malloc.{no_nodes, counting, counting-IsMalloc}

abbrev two : LinkedList ℕ
two = record {
  head = 4;
  tail = 5;
  data_size = 8;
  len = 2;
  heap = record {
    cells =
        (4, some (record { prev = 0; next = 5; value = 7 }))
        ∷ (5, some (record { prev = 4; next = 0; value = 8 }))
        ∷ [];
    requests = 2;
  };
}

two-IsList : IsList two (7 ∷ 8 ∷ [])
two-IsList = record {
  line = (4, 7) ∷ (5, 8) ∷ [];
  linked = (ground arith, refl, refl, (ground arith, refl, refl, tt));
  counted = refl;
  elements = refl;
  starts = refl;
  ends = refl;
}

abbrev refusing {ℓ} : {N : Type ℓ} → Malloc N
refusing n c = none

list_run :
    (list_append counting (list_new no_nodes 8) 1 >>= λ (s, l).
    list_append counting l 2 >>= λ (s, l). list_prepend counting l 3 >>= λ (s, l).
    list_append counting l 4 >>= λ (s, l). list_remove nat_cmp l 1 >>= λ (a, l).
    list_remove_at l 2 >>= λ (b, l).
    list_get l 1 >>= λ c. ok (let out : Option ℕ × Option ℕ × Option ℕ = (a, b, c) in out))
    ≡ ok (some 1, some 4, some 2)
unfolding list_new list_append list_prepend list_remove list_remove_at list_get
list_run = refl

-- The element that is inserted between two others is not in the list, and the list ends too early.
insert_inner_run :
    (list_insert_at counting two 9 1 >>= λ (s, l).
    list_get l 1 >>= λ a. ok (let out : ℕ × Option ℕ = (l.len, a) in out))
    ≡ ok (3, some 8)
unfolding list_insert_at list_get
insert_inner_run = refl

insert_inner_end_run : (list_insert_at counting two 9 1 >>= λ (s, l). list_get l 2) ≡ fault
unfolding list_insert_at list_get
insert_inner_end_run = refl

-- node_new writes to what malloc returned before the test
refused_run : list_append refusing two 9 ≡ fault
unfolding list_append
refused_run = refl

list_append-list_prepend_example :
    Grows counting two (7 ∷ 8 ∷ 9 ∷ []) (list_append counting two 9)
    × Grows counting two (9 ∷ 7 ∷ 8 ∷ []) (list_prepend counting two 9)
list_append-list_prepend_example =
    list_append-list_prepend counting counting-IsMalloc two (7 ∷ 8 ∷ []) two-IsList 9

list_get-list_remove_at_example : Reaches two (7 ∷ 8 ∷ []) 1
list_get-list_remove_at_example = list_get-list_remove_at two (7 ∷ 8 ∷ []) 1 two-IsList

list_remove-RemovesFirst_example :
    RemovesFirst nat_cmp 8 two (7 ∷ 8 ∷ []) (list_remove nat_cmp two 8)
list_remove-RemovesFirst_example = list_remove-RemovesFirst nat_cmp 8 two (7 ∷ 8 ∷ []) two-IsList
