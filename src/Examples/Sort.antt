-- ===== src/Examples/Sort.antt =====
-- Runs of the search and of the sorts.
use vlib.Base.{
  ℕ, ◌≡◌, refl, List, [], ◌∷◌, true, ok, fault, aborted, Returns, success, failure, arith, false,
}
use vlib.Search.{binary_search}
use vlib.Search.Finds.{Finds, binary_search-Finds}
use vlib.Sort.Order.{Sorts, IsBelow-at, IsOrdered-IsSorted}
use vlib.Sort.Bubble.{bubble_sort}
use vlib.Sort.Bubble.Sorts.{bubble_sort-Sorts}
use vlib.Sort.Insertion.{insertion_sort}
use vlib.Sort.Insertion.Sorts.{insertion_sort-Sorts, insertion_sort-fault}
use vlib.Sort.Merge.{merge_sort}
use vlib.Sort.Merge.Sorts.{merge_sort-Sorts}
use vlib.Sort.Quick.{quick_sort}
use vlib.Sort.Quick.Sorts.{quick_sort-Sorts}
use vlib.Examples.Numbers.{nat_cmp, nat_cmp-IsCmp}

abbrev table : List ℕ
table = 2 ∷ 3 ∷ 8 ∷ 13 ∷ 21 ∷ []

abbrev mixed : List ℕ
mixed = 8 ∷ 3 ∷ 21 ∷ 2 ∷ 13 ∷ 3 ∷ []

search_hit : binary_search nat_cmp table 13 5 ≡ ok success
unfolding binary_search
search_hit = refl

search_miss : binary_search nat_cmp table 9 5 ≡ ok failure
unfolding binary_search
search_miss = refl

bubble_run : bubble_sort nat_cmp mixed 6 ≡ ok (2 ∷ 3 ∷ 3 ∷ 8 ∷ 13 ∷ 21 ∷ [])
unfolding bubble_sort
bubble_run = refl

quick_run : quick_sort nat_cmp mixed 6 ≡ ok (2 ∷ 3 ∷ 3 ∷ 8 ∷ 13 ∷ 21 ∷ [])
unfolding quick_sort
quick_run = refl

merge_run : merge_sort nat_cmp 0 true mixed 6 ≡ ok (2 ∷ 3 ∷ 3 ∷ 8 ∷ 13 ∷ 21 ∷ [])
unfolding merge_sort
merge_run = refl

-- the length 0 wraps, and the comparison at the end of the recursion reads outside the array
merge_run_empty : merge_sort nat_cmp 0 true [] 0 ≡ fault
unfolding merge_sort
merge_run_empty = refl

insertion_run : insertion_sort nat_cmp true (2 ∷ 8 ∷ 3 ∷ 5 ∷ []) 4 ≡ ok (2 ∷ 3 ∷ 5 ∷ 8 ∷ [])
unfolding insertion_sort
insertion_run = refl

-- an element less than the first one
insertion_fault_run : insertion_sort nat_cmp true (3 ∷ 1 ∷ []) 2 ≡ fault
unfolding insertion_sort
insertion_fault_run = refl

binary_search-Finds_example : Returns (Finds nat_cmp table 13) (binary_search nat_cmp table 13 5)
binary_search-Finds_example =
    binary_search-Finds nat_cmp table 13 nat_cmp-IsCmp
      (IsOrdered-IsSorted nat_cmp table (ground arith)) (omega arith)

bubble_sort-Sorts_example : Returns (Sorts nat_cmp mixed) (bubble_sort nat_cmp mixed 6)
bubble_sort-Sorts_example = bubble_sort-Sorts nat_cmp nat_cmp-IsCmp mixed

quick_sort-Sorts_example : Returns (Sorts nat_cmp mixed) (quick_sort nat_cmp mixed 6)
quick_sort-Sorts_example = quick_sort-Sorts nat_cmp nat_cmp-IsCmp mixed

insertion_sort-Sorts_example :
    Returns (Sorts nat_cmp (2 ∷ 8 ∷ 3 ∷ [])) (insertion_sort nat_cmp true (2 ∷ 8 ∷ 3 ∷ []) 3)
insertion_sort-Sorts_example =
    insertion_sort-Sorts nat_cmp nat_cmp-IsCmp 2 (8 ∷ 3 ∷ []) (omega arith)
      (IsBelow-at nat_cmp 2 (8 ∷ 3 ∷ []) (ground arith))

insertion_sort-fault_example : insertion_sort nat_cmp true (4 ∷ 8 ∷ 3 ∷ []) 3 ≡ fault
insertion_sort-fault_example =
    insertion_sort-fault nat_cmp nat_cmp-IsCmp 4 (8 ∷ 3 ∷ []) 1 3 (omega arith) refl refl

merge_sort-Sorts_example :
    (merge_sort nat_cmp 0 false mixed 6 ≡ aborted)
    × Returns (Sorts nat_cmp mixed) (merge_sort nat_cmp 0 true mixed 6)
merge_sort-Sorts_example =
    merge_sort-Sorts nat_cmp nat_cmp-IsCmp 0 mixed (omega arith) (omega arith)
