-- ===== src/Examples/Vec.antt =====
-- Runs of the vector.
use vlib.Base.{ℕ, ◌≡◌, refl, [], ◌∷◌, some, none, true, false, ok, Returns, success, failure, arith}
use vlib.Vec.{Vec, vec_push, vec_remove_at, vec_find, vec_free}
use vlib.Vec.Find.{FirstMatch, vec_find-FirstMatch}
use vlib.Vec.Iter.{advance, vec_iter_new, vec_iter_walks}
use vlib.Vec.Contents.{contents, IsValid, Pushes, Removes, vec_push-Pushes, vec_remove_at-Removes}
use vlib.Examples.Numbers.{nat_cmp}

abbrev full : Vec ℕ
full = record { len = 2; cap = 2; data_size = 8; slots = 5 ∷ 7 ∷ [] }

abbrev three : Vec ℕ
three = record { len = 3; cap = 4; data_size = 8; slots = 5 ∷ 7 ∷ 9 ∷ 0 ∷ [] }

abbrev empty : Vec ℕ
empty = record { len = 0; cap = 2; data_size = 8; slots = 0 ∷ 0 ∷ [] }

full-IsValid : IsValid full
full-IsValid = omega arith

three-IsValid : IsValid three
three-IsValid = omega arith

push_grows : vec_push 0 true full 9 ≡ ok (success, three)
unfolding vec_push
push_grows = refl

push_refused : vec_push 0 false full 9 ≡ ok (failure, full)
unfolding vec_push
push_refused = refl

remove_inner_run :
    vec_remove_at 0 three 0 ≡ ok (some 5, record three { len = 2; slots = 7 ∷ 9 ∷ 0 ∷ 0 ∷ [] })
unfolding vec_remove_at
remove_inner_run = refl

find_run : vec_find nat_cmp three 7 ≡ ok (some (1, 7))
unfolding vec_find
find_run = refl

free_run : vec_free true three ≡ ok (5 ∷ 7 ∷ 9 ∷ [])
unfolding vec_free
free_run = refl

vec_push-Pushes_example : Returns (Pushes true full 9) (vec_push 0 true full 9)
vec_push-Pushes_example = vec_push-Pushes 0 true full 9 full-IsValid (omega arith)

vec_remove_at-Removes_example : Returns (Removes three 1) (vec_remove_at 0 three 1)
vec_remove_at-Removes_example = vec_remove_at-Removes 0 three 1 three-IsValid

vec_find-FirstMatch_example :
    Returns (FirstMatch nat_cmp 7 (contents three)) (vec_find nat_cmp three 7)
vec_find-FirstMatch_example = vec_find-FirstMatch nat_cmp 7 0 three three-IsValid

vec_iter_walks_example : (advance 2 (vec_iter_new three)).cur ≡ some 2
vec_iter_walks_example = vec_iter_walks three three-IsValid 2 (omega arith)

iter_end_run : (advance 3 (vec_iter_new three)).cur ≡ none
unfolding vec_iter_new
iter_end_run = refl

-- past the last slot of an empty vector
iter_empty_run : (advance 5 (vec_iter_new empty)).cur ≡ some 5
unfolding vec_iter_new
iter_empty_run = refl
