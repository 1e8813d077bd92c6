-- ===== src/Examples/SmallVec.antt =====
-- Runs of the small vector, and the theorem about it at a vector of two elements.
use vlib.Base.{ℕ, ◌≡◌, refl, [], ◌∷◌, Option, some, ok, ◌>>=◌, Returns, arith}
use vlib.SmallVec.{SmallVec, small_vec_init, small_vec_push, small_vec_pop, small_vec_remove_at}
use vlib.SmallVec.Contents.{IsValid, Pushes, Pops, Removes, small_vec_operations}

abbrev pair : SmallVec ℕ
pair = record { len = 2; cap = 3; slots = 7 ∷ 8 ∷ 0 ∷ [] }

pair-IsValid : IsValid pair
pair-IsValid = record { room = refl; bounded = omega arith }

small_vec_run :
    (small_vec_push (small_vec_init 0 2) 5 >>= λ (s, v). small_vec_push v 6 >>= λ (s, v).
    small_vec_push v 7 >>= λ (s, v). small_vec_remove_at 0 v 0 >>= λ (a, v).
    small_vec_pop 0 v >>= λ (b, v).
    ok (let out : Option ℕ × Option ℕ × SmallVec ℕ = (a, b, v) in out))
    ≡ ok (some 5, some 6, record { len = 0; cap = 2; slots = 0 ∷ 0 ∷ [] })
unfolding small_vec_init small_vec_push small_vec_pop small_vec_remove_at
small_vec_run = refl

small_vec_operations_example :
    Returns (Pushes pair 9) (small_vec_push pair 9)
    × Returns (Pops pair) (small_vec_pop 0 pair)
    × Returns (Removes pair 0) (small_vec_remove_at 0 pair 0)
small_vec_operations_example = small_vec_operations 0 pair 9 0 pair-IsValid
