-- ===== src/Examples/PriorityQueue.antt =====
-- Runs of the priority queue.
use vlib.Base.{ℕ, zero, suc, ◌≡◌, refl, [], ◌∷◌, some, true, ok, ◌>>=◌, Returns, success, arith}
use vlib.PriorityQueue.{Pq, pq_insert, pq_delete, pq_free}
use vlib.PriorityQueue.Heap.{IsHeap}
use vlib.PriorityQueue.Insert.{IsQueue, Inserts, pq_insert-Inserts}
use vlib.PriorityQueue.Delete.{Takes, pq_delete-Takes}
use vlib.Examples.Numbers.{nat_cmp, nat_cmp-IsCmp}

abbrev two : Pq ℕ
two = record { len = 2; cap = 2; data_size = 8; slots = 5 ∷ 7 ∷ [] }

abbrev three : Pq ℕ
three = record { len = 3; cap = 4; data_size = 8; slots = 1 ∷ 7 ∷ 5 ∷ 0 ∷ [] }

insert_grows : pq_insert 0 true nat_cmp two 1 ≡ ok (success, three)
unfolding pq_insert
insert_grows = refl

delete_run :
    pq_delete 0 nat_cmp three ≡ ok (some 1, record three { len = 2; slots = 5 ∷ 7 ∷ 0 ∷ 0 ∷ [] })
unfolding pq_delete
delete_run = refl

pq_free_run : pq_free true two ≡ ok (5 ∷ 7 ∷ [])
unfolding pq_free
pq_free_run = refl

two-IsHeap : IsHeap nat_cmp (5 ∷ 7 ∷ [])
two-IsHeap zero x y pos e f = absurd (omega arith)
two-IsHeap (suc zero) x y pos e f = ground arith
two-IsHeap (suc (suc i)) x y pos e f = ground arith

two-IsQueue : IsQueue nat_cmp two
two-IsQueue = (omega arith, two-IsHeap)

pq_insert-Inserts_example : Returns (Inserts true nat_cmp two 1) (pq_insert 0 true nat_cmp two 1)
pq_insert-Inserts_example =
    pq_insert-Inserts 0 true nat_cmp two 1 nat_cmp-IsCmp two-IsQueue (omega arith)

pq_delete-Takes_example : Returns (Takes nat_cmp two) (pq_delete 0 nat_cmp two)
pq_delete-Takes_example = pq_delete-Takes nat_cmp 0 two nat_cmp-IsCmp two-IsQueue (omega arith)

-- The second of three elements is less than the third: the second call returns the third one.
delete_twice_run :
    (pq_delete 0 nat_cmp (record { len = 3; cap = 4; data_size = 8; slots = 1 ∷ 5 ∷ 7 ∷ 0 ∷ [] })
      >>= λ (out, p). pq_delete 0 nat_cmp p)
    ≡ ok (some 7, record { len = 1; cap = 4; data_size = 8; slots = 5 ∷ 0 ∷ 0 ∷ 0 ∷ [] })
unfolding pq_delete
delete_twice_run = refl
