-- ===== src/Examples/Queue.antt =====
-- Runs of the queue and of the search that uses it, with a malloc that counts up.
use vlib.Base.{
  ℕ, ◌≡◌, refl, [], ◌∷◌, Option, none, some, true, ok, fault, ◌>>=◌, Returns, arith, false,
}
use vlib.Examples.Malloc.{no_nodes, counting, counting-IsMalloc, counting-Grants}
use vlib.Queue.{Queue, queue_new, queue_enque, queue_deque, queue_free, queue_peek}
use vlib.Queue.Contents.{IsQueue, Enqueues, Dequeues, queue_enque-Enqueues, queue_deque-Dequeues}
use vlib.BinaryTree.{BinaryTree, null, branch}
use vlib.BinaryTree.Bfs.{bt_bfs}
use vlib.BinaryTree.Bfs.Finds.{occurs, bt_bfs-occurs}
use vlib.Examples.Numbers.{nat_cmp}

abbrev single : Queue ℕ
single = record {
  len = 1;
  data_size = 8;
  head = 5;
  tail = 5;
  heap = record { cells = (5, some (record { next = none; value = 7 })) ∷ []; requests = 0 };
}

single-IsQueue : IsQueue single (7 ∷ [])
single-IsQueue = record {
  line = (5, 7) ∷ [];
  chained = (ground arith, (none, refl));
  counted = refl;
  elements = refl;
  starts = refl;
  ends = refl;
}

abbrev three : BinaryTree ℕ
three = record {
  num_el = 3;
  data_size = 8;
  root = branch (branch null 1 null) 2 (branch null 3 null);
}

queue_run :
    (queue_enque counting single 8 >>= λ (s, q). queue_enque counting q 9 >>= λ (t, r).
    queue_deque r >>= λ (a, u). queue_deque u >>= λ (b, w).
    queue_peek w >>= λ c. ok (let out : Option ℕ × Option ℕ × Option ℕ = (a, b, c) in out))
    ≡ ok (some 7, some 8, some 9)
unfolding queue_enque queue_deque queue_peek
queue_run = refl

bfs_run : bt_bfs counting nat_cmp 3 no_nodes three ≡ ok true
unfolding bt_bfs queue_new queue_enque queue_deque queue_free
bfs_run = refl

-- the pointer to the root is read without a test
bfs_run_empty :
    bt_bfs counting nat_cmp 3 no_nodes (record { num_el = 0; data_size = 8; root = null }) ≡ fault
unfolding bt_bfs queue_new queue_enque queue_deque
bfs_run_empty = refl

-- `head` and `tail` of a freed queue still point to its nodes
enque_freed_run : (queue_free false single >>= λ (freed, q). queue_enque counting q 8) ≡ fault
unfolding queue_free queue_enque
enque_freed_run = refl

queue_enque-Enqueues_example :
    Returns (Enqueues counting single (7 ∷ []) 8) (queue_enque counting single 8)
queue_enque-Enqueues_example =
    queue_enque-Enqueues counting single (7 ∷ []) 8 counting-IsMalloc single-IsQueue

queue_deque-Dequeues_example : Returns (Dequeues single (7 ∷ [])) (queue_deque single)
queue_deque-Dequeues_example = queue_deque-Dequeues single (7 ∷ []) single-IsQueue

bt_bfs-occurs_example : bt_bfs counting nat_cmp 3 no_nodes three ≡ ok (occurs nat_cmp 3 three.root)
bt_bfs-occurs_example =
    bt_bfs-occurs nat_cmp 3 counting no_nodes three counting-IsMalloc counting-Grants (omega arith)
