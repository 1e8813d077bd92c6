-- ===== src/Lib.antt =====
-- vlib, a C library of data structures and algorithms (src/ of the repository), modelled and
-- verified.
--
-- Parts. An array is a `void*` with a length and an element size; Array models the access to it,
-- an access outside it is a fault (Base/Outcome). Cmp models the comparison that the caller passes
-- (`CmpFn`) by the sign of its result. The search and the sorts work on such arrays:
--   Search            src/binary_search.c
--   Sort/Bubble       src/bubble_sort.c
--   Sort/Insertion    src/insertion_sort.c
--   Sort/Quick        src/quick_sort.c
--   Sort/Merge        src/merge_sort.c
-- Vec is src/vec.c: the record `Vec` is `struct vec` with its flexible array member as the list
-- `slots`; every function has its name from the source, takes the vector and returns the new one.
-- Vec/Iter is its iterator. SmallVec is
-- src/small_vec.h, the functions that its macros define for a type; Vec/Gaps is about the removal of an
-- element from an array, which both do. PriorityQueue is src/pq.c, a heap in such an array. BinaryTree is
-- src/binary_tree.c, src/binary_node.c, src/bt_compare.c and the walks
-- src/bt_{pre,in,post}_order.c, which push into a vector. Avl is src/avl_tree.c, a pointer being a
-- tree value, since nodes are not shared; Avl/Delete holds its deletion (Avl/Delete/Removes and
-- Avl/Delete/Effects are about the keys that stay, Avl/Delete/Reports about the result, the count and
-- the freed keys), Avl/Walks its walks and its free walk.
--
-- Hash holds the buckets of entries that src/ht.c and src/set.c share (a key is a list of bytes, an
-- array of pointers a list of optional entries). Hash/Table is src/ht.c: the record `Ht` is its
-- struct, the functions have the names of the source, and `search`, `bucket_insert` and `resize`
-- are the parts that several of them repeat. Hash/Members is src/set.c. Hash/Keys says what the
-- theorems ask of the comparison of keys and of the hash, and that the bytes of the key satisfy
-- it; Hash/Chains, Hash/Entries and Hash/Places relate the buckets to the map that they stand for.
-- siphash is a parameter, the random seed an argument of `ht_new` and `set_new`, the record
-- `Memory` tells which of the requests for memory of an operation succeed.
--
-- Vstr is src/vstr.c: the constructor of `Vstr` is the flag `is_large`, with the bytes in the struct
-- or in a block. Vstr/Contents relates a string to its bytes, Vstr/Makes is about the functions that
-- make one, Vstr/Pushes about the two that append, Vstr/Compare about vstr_cmp. What vsnprintf
-- writes is an argument of `vstr_format`.
--
-- Queue is src/queue.c: its nodes stand on a Heap, the log of the writes to each address, so that an
-- access to a freed node is a fault; malloc is a parameter that may refuse any request. Queue/Chains
-- is the chain of nodes from `head` to `tail`, Queue/Contents the list that it stands for.
-- BinaryTree/Bfs is src/bt_bfs.c, the search that uses this queue, and BinaryTree/Bfs/Finds what it
-- finds. GenericTree is src/tree.c: a node carries its address, its capacity and its `parent` field;
-- its block has places for as many children as the capacity says, and a write past them is a fault.
-- A pointer `tree_node**` is the path of indices to the slot. GenericTree/Operations holds the operations,
-- GenericTree/Depth and GenericTree/Breadth the two searches. GenericTree/Slots is about a change in
-- one slot of the tree, GenericTree/Gains, GenericTree/Parents and GenericTree/Changes are about the
-- insertion of a child there with the growth of the block and the `parent` fields, and
-- GenericTree/Deletion about the removal of a child. GenericTree/Outcomes says what the operations do.
-- LinkedList is src/list.c, on the same heap: LinkedList/Chains is the chain of nodes both ways,
-- LinkedList/Contents the list that it stands for; LinkedList/Growth, LinkedList/Insertion,
-- LinkedList/Removal, LinkedList/Positions and LinkedList/Search are about its operations.
-- Heap/Lines holds what the two kinds of chain share.
--
-- Conventions. A `size_t` is a natural number, with the wrap at 2^64 written where the code can
-- reach it. The outcome of malloc, calloc and realloc is an argument `allocated`. A result 0 or -1
-- is a `Status`. Elements are blocks of `data_size` bytes that are copied whole, so the model is
-- generic in their type. Loops recur on the number of rounds left, or on fuel: the length plus one
-- for binary_search (each round shortens the range), the length for quick_sort (each call or round
-- works on a shorter range), the length plus 64 for merge_sort (each call halves the range), the
-- index plus one for the inner loop of insertion_sort, the length for heapify_down (each round goes
-- to a larger index), the number of nodes plus one for the searches level by level (each round takes
-- a node out of the queue, and a node gets in once). The theorems show that this fuel is enough, since
-- they state that the run returns.
--
-- Not modelled: what the comparison and the free function do to memory, byte counts of a request
-- that exceed 2^64, printing, the LRU cache (src/lru.c), the random seed, siphash.c and sha256.c, which
-- come from other projects. The tests of the repository are not modelled either.
pub mod Base
pub mod Cmp
pub mod Array
pub mod Search
pub mod Vec
pub mod Vstr
pub mod Avl
pub mod BinaryTree
pub mod PriorityQueue
pub mod Hash
pub mod Heap
pub mod Queue
pub mod LinkedList
pub mod SmallVec
pub mod GenericTree
pub mod Sort
pub mod Examples
