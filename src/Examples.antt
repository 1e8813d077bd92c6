-- ===== src/Examples.antt =====
-- Runs of the model on small inputs, and the theorems at inputs that meet their hypotheses.
mod Numbers
mod Sort
mod Vec
mod Avl
mod BinaryTree
mod PriorityQueue
mod Hash
mod Vstr
mod Queue
mod Malloc
mod GenericTree
mod LinkedList
mod SmallVec
