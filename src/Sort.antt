-- ===== src/Sort.antt =====
-- src/{bubble,insertion,quick,merge}_sort.c: the sorts, over one array of elements and a comparison.
pub mod Order
pub mod Bubble
pub mod Insertion
pub mod Quick
pub mod Merge
