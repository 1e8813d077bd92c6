-- ===== src/LinkedList/Contents.antt =====
-- The list of elements that a doubly linked list stands for.
use vlib.Base.{ℕ, ◌≡◌, refl, sym, ap, ◌∙◌, List, [], some, false, arith, ◌==◌, length}
use vlib.Heap.{Ptr, null, Heap, Cells, find, write}
use vlib.Heap.Lines.{Line, values, length-values}
use vlib.LinkedList.{Node, LinkedList, list_new}
use vlib.LinkedList.Chains.{first_or, last_or, Linked}

pub swap_test : (a b : Ptr) → (a == b) ≡ false → (b == a) ≡ false
swap_test a b e = ground arith

module _ {ℓ} {A : Type ℓ} where
  -- the list stands for `xs`
  pub record IsList (l : LinkedList A) (xs : List A) : Type ℓ where
    pub line : Line A
    pub linked : Linked l.heap.cells null line null
    pub counted : l.len ≡ length line
    pub elements : values line ≡ xs
    pub starts : l.head ≡ first_or line null
    pub ends : l.tail ≡ last_or null line

  pub list_new-IsList : (heap : Heap (Node A)) (data_size : ℕ) → IsList (list_new heap data_size) []
  unfolding list_new
  list_new-IsList heap data_size = record {
    line = [];
    linked = tt;
    counted = refl;
    elements = refl;
    starts = refl;
    ends = refl;
  }

  pub len-IsList : (l : LinkedList A) (xs : List A) → IsList l xs → l.len ≡ length xs
  len-IsList l xs h = h.counted ∙ sym (length-values h.line) ∙ ap length h.elements

  pub written : (c : Cells (Node A)) (p : Ptr) (n : Node A) → find (write c p (some n)) p ≡ some n
  written c p n = ground arith
