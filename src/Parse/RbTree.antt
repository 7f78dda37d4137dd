-- ===== src/Parse/RbTree.antt =====
-- The red-black trees of the kernel (rbtree.h), as far as blkparse.c relies on them. Its insertions
-- and searches walk the tree themselves; what rbtree.c does is a parameter. A node is named by its
-- place in the order of the tree.
pub mod Sorted
use blktrace.Common.{
  ℕ, zero, suc, ◌+◌, ◌≡◌, Bool, true, false, if◌then◌else◌, Option, none, some, List, [], ◌∷◌, ◌++◌,
  get_elem?,
}

-- struct rb_root: the entries that hold the nodes, without the colours.
pub data Tree (A : Type 0) : Type 0 where
  null : Tree A
  node : Tree A → A → Tree A → Tree A

module _ {A : Type 0} where
  -- The entries in the order of the tree.
  unfoldable pub to_list : Tree A → List A
  to_list null = []
  to_list (node l x r) = to_list l ++ x ∷ to_list r

  unfoldable pub size : Tree A → ℕ
  size null = 0
  size (node l x r) = size l + suc (size r)

  abbrev pub erase_idx : ℕ → List A → List A
  erase_idx i [] = []
  erase_idx zero (x ∷ xs) = xs
  erase_idx (suc i) (x ∷ xs) = x ∷ erase_idx i xs

-- rbtree.c. rb_insert_color(node, root) and rb_erase(node, root) rebalance: they keep the order of
-- the entries. rb_first(root) is the first node in the order, and rb_next(node) the following one.
pub record RbOps : Type 1 where
  pub rb_insert_color : {A : Type 0} → ℕ → Tree A → Tree A
  pub rb_erase : {A : Type 0} → ℕ → Tree A → Tree A
  pub rb_first : {A : Type 0} → Tree A → Option A
  pub rb_next : {A : Type 0} → ℕ → Tree A → Option A
  pub rb_insert_color_lem :
      {A : Type 0} (i : ℕ) (t : Tree A) → to_list (rb_insert_color i t) ≡ to_list t
  pub rb_erase_lem :
      {A : Type 0} (i : ℕ) (t : Tree A) → to_list (rb_erase i t) ≡ erase_idx i (to_list t)
  pub rb_first_lem : {A : Type 0} (t : Tree A) → rb_first t ≡ get_elem? (to_list t) 0
  pub rb_next_lem : {A : Type 0} (i : ℕ) (t : Tree A) → rb_next i t ≡ get_elem? (to_list t) (suc i)

module _ {A : Type 0} where
  -- A walk from the root to a free place, by a test for going left, and rb_link_node there.
  unfoldable pub link : (A → Bool) → A → Tree A → Tree A
  link left x null = node null x null
  link left x (node l y r) = if left y then node (link left x l) y r else node l y (link left x r)

  -- The place of the new node in the order.
  unfoldable pub link_place : (A → Bool) → Tree A → ℕ
  unfolding size
  link_place left null = 0
  link_place left (node l y r) =
      if left y then link_place left l else size l + suc (link_place left r)
