-- ===== src/Vma.antt =====
-- kernel/mm/vma.c: the areas of an address space. A subtree with the path from it to the root
-- stands for a node pointer: the path holds what `rb_parent` reaches, nearest first.
pub mod RbTree
pub mod Range
use doppio.Prelude.{ℕ, Option}

-- `struct vm_area`, without the links and the color
pub record VmArea : Type 0 where
  pub start : ℕ
  pub end : ℕ
  pub flags : ℕ
  pub file_offset : ℕ
  pub vn : Option ℕ

pub data Color : Type 0 where
  red black : Color

-- The areas below a node pointer; `leaf` is the null pointer.
pub data Tree : Type 0 where
  leaf : Tree
  node : Color → Tree → VmArea → Tree → Tree
