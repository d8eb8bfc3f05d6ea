-- ===== src/Kernel.antt =====
-- What the drivers call and do not implement: the page size, the copies to and from user space,
-- the allocators. A value of `Kernel` is one run of that environment, an argument of every handler.
use petulant_wookie.Base.{ℕ, ◌≤◌, ◌<◌, ◌^◌, ◌≡◌, List, length}

-- The negative results of the handlers.
pub data Errno : Type 0 where
  ebusy einval efault enotty enomem eacces erestartsys : Errno

-- The `long` result of a handler: a value, or `-errno`.
pub data Ret : Type 0 where
  ok : ℕ → Ret
  fail : Errno → Ret

-- How a piece of code ends: it completes, it still runs when the fuel is used up, or it accesses
-- memory past the end of an array or of a page.
pub data Run {ℓ} (A : Type ℓ) : Type ℓ where
  done : A → Run A
  running : Run A
  overrun : Run A

-- One round of `kmalloc(sizeof(page_node))` and `alloc_page`: the first fails, only the second
-- fails, or there is a node with a page, whose bytes are whatever the page held before.
pub data Alloc : Type 0 where
  no_node no_page : Alloc
  page : List ℕ → Alloc

pub record Kernel : Type 0 where
  pub page_size : ℕ
  -- `left i n` is the result of the `i`-th `copy_to_user` or `copy_from_user` of a call, asked for
  -- `n` bytes: the number of bytes at the end that were not copied.
  pub left : ℕ → ℕ → ℕ
  -- the `i`-th allocation of a call
  pub alloc : ℕ → Alloc

-- The size of a page that an allocation returns.
abbrev pub Fills : ℕ → Alloc → Type 0
Fills n (page p) = length p ≡ n
Fills n no_node = Unit
Fills n no_page = Unit

-- What every kernel guarantees.
pub record IsKernel (k : Kernel) : Type 0 where
  pub page_pos : 0 < k.page_size
  pub page_many : 1 < k.page_size
  pub page_small : k.page_size < 2 ^ 31
  pub left_le : (i n : ℕ) → k.left i n ≤ n
  pub fills : (i : ℕ) → Fills k.page_size (k.alloc i)

-- The user's buffer is mapped: each copy of at least one byte copies at least one.
abbrev pub Progresses : Kernel → Type 0
Progresses k = (i n : ℕ) → 0 < n → k.left i n < n

-- The user's buffer is not mapped: no copy copies anything.
abbrev pub Faults : Kernel → Type 0
Faults k = (i n : ℕ) → k.left i n ≡ n

-- An allocation that fails.
abbrev pub Fails : Alloc → Type 0
Fails (page p) = ⊥
Fails no_node = Unit
Fails no_page = Unit

-- There is memory for every allocation of the call.
abbrev pub Supplies : Kernel → Type 0
Supplies k = (i : ℕ) → ¬ Fails (k.alloc i)
