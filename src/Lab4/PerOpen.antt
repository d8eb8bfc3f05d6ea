-- ===== src/Lab4/PerOpen.antt =====
-- Lab4/4.1.2.2/seek.c: the device of Lab3/3.1.3/seek.c with a ramdisk that each open allocates anew.
pub mod Misuse
pub mod Leak
use petulant_wookie.Base.{
  ℕ, zero, suc, ◌+◌, List, [], ◌∷◌, ◌++◌, Option, none, some, Bool, true, false, not, length,
  get_elem?, set, ltb_ℤ, if◌then◌else◌, ℤ, pos,
}
use petulant_wookie.Kernel.{Kernel, Run, done, running, overrun, Ret}
use petulant_wookie.Asgn1.Control.{Whence}
use petulant_wookie.Lab3.Seek.{Ramdisk, Transfer}
use petulant_wookie.Lab3.Seek

-- The blocks that `kmalloc` has given out, by address; a block that was freed is `none`.
abbrev pub Heap : Type 0
Heap = List (Option Ramdisk)

-- The heap and the global `ramdisk`, which may be null. `file->private_data` is set to the address of
-- that global, for every file the same, and is never read.
pub record State : Type 0 where
  pub heap : Heap
  pub ramdisk : Option ℕ

-- What a function comes to: a result, or a misuse of the heap.
pub data Fate {ℓ} (A : Type ℓ) : Type ℓ where
  fine : A → Fate A
  double_free : Fate A
  use_after_free : Fate A
  out_of_bounds : Fate A

-- `ramdisk = kmalloc(ramdisk_size, GFP_KERNEL)`, by what the kernel gives.
pub allocate : Option Ramdisk → State → State
allocate none s = record s { ramdisk = none }
allocate (some bytes) s = record {
  heap = s.heap ++ (some bytes ∷ []);
  ramdisk = some (length s.heap);
}

-- `kfree(ramdisk)`; the pointer keeps its value.
pub free_block : ℕ → Option (Option Ramdisk) → State → Fate State
free_block a (some (some bytes)) s = fine (record s { heap = set s.heap a none })
free_block a (some none) s = double_free
free_block a none s = out_of_bounds

pub free : Option ℕ → State → Fate State
free none s = fine s
free (some a) s = free_block a (get_elem? s.heap a) s

-- `mycdrv_open`; the count that it prints is left out.
unfoldable pub mycdrv_open : Option Ramdisk → State → State
unfolding allocate
mycdrv_open block s = allocate block s

unfoldable pub mycdrv_release : State → Fate State
unfolding free free_block
mycdrv_release s = free s.ramdisk s

-- The block that `ramdisk` points to; a null pointer has no cells.
pub data Target : Type 0 where
  cells : Ramdisk → Target
  freed : Target
  wild : Target

pub block_at : Option (Option Ramdisk) → Target
block_at (some (some bytes)) = cells bytes
block_at (some none) = freed
block_at none = wild

pub target : State → Target
target s = elim s.ramdisk [ none ↦ cells [] | some a ↦ block_at (get_elem? s.heap a) ]

pub transfer : Fate Transfer → Run Transfer → Fate Transfer
transfer misuse (done t) = fine t
transfer misuse overrun = misuse
transfer misuse running = misuse

-- `mycdrv_read`, whose text is that of Lab3/3.1.3/seek.c. A call that transfers no byte accesses
-- nothing, also where the block was freed.
unfoldable pub mycdrv_read : Kernel → State → ℕ → ℤ → Fate Transfer
unfolding target block_at transfer
mycdrv_read k s lbuf ppos = elim (target s) [
  | cells bytes ↦ transfer out_of_bounds (Seek.mycdrv_read k bytes lbuf ppos)
  | freed ↦ transfer use_after_free (Seek.mycdrv_read k [] lbuf ppos)
  | wild ↦ transfer out_of_bounds (Seek.mycdrv_read k [] lbuf ppos)
]

-- What a write leaves in the block.
pub store : Option ℕ → Ramdisk → State → State
store none bytes s = s
store (some a) bytes s = record s { heap = set s.heap a (some bytes) }

-- With what a write leaves where it completes.
pub stored : Fate (Transfer × State) → Option ℕ → State → Run Transfer → Fate (Transfer × State)
stored misuse place s (done t) = fine (t, store place t.bytes s)
stored misuse place s overrun = misuse
stored misuse place s running = misuse

unfoldable pub mycdrv_write : Kernel → State → List ℕ → ℕ → ℤ → Fate (Transfer × State)
unfolding target block_at stored store
mycdrv_write k s buf lbuf ppos = elim (target s) [
  | cells bytes ↦ stored out_of_bounds s.ramdisk s (Seek.mycdrv_write k bytes buf lbuf ppos)
  | freed ↦ stored use_after_free none s (Seek.mycdrv_write k [] buf lbuf ppos)
  | wild ↦ stored out_of_bounds none s (Seek.mycdrv_write k [] buf lbuf ppos)
]

unfoldable pub mycdrv_lseek : ℕ → ℤ → ℤ → ℤ → Whence → Ret × ℤ
mycdrv_lseek = Seek.mycdrv_lseek

-- The kernel's answers to `my_init`.
pub record InitAnswers : Type 0 where
  pub register_chrdev_region : ℤ
  pub cdev_alloc : Bool
  pub kmalloc : Option Ramdisk
  pub cdev_add : ℤ

-- From `cdev_init` on: whether the module is loaded, and its memory.
pub add_cdev : InitAnswers → State → Bool × Fate State
add_cdev a s =
    let s' = allocate a.kmalloc s in
    if ltb_ℤ a.cdev_add (pos 0) then (false, free s'.ramdisk s') else (true, fine s')

unfoldable pub my_init : InitAnswers → State → Bool × Fate State
unfolding add_cdev allocate free free_block
my_init a s =
    if ltb_ℤ a.register_chrdev_region (pos 0)
    then (false, fine s)
    else (if not a.cdev_alloc then (false, fine s) else add_cdev a s)

-- `my_exit`, from `kfree` on.
unfoldable pub my_exit : State → Fate State
unfolding free free_block
my_exit s = free s.ramdisk s
