-- ===== src/Lab3/Seek.antt =====
-- Lab3/3.1.3/seek.c: a character device that keeps its data in one block of memory.
pub mod Copy
pub mod Beyond
pub mod Balance
pub mod Session
use petulant_wookie.Base.{
  ℕ, ◌+◌, ◌-◌, ◌*◌, ◌≡◌, List, [], ◌∷◌, ◌++◌, Bool, true, false, not, ◌||◌, ltb, leb, ltb_ℤ, ◌==◌,
  if◌then◌else◌, length, replicate, take, drop, overwrite, ℤ, pos, negsuc, pos_part, ◌+ℤ◌, ◌-ℤ◌,
  wrap_int, wrap_loff, to_int, to_size, sub_size, mul_size,
}
use petulant_wookie.Kernel.{Kernel, Run, done, overrun, Ret, ok, fail, einval}
use petulant_wookie.Asgn1.Control.{Whence, seek_set, seek_cur, seek_end, other}
use petulant_wookie.Driver.{Call, acquire, release, region, cdev, memory, acquired}

-- `ramdisk_size`
abbrev pub ramdisk_size : ℕ → ℕ
ramdisk_size page_size = mul_size 16 page_size

-- The bytes that `ramdisk` points to; where `kmalloc` failed there are none.
abbrev pub Ramdisk : Type 0
Ramdisk = List ℕ

-- `maxbytes` and `bytes_to_do`. The comparison is one of unsigned numbers, also where `*ppos` lies
-- past the end and `maxbytes` is negative.
pub bytes_to_do : ℕ → ℕ → ℤ → ℕ
bytes_to_do page_size lbuf ppos =
    let maxbytes = wrap_int (pos (ramdisk_size page_size) -ℤ ppos) in
    if ltb lbuf (to_size maxbytes) then lbuf else to_size maxbytes

-- Whether `n` bytes from `ramdisk + *ppos` on lie in the block.
unfoldable pub in_ramdisk : Ramdisk → ℤ → ℕ → Bool
in_ramdisk ramdisk (pos p) n = n == 0 || leb (p + n) (length ramdisk)
in_ramdisk ramdisk (negsuc p) n = n == 0

-- The result of a transfer, `*ppos`, and the bytes that it leaves in the user's buffer or the ramdisk.
pub record Transfer : Type 0 where
  pub nbytes : ℤ
  pub f_pos : ℤ
  pub bytes : List ℕ

-- `mycdrv_read(file, buf, lbuf, ppos)`; the bytes are those put in the user's buffer.
unfoldable pub mycdrv_read : Kernel → Ramdisk → ℕ → ℤ → Run Transfer
unfolding bytes_to_do in_ramdisk
mycdrv_read k ramdisk lbuf ppos =
    let n = bytes_to_do k.page_size lbuf ppos in
    let nbytes = sub_size n (k.left 0 n) in
    if in_ramdisk ramdisk ppos n
    then done (record {
      nbytes = to_int nbytes;
      f_pos = wrap_loff (ppos +ℤ to_int nbytes);
      bytes = take nbytes (drop (pos_part ppos) ramdisk);
    })
    else overrun

-- What `copy_from_user` leaves of `n` bytes of which it copied `copied`: zero bytes take the place of
-- the others.
pub padded : ℕ → ℕ → List ℕ → List ℕ
padded n copied buf = take copied buf ++ replicate (n - copied) 0

-- `mycdrv_write(file, buf, lbuf, ppos)`; the bytes are those of the ramdisk.
unfoldable pub mycdrv_write : Kernel → Ramdisk → List ℕ → ℕ → ℤ → Run Transfer
unfolding bytes_to_do in_ramdisk padded
mycdrv_write k ramdisk buf lbuf ppos =
    let n = bytes_to_do k.page_size lbuf ppos in
    let nbytes = sub_size n (k.left 0 n) in
    if in_ramdisk ramdisk ppos n
    then done (record {
      nbytes = to_int nbytes;
      f_pos = wrap_loff (ppos +ℤ to_int nbytes);
      bytes = overwrite (pos_part ppos) (padded n nbytes buf) ramdisk;
    })
    else overrun

-- The switch of `mycdrv_lseek`: with an `orig` that is none of its cases `testpos` keeps the
-- indeterminate value it starts with.
unfoldable pub seek_target : ℕ → ℤ → ℤ → ℤ → Whence → ℤ
seek_target size indeterminate f_pos offset seek_set = offset
seek_target size indeterminate f_pos offset seek_cur = wrap_loff (f_pos +ℤ offset)
seek_target size indeterminate f_pos offset seek_end = wrap_loff (pos size +ℤ offset)
seek_target size indeterminate f_pos offset other = indeterminate

-- `mycdrv_lseek(file, offset, orig)`: the result and `file->f_pos`.
unfoldable pub mycdrv_lseek : ℕ → ℤ → ℤ → ℤ → Whence → Ret × ℤ
unfolding seek_target
mycdrv_lseek page_size indeterminate f_pos offset orig =
    let size = ramdisk_size page_size in
    let testpos = seek_target size indeterminate f_pos offset orig in
    if ltb_ℤ testpos (pos 0) || ltb_ℤ (pos size) testpos
    then (fail einval, f_pos)
    else (ok (pos_part testpos), testpos)

-- `mycdrv_open` counts in a static variable how often the device was opened; `mycdrv_release`
-- changes nothing.
unfoldable pub mycdrv_open : ℤ → Ret × ℤ
mycdrv_open counter = (ok 0, wrap_int (counter +ℤ pos 1))

unfoldable pub mycdrv_release : Ret
mycdrv_release = ok 0

-- The answers of the kernel to `my_init`: a result below 0 is a failure, and so is a null pointer.
pub record SeekAnswers : Type 0 where
  pub register_chrdev_region : ℤ
  pub cdev_alloc : Bool
  pub kmalloc : Bool
  pub cdev_add : ℤ

-- Whether an init function returns 0, and its calls in order.
pub record Loading : Type 0 where
  pub loaded : Bool
  pub calls : List Call

-- From `cdev_init` on. `cdev_del` gives back what `cdev_alloc` gave, and `kfree` of a null pointer
-- does nothing.
pub add_cdev : SeekAnswers → Loading
add_cdev a =
    let calls = acquire region ∷ acquire cdev ∷ acquired a.kmalloc memory in
    if ltb_ℤ a.cdev_add (pos 0)
    then record {
      loaded = false;
      calls = calls ++ (release cdev ∷ release region ∷ release memory ∷ []);
    }
    else record { loaded = true; calls = calls }

unfoldable pub my_init : SeekAnswers → Loading
unfolding add_cdev
my_init a =
    if ltb_ℤ a.register_chrdev_region (pos 0)
    then record { loaded = false; calls = [] }
    else (if not a.cdev_alloc
        then record { loaded = false; calls = acquire region ∷ release region ∷ [] }
        else add_cdev a)

-- `my_exit`, with whether `my_cdev` is set.
unfoldable pub my_exit : Bool → List Call
my_exit has_cdev =
    (if has_cdev then release cdev ∷ [] else []) ++ (release region ∷ release memory ∷ [])
