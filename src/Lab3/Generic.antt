-- ===== src/Lab3/Generic.antt =====
-- Lab3/3.2.1/lab_miscdev.h: the ramdisk as a misc device, with generic entry points.
pub mod Lseek
pub mod Leak
use petulant_wookie.Base.{
  ℕ, List, [], ◌∷◌, ◌++◌, Bool, true, false, if◌then◌else◌, ltb_ℤ, ℤ, pos, pos_part, ◌+ℤ◌, wrap_int,
  wrap_loff,
}
use petulant_wookie.Kernel.{Kernel, Run, Ret, ok, fail, einval}
use petulant_wookie.Asgn1.Control.{Whence, seek_set, seek_cur, seek_end, other}
use petulant_wookie.Driver.{Call, acquire, release, memory, misc, acquired}
use petulant_wookie.Lab3.Seek.{ramdisk_size, Ramdisk, Transfer, mycdrv_read, mycdrv_write, Loading}

-- `mycdrv_generic_open` counts, and `mycdrv_generic_release` changes nothing.
unfoldable pub mycdrv_generic_open : ℤ → Ret × ℤ
mycdrv_generic_open counter = (ok 0, wrap_int (counter +ℤ pos 1))

unfoldable pub mycdrv_generic_release : Ret
mycdrv_generic_release = ok 0

-- `mycdrv_generic_read` and `mycdrv_generic_write`, which are `mycdrv_read` and `mycdrv_write` of
-- Lab3/3.1.3/seek.c line for line.
unfoldable pub mycdrv_generic_read : Kernel → Ramdisk → ℕ → ℤ → Run Transfer
mycdrv_generic_read = mycdrv_read

unfoldable pub mycdrv_generic_write : Kernel → Ramdisk → List ℕ → ℕ → ℤ → Run Transfer
mycdrv_generic_write = mycdrv_write

-- The switch of `mycdrv_generic_lseek`; none is its default.
pub data Target : Type 0 where
  target : ℤ → Target
  refused : Target

pub seek_target : ℕ → ℤ → ℤ → Whence → Target
seek_target size f_pos offset seek_set = target offset
seek_target size f_pos offset seek_cur = target (wrap_loff (f_pos +ℤ offset))
seek_target size f_pos offset seek_end = target (wrap_loff (pos size +ℤ offset))
seek_target size f_pos offset other = refused

-- The two tests after the switch.
pub bring_inside : ℕ → ℤ → ℤ
bring_inside size testpos =
    let at_most = if ltb_ℤ testpos (pos size) then testpos else pos size in
    if ltb_ℤ at_most (pos 0) then pos 0 else at_most

pub settle : ℕ → ℤ → Target → Ret × ℤ
settle size f_pos refused = (fail einval, f_pos)
settle size f_pos (target testpos) =
    let testpos' = bring_inside size testpos in (ok (pos_part testpos'), testpos')

-- `mycdrv_generic_lseek(file, offset, orig)`: the result and `file->f_pos`.
unfoldable pub mycdrv_generic_lseek : ℕ → ℤ → ℤ → Whence → Ret × ℤ
unfolding seek_target bring_inside settle
mycdrv_generic_lseek page_size f_pos offset orig =
    let size = ramdisk_size page_size in settle size f_pos (seek_target size f_pos offset orig)

-- `my_generic_init`, with whether `kmalloc` and `misc_register` succeed.
unfoldable pub my_generic_init : Bool → Bool → Loading
my_generic_init kmalloc misc_register =
    if misc_register
    then record { loaded = true; calls = acquired kmalloc memory ++ (acquire misc ∷ []) }
    else record { loaded = false; calls = acquired kmalloc memory }

unfoldable pub my_generic_exit : List Call
my_generic_exit = release misc ∷ release memory ∷ []
