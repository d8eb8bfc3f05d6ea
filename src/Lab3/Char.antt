-- ===== src/Lab3/Char.antt =====
-- Lab3/3.2.1/lab_char.h: the ramdisk as a character device, the other of the two headers that
-- Lab3/3.2.1/wait_event.c may include.
pub mod Balance
use petulant_wookie.Base.{
  ℕ, List, [], ◌∷◌, ◌++◌, Bool, true, false, not, if◌then◌else◌, ltb_ℤ, ℤ, pos,
}
use petulant_wookie.Kernel.{Kernel, Run, Ret}
use petulant_wookie.Asgn1.Control.{Whence}
use petulant_wookie.Driver.{Call, acquire, release, region, cdev, class, device, memory, acquired}
use petulant_wookie.Lab3.Seek.{Ramdisk, Transfer, mycdrv_read, mycdrv_write, Loading}
use petulant_wookie.Lab3.Generic

-- The entry points, which are those of Lab3/3.2.1/lab_miscdev.h line for line.
unfoldable pub mycdrv_generic_open : ℤ → Ret × ℤ
mycdrv_generic_open = Generic.mycdrv_generic_open

unfoldable pub mycdrv_generic_release : Ret
mycdrv_generic_release = Generic.mycdrv_generic_release

unfoldable pub mycdrv_generic_read : Kernel → Ramdisk → ℕ → ℤ → Run Transfer
mycdrv_generic_read = mycdrv_read

unfoldable pub mycdrv_generic_write : Kernel → Ramdisk → List ℕ → ℕ → ℤ → Run Transfer
mycdrv_generic_write = mycdrv_write

unfoldable pub mycdrv_generic_lseek : ℕ → ℤ → ℤ → Whence → Ret × ℤ
mycdrv_generic_lseek = Generic.mycdrv_generic_lseek

-- The answers of the kernel to `my_generic_init`: a result below 0 is a failure.
pub record CharAnswers : Type 0 where
  pub alloc_chrdev_region : ℤ
  pub cdev_alloc : Bool
  pub kmalloc : Bool
  pub cdev_add : ℤ
  pub class_create : Bool
  pub device_create : Bool

-- From `cdev_init` on. The results of `kmalloc`, `class_create` and `device_create` are not looked at.
pub add_cdev : CharAnswers → Loading
add_cdev a =
    let calls = acquire region ∷ acquire cdev ∷ acquired a.kmalloc memory in
    if ltb_ℤ a.cdev_add (pos 0)
    then record {
      loaded = false;
      calls = calls ++ (release cdev ∷ release region ∷ release memory ∷ []);
    }
    else record {
      loaded = true;
      calls = calls ++ (acquired a.class_create class ++ acquired a.device_create device);
    }

unfoldable pub my_generic_init : CharAnswers → Loading
unfolding add_cdev
my_generic_init a =
    if ltb_ℤ a.alloc_chrdev_region (pos 0)
    then record { loaded = false; calls = [] }
    else (if not a.cdev_alloc
        then record { loaded = false; calls = acquire region ∷ release region ∷ [] }
        else add_cdev a)

-- `my_generic_exit`, with whether `my_cdev` is set.
unfoldable pub my_generic_exit : Bool → List Call
my_generic_exit has_cdev =
    release device
    ∷ release class
    ∷ ((if has_cdev then release cdev ∷ [] else []) ++ (release region ∷ release memory ∷ []))
