-- ===== src/Driver.antt =====
-- The life of a kernel module: what its init and exit functions acquire from the kernel and give
-- back. Each call of the kernel that acquires something is a parameter by its answer.
use petulant_wookie.Base.{ℕ, List, [], ◌∷◌, Bool, false, ◌==◌, if◌then◌else◌, ℤ, pos}

-- What a module can hold: the region of device numbers, the character device, the entry in /proc,
-- the class and the device of udev, the pins, the interrupt, memory, the entry of a misc device.
pub data Resource : Type 0 where
  region cdev proc_entry class device gpios irq memory misc : Resource

-- A successful acquisition, and a call that gives back.
pub data Call : Type 0 where
  acquire release : Resource → Call

abbrev pub code : Resource → ℕ
code region = 0
code cdev = 1
code proc_entry = 2
code class = 3
code device = 4
code gpios = 5
code irq = 6
code memory = 7
code misc = 8

abbrev pub remove : Resource → List Resource → List Resource
remove r [] = []
remove r (x ∷ xs) = let rest = remove r xs in if code r == code x then xs else x ∷ rest

-- What is held after a list of calls.
abbrev pub held : List Call → List Resource → List Resource
held [] rs = rs
held (acquire r ∷ cs) rs = held cs (r ∷ rs)
held (release r ∷ cs) rs = held cs (remove r rs)

abbrev pub is_zero : ℤ → Bool
is_zero (pos n) = n == 0
is_zero i = false

-- The answers of `alloc_chrdev_region`, `cdev_alloc`, `cdev_add`, `create_proc_entry`, `class_create`
-- and `device_create`: numbers where the source looks at the number, and otherwise whether the call
-- succeeds. The structure that `cdev_alloc` gives is held until `cdev_del`.
pub record Answers : Type 0 where
  pub alloc_chrdev_region : ℤ
  pub cdev_alloc : Bool
  pub cdev_add : ℤ
  pub create_proc_entry : Bool
  pub class_create : Bool
  pub device_create : Bool

-- `-ENOMEM`
pub data InitError : Type 0 where
  errno : ℤ → InitError
  enomem : InitError

-- The result of an init function, and its calls in order; or the calls up to one of `cdev_init` or
-- `cdev_del` that is given a null pointer.
pub data Init : Type 0 where
  started : List Call → Init
  failed : InitError → List Call → Init
  uses_null : List Call → Init

-- A call that acquires `r` only where it succeeds.
abbrev pub acquired : Bool → Resource → List Call
acquired ok r = if ok then acquire r ∷ [] else []
