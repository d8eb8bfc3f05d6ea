-- ===== src/Asgn1/Module.antt =====
-- asgn1/asgn1.c: `asgn1_init_module` and `asgn1_exit_module`.
pub mod Balance
use petulant_wookie.Base.{
  ℕ, List, [], ◌∷◌, ◌++◌, Bool, true, false, not, if◌then◌else◌, ℤ, pos, ◌≡◌,
}
use petulant_wookie.Driver.{
  Resource, region, cdev, proc_entry, class, device, Call, acquire, release, held, is_zero, Answers,
  Init, started, failed, uses_null, InitError, errno, enomem, acquired,
}
use petulant_wookie.Asgn1.Device.{Device, free_memory_pages}

-- The assignments to the device on the path of success.
unfoldable pub reset : Device → Device
reset d = record d {
  nprocs = pos 0;
  max_nprocs = pos 1;
  num_pages = 0;
  data_size = 0;
  mem_list = [];
}

-- `fail_device`: every step is undone, done or not, but the entry in /proc only where there is one.
-- The statics are null at the load: `class_destroy` does nothing with a null class, and
-- `cdev_del` uses the `cdev` that it is given.
pub fail_device : (has_proc has_cdev : Bool) → InitError → List Call → Init
fail_device has_proc has_cdev e calls =
    let undone = calls ++ (release class ∷ (if has_proc then release proc_entry ∷ [] else [])) in
    if has_cdev then failed e (undone ++ (release cdev ∷ release region ∷ [])) else uses_null undone

-- From `cdev_add` on.
pub add_cdev : Answers → Init
add_cdev a =
    let calls = acquire region ∷ acquire cdev ∷ [] in
    if not (is_zero a.cdev_add)
    then fail_device false true (errno a.cdev_add) calls
    else (if not a.create_proc_entry
        then fail_device false true enomem calls
        else (let more = calls ++ (acquire proc_entry ∷ acquired a.class_create class) in
            if a.device_create
            then started (more ++ (acquire device ∷ []))
            else fail_device true true enomem more))

-- `asgn1_init_module`: the result of `cdev_alloc` is used untested.
unfoldable pub asgn1_init_module : Answers → Init
unfolding add_cdev fail_device
asgn1_init_module a =
    if not (is_zero a.alloc_chrdev_region)
    then fail_device false false (errno a.alloc_chrdev_region) []
    else (if not a.cdev_alloc then uses_null (acquire region ∷ []) else add_cdev a)

-- `asgn1_exit_module`, with whether `asgn1_proc` is set.
unfoldable pub asgn1_exit_module : Bool → Device → List Call × Device
asgn1_exit_module has_proc d = (
  release device
      ∷ release class
      ∷ ((if has_proc then release proc_entry ∷ [] else [])
          ++ (release cdev ∷ release region ∷ [])),
  free_memory_pages d,
)
