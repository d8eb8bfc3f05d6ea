-- ===== src/Asgn2/Module.antt =====
-- asgn2/asgn_2.c: `asgn2_init_module` and `asgn2_exit_module`.
pub mod Balance
use petulant_wookie.Base.{ℕ, List, [], ◌∷◌, ◌++◌, Bool, true, false, not, if◌then◌else◌, ℤ, pos}
use petulant_wookie.Driver.{
  Resource, region, cdev, proc_entry, class, device, irq, Call, acquire, release, is_zero, Answers,
  Init, started, failed, uses_null, errno, enomem, acquired,
}
use petulant_wookie.Asgn2.Device.{State, PageQueue, free_memory_pages}
use petulant_wookie.Asgn2.Gpio.{GpioAnswers, gpio_dummy_init, gpio_dummy_exit}

-- The assignments to the globals on the path of success.
unfoldable pub reset : State → State
reset s = record s {
  mem_list = [];
  nprocs = pos 0;
  max_nprocs = pos 1;
  num_pages = 0;
  data_size = 0;
  circ_buffer = record s.circ_buffer { head = 0; tail = 0 };
  page_queue = record { head_index = pos 0; tail_index = pos 0; head_offset = 0; tail_offset = 0 };
  null_flag = 0;
  wait_flag = 1;
}

-- `fail_device`, by the value of `failstep`.
pub data Failstep : Type 0 where
  unset step_device step_proc step_cdev : Failstep

pub fail_device : Failstep → List Call
fail_device unset = []
fail_device step_device = release proc_entry ∷ release cdev ∷ release region ∷ []
fail_device step_proc = release cdev ∷ release region ∷ []
fail_device step_cdev = release region ∷ []

-- From the entry in /proc on. The result of `gpio_dummy_init` is not looked at.
pub add_proc : Answers → GpioAnswers → Init
add_proc a g =
    if not a.create_proc_entry
    then failed enomem (acquire region ∷ acquire cdev ∷ fail_device step_proc)
    else (let calls =
          acquire region
          ∷ acquire cdev
          ∷ acquire proc_entry
          ∷ ((gpio_dummy_init g).calls ++ acquired a.class_create class) in
        if a.device_create
        then started (calls ++ (acquire device ∷ []))
        else failed enomem (calls ++ fail_device step_device))

-- `asgn2_init_module`: the result of `cdev_alloc` is used untested.
unfoldable pub asgn2_init_module : Answers → GpioAnswers → Init
unfolding add_proc fail_device
asgn2_init_module a g =
    if not (is_zero a.alloc_chrdev_region)
    then failed (errno a.alloc_chrdev_region) (fail_device unset)
    else (if not a.cdev_alloc
        then uses_null (acquire region ∷ [])
        else (if not (is_zero a.cdev_add)
            then failed (errno a.cdev_add) (acquire region ∷ acquire cdev ∷ fail_device step_cdev)
            else add_proc a g))

-- `asgn2_exit_module`, with whether `asgn2_proc` is set.
unfoldable pub asgn2_exit_module : Bool → State → List Call × State
asgn2_exit_module has_proc s = (
  release device
      ∷ release class
      ∷ ((if has_proc then release proc_entry ∷ [] else [])
          ++ (gpio_dummy_exit ++ (release cdev ∷ release region ∷ []))),
  free_memory_pages s,
)
