-- ===== src/Asgn2/Device.antt =====
-- asgn2/asgn_2.c: the device's state, `free_memory_pages`, `asgn2_open`, `asgn2_release`,
-- `asgn2_ioctl` and `asgn2_read_procmem`.
pub mod Open
use petulant_wookie.Base.{
  ℕ, ◌%◌, List, [], ◌∷◌, Option, none, some, Bool, not, ℤ, pos, leb_ℤ, wrap_int, ◌+ℤ◌, ◌-ℤ◌,
  if◌then◌else◌, ◌==◌, ◌&&◌,
}
use petulant_wookie.Kernel.{Ret, ok, fail, einval, efault, enotty, eacces}
use petulant_wookie.Asgn1.Device.{Page}
use petulant_wookie.Asgn1.Control.{IoctlKernel, myioc_type, set_nproc_op, ProcReport}
use petulant_wookie.Asgn2.Port.{CircBuffer}

-- `page_queue_type`
pub record PageQueue : Type 0 where
  pub head_index : ℤ
  pub tail_index : ℤ
  pub head_offset : ℕ
  pub tail_offset : ℕ

-- The globals: `asgn2_device`, `page_queue`, `circ_buffer`, the two flags and `null_location`.
pub record State : Type 0 where
  pub mem_list : List Page
  pub num_pages : ℕ
  pub data_size : ℕ
  pub nprocs : ℤ
  pub max_nprocs : ℤ
  pub page_queue : PageQueue
  pub circ_buffer : CircBuffer
  pub null_flag : ℕ
  pub wait_flag : ℕ
  pub null_location : ℤ

-- The equality test of two `int`s.
abbrev pub eq_ℤ : ℤ → ℤ → Bool
eq_ℤ a b = leb_ℤ a b && leb_ℤ b a

-- The loop of `free_memory_pages`.
pub free_nodes : List Page → State → State
free_nodes [] s = s
free_nodes (_ ∷ rest) s = free_nodes rest (record s { mem_list = rest })

unfoldable pub free_memory_pages : State → State
unfolding free_nodes
free_memory_pages s = record (free_nodes s.mem_list s) { data_size = 0; num_pages = 0 }

-- What a call of `asgn2_open` does: it sleeps until no process has the device, or it returns.
pub data Opening : Type 0 where
  sleeping : Opening
  opened : Ret → State → Opening

-- `asgn2_open` once the wait is over, by the wake-up or by a signal, whose result is not looked at.
pub open_awake : ℕ → State → Ret × State
open_awake f_flags s =
    let entered = record s { nprocs = wrap_int (s.nprocs +ℤ pos 1) } in
    if f_flags % 4 == 0 then (ok 0, entered) else (fail eacces, entered)

-- `asgn2_open`: the test before the wait guards a message only.
unfoldable pub asgn2_open : ℕ → State → Opening
unfolding open_awake
asgn2_open f_flags s =
    let (r, s') = open_awake f_flags s in if eq_ℤ s.nprocs (pos 0) then opened r s' else sleeping

unfoldable pub asgn2_release : State → Ret × State
asgn2_release s = (ok 0, record s { null_flag = 0; nprocs = wrap_int (s.nprocs -ℤ pos 1) })

pub set_nprocs : Option ℤ → State → Ret × State
set_nprocs none s = (fail efault, s)
set_nprocs (some new_nprocs) s =
    if leb_ℤ new_nprocs (pos 0)
    then (fail einval, s)
    else (ok 0, record s { max_nprocs = new_nprocs })

unfoldable pub asgn2_ioctl : IoctlKernel → ℕ → ℕ → State → Ret × State
unfolding set_nprocs
asgn2_ioctl k cmd arg s =
    if not (k.ioc_type cmd == myioc_type)
    then (fail einval, s)
    else (if k.ioc_nr cmd == set_nproc_op
        then (if not (k.access_ok arg) then (fail efault, s) else set_nprocs (k.get_user arg) s)
        else (fail enotty, s))

unfoldable pub asgn2_read_procmem : State → ProcReport
asgn2_read_procmem s = record {
  num_pages = s.num_pages;
  data_size = s.data_size;
  num_procs = s.nprocs;
  max_procs = s.max_nprocs;
  eof = 1;
}
