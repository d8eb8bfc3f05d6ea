-- ===== src/Asgn1/Device.antt =====
-- asgn1/asgn1.c: the device's state, `free_memory_pages`, `asgn1_open` and `asgn1_release`.
pub mod Free
use petulant_wookie.Base.{
  Bool, ℕ, ◌-◌, ◌*◌, ◌%◌, ◌≤◌, ◌<◌, ◌^◌, ◌≡◌, List, [], ◌∷◌, length, AllLength, ℤ, pos, leb_ℤ,
  wrap_int, ◌+ℤ◌, ◌-ℤ◌, if◌then◌else◌, ◌==◌,
}
use petulant_wookie.Kernel.{ebusy, Ret, ok, fail}

-- The bytes of a `struct page`.
abbrev pub Page : Type 0
Page = List ℕ

-- `asgn1_dev`, with the nodes of `mem_list` by their pages: a node is linked only with a page.
-- `live_nodes` and `live_pages` are the kernel's count of the nodes and pages that the module has
-- allocated and not freed.
pub record Device : Type 0 where
  pub mem_list : List Page
  pub num_pages : ℕ
  pub data_size : ℕ
  pub nprocs : ℤ
  pub max_nprocs : ℤ
  pub live_nodes : ℕ
  pub live_pages : ℕ

-- The loop of `free_memory_pages`.
free_nodes : List Page → Device → Device
free_nodes [] d = d
free_nodes (_ ∷ rest) d =
    free_nodes rest
      (record d { mem_list = rest; live_nodes = d.live_nodes - 1; live_pages = d.live_pages - 1 })

unfoldable pub free_memory_pages : Device → Device
unfolding free_nodes
free_memory_pages d = record (free_nodes d.mem_list d) { data_size = 0; num_pages = 0 }

-- `f_flags & O_ACCMODE`, and its values.
abbrev pub acc_mode : ℕ → ℕ
acc_mode flags = flags % 4

abbrev pub o_rdonly : ℕ
o_rdonly = 0

abbrev pub o_wronly : ℕ
o_wronly = 1

-- The test of `asgn1_open`, its two reads of the atomics taken together.
abbrev pub is_full : Device → Bool
is_full d = leb_ℤ d.max_nprocs d.nprocs

-- `asgn1_open` from `atomic_inc` on.
unfoldable pub enter : ℕ → Device → Device
enter f_flags d =
    let opened = record d { nprocs = wrap_int (d.nprocs +ℤ pos 1) } in
    if acc_mode f_flags == o_wronly then free_memory_pages opened else opened

unfoldable pub asgn1_open : ℕ → Device → Ret × Device
asgn1_open f_flags d = if is_full d then (fail ebusy, d) else (ok 0, enter f_flags d)

unfoldable pub asgn1_release : Device → Ret × Device
asgn1_release d = (ok 0, record d { nprocs = wrap_int (d.nprocs -ℤ pos 1) })

-- The page list is what the counters say, pages are whole, and the data lies in the pages.
pub record IsValid (page_size : ℕ) (d : Device) : Type 0 where
  pub counted : d.num_pages ≡ length d.mem_list
  pub whole : AllLength page_size d.mem_list
  pub within : d.data_size ≤ d.num_pages * page_size
  pub fits : d.num_pages * page_size < 2 ^ 32
