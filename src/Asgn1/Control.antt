-- ===== src/Asgn1/Control.antt =====
-- asgn1/asgn1.c: `asgn1_lseek`, `asgn1_ioctl`, `asgn1_read_procmem` and `asgn1_mmap`.
pub mod Seek
pub mod Ioctl
pub mod Mmap
use petulant_wookie.Base.{
  ℕ, zero, suc, ◌+◌, ◌-◌, ◌*◌, ◌^◌, List, [], ◌∷◌, ◌++◌, Option, none, some, Bool, true, false, not,
  ◌&&◌, add_size, sub_size, mul_size, ltb, leb, ◌==◌, if◌then◌else◌, ℤ, pos, ltb_ℤ, leb_ℤ,
  wrap_loff, ◌+ℤ◌, length,
}
use petulant_wookie.Kernel.{Kernel, Ret, ok, fail, Errno, einval, efault, enotty}
use petulant_wookie.Asgn1.Device.{Device, Page}

-- The `cmd` of `asgn1_lseek`: the three cases of its switch, or none of them.
pub data Whence : Type 0 where
  seek_set seek_cur seek_end other : Whence

-- `asgn1_lseek(file, offset, cmd)`: the result and `file->f_pos`, which are one number.
unfoldable pub test_position : ℕ → ℤ → ℤ → Whence → ℤ
test_position buffer_size f_pos offset seek_set = offset
test_position buffer_size f_pos offset seek_cur = wrap_loff (f_pos +ℤ offset)
test_position buffer_size f_pos offset seek_end = wrap_loff (pos buffer_size +ℤ offset)
test_position buffer_size f_pos offset other = pos 0

-- The two tests that bring `testpos` back between 0 and `buffer_size`.
unfoldable pub clamp_position : ℕ → ℤ → ℤ
clamp_position buffer_size testpos =
    let not_negative = if ltb_ℤ testpos (pos 0) then pos 0 else testpos in
    if ltb_ℤ (pos buffer_size) not_negative then pos buffer_size else not_negative

unfoldable pub asgn1_lseek : ℕ → Device → ℤ → ℤ → Whence → ℤ
unfolding test_position clamp_position
asgn1_lseek page_size d f_pos offset cmd =
    let buffer_size = mul_size d.num_pages page_size in
    clamp_position buffer_size (test_position buffer_size f_pos offset cmd)

-- What `asgn1_ioctl` takes from the kernel: the macros `_IOC_TYPE` and `_IOC_NR`, the test
-- `access_ok`, and `__get_user`, which reads an `int` at an address or fails.
pub record IoctlKernel : Type 0 where
  pub ioc_type : ℕ → ℕ
  pub ioc_nr : ℕ → ℕ
  pub access_ok : ℕ → Bool
  pub get_user : ℕ → Option ℤ

-- `MYIOC_TYPE` and `SET_NPROC_OP`
abbrev pub myioc_type : ℕ
myioc_type = b'k'

abbrev pub set_nproc_op : ℕ
set_nproc_op = 1

pub set_nprocs : Option ℤ → Device → Ret × Device
set_nprocs none d = (fail efault, d)
set_nprocs (some new_nprocs) d =
    if leb_ℤ new_nprocs (pos 0)
    then (fail einval, d)
    else (ok 0, record d { max_nprocs = new_nprocs })

unfoldable pub asgn1_ioctl : IoctlKernel → ℕ → ℕ → Device → Ret × Device
unfolding set_nprocs
asgn1_ioctl k cmd arg d =
    if not (k.ioc_type cmd == myioc_type)
    then (fail einval, d)
    else (if k.ioc_nr cmd == set_nproc_op
        then (if not (k.access_ok arg) then (fail efault, d) else set_nprocs (k.get_user arg) d)
        else (fail enotty, d))

-- What `asgn1_read_procmem` prints, in the order of its format, and `*eof`.
pub record ProcReport : Type 0 where
  pub num_pages : ℕ
  pub data_size : ℕ
  pub num_procs : ℤ
  pub max_procs : ℤ
  pub eof : ℕ

unfoldable pub asgn1_read_procmem : Device → ProcReport
asgn1_read_procmem d = record {
  num_pages = d.num_pages;
  data_size = d.data_size;
  num_procs = d.nprocs;
  max_procs = d.max_nprocs;
  eof = 1;
}

-- `struct vm_area_struct`
pub record Vma : Type 0 where
  pub vm_start : ℕ
  pub vm_end : ℕ
  pub vm_pgoff : ℕ

-- One `remap_pfn_range` of a page: the user's address and the page's place in the list.
pub record Mapping : Type 0 where
  pub address : ℕ
  pub index : ℕ

-- The loop over the pages, from the one with number `index` on; results of `remap_pfn_range` are
-- not looked at.
pub remap_pages : ℕ → Vma → ℕ → List Page → ℕ → List Mapping
remap_pages page_size vma offset [] index = []
remap_pages page_size vma offset (_ ∷ ps) index =
    let rest = remap_pages page_size vma offset ps (index + 1) in
    let address = add_size vma.vm_start (mul_size index page_size) in
    if leb offset index && ltb address vma.vm_end
    then record { address = address; index = index } ∷ rest
    else rest

-- `asgn1_mmap(filp, vma)`: the result and the mappings that it made. `<< PAGE_SHIFT` is a product by
-- the page size.
unfoldable pub asgn1_mmap : ℕ → Device → Vma → Ret × List Mapping
unfolding remap_pages
asgn1_mmap page_size d vma =
    let offset = mul_size vma.vm_pgoff page_size in
    let len = sub_size vma.vm_end vma.vm_start in
    let ramdisk_size = mul_size d.num_pages page_size in
    if ltb ramdisk_size len
    then (fail einval, [])
    else (if ltb d.num_pages offset
        then (fail einval, [])
        else (ok 0, remap_pages page_size vma offset d.mem_list 0))
