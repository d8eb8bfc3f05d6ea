-- ===== src/Asgn1/Tests.antt =====
-- asgn1/asgn1.c on a disk of pages of four bytes: runs of the handlers, and the theorems at inputs.
use petulant_wookie.Driver.{Answers}
use petulant_wookie.Base.{
  ℕ, ◌/◌, ◌≤◌, ◌≡◌, refl, List, [], ◌∷◌, ◌++◌, take, some, none, true, false, pos, negsuc, ◌+ℤ◌,
  ◌-ℤ◌, min_int, arith, ◌==◌, if◌then◌else◌,
}
use petulant_wookie.Kernel.{Kernel, IsKernel, ok, page}
use petulant_wookie.Asgn1.Device.{Device, IsValid, enter, asgn1_release, free_memory_pages}
use petulant_wookie.Asgn1.Device.Free.{free_memory_pages_lem}
use petulant_wookie.Asgn1.Read.{Reading, asgn1_read}
use petulant_wookie.Asgn1.Read.Correct.{result, asgn1_read_lem}
use petulant_wookie.Asgn1.Read.Fault.{asgn1_read_fault}
use petulant_wookie.Asgn1.Write.{Written, asgn1_write}
use petulant_wookie.Asgn1.Write.Correct.{Outcome, asgn1_write_lem}
use petulant_wookie.Asgn1.RoundTrip.{asgn1_read-asgn1_write}
use petulant_wookie.Asgn1.Control.{seek_cur, asgn1_lseek, IoctlKernel, asgn1_ioctl, asgn1_mmap}
use petulant_wookie.Asgn1.Control.Seek.{nearest, requested, asgn1_lseek_lem}
use petulant_wookie.Asgn1.Control.Mmap.{consecutive, asgn1_mmap_lem}
use petulant_wookie.Asgn1.Access.{
  System, Reach, start, later, admit, count, leave, Counted, Reach-Counted,
}
use petulant_wookie.Asgn1.Access.Limit.{limit_exceeded}
use petulant_wookie.Posix.{wrote, File}
use petulant_wookie.Asgn1.Client.{returned, my_fread, my_fwrite}
use petulant_wookie.Asgn1.Client.Loops.{my_fwrite_lem}
use petulant_wookie.Asgn1.Client.Device.{asgn1_file, my_fread-my_fwrite}

-- A kernel that copies all but half of what it is asked for, and has memory.
abbrev small_kernel : Kernel
small_kernel = record { page_size = 4; left = λ i n. n / 2; alloc = λ i. page (9 ∷ 9 ∷ 9 ∷ 9 ∷ []) }

small_kernel-IsKernel : IsKernel small_kernel
small_kernel-IsKernel = record {
  page_pos = omega arith;
  page_many = omega arith;
  page_small = omega arith;
  left_le = λ i n. omega arith;
  fills = λ i. refl;
}

-- The same kernel with a buffer that is not mapped.
abbrev faulty_kernel : Kernel
faulty_kernel = record small_kernel { left = λ i n. n }

faulty_kernel-IsKernel : IsKernel faulty_kernel
faulty_kernel-IsKernel = record {
  page_pos = omega arith;
  page_many = omega arith;
  page_small = omega arith;
  left_le = λ i n. omega arith;
  fills = λ i. refl;
}

-- Two pages with six bytes of data.
abbrev two_pages : Device
two_pages = record {
  mem_list = (1 ∷ 2 ∷ 3 ∷ 4 ∷ []) ∷ (5 ∷ 6 ∷ 7 ∷ 8 ∷ []) ∷ [];
  num_pages = 2;
  data_size = 6;
  nprocs = pos 0;
  max_nprocs = pos 1;
  live_nodes = 2;
  live_pages = 2;
}

two_pages-IsValid : IsValid 4 two_pages
two_pages-IsValid = omega arith

read_runs :
    asgn1_read small_kernel 4 two_pages 9 3
    ≡ some (record { f_pos = 6; actual_size = 0; size_read = 3; buf = 4 ∷ 5 ∷ 6 ∷ []; calls = 3 })
unfolding asgn1_read min_int
read_runs = refl

asgn1_read_lem_example :
    (c : ℕ) × (asgn1_read small_kernel 4 two_pages 9 3 ≡ some (result two_pages 3 3 c))
asgn1_read_lem_example =
    asgn1_read_lem small_kernel 4 two_pages 9 3 small_kernel-IsKernel (λ i n h. omega arith)
      (omega arith) two_pages-IsValid (omega arith)

asgn1_read_fault_example : asgn1_read faulty_kernel 1000 two_pages 9 3 ≡ none
asgn1_read_fault_example =
    asgn1_read_fault faulty_kernel 1000 two_pages 9 3 faulty_kernel-IsKernel (λ i n. refl)
      two_pages-IsValid (omega arith) (omega arith) (omega arith)

abbrev message : List ℕ
message = 21 ∷ 22 ∷ 23 ∷ 24 ∷ 25 ∷ []

asgn1_write_lem_example :
    (r : Written) × (asgn1_write small_kernel 20 two_pages message 5 6 ≡ some r)
    × Outcome small_kernel two_pages message 6 r
asgn1_write_lem_example =
    asgn1_write_lem small_kernel 20 two_pages message 6 small_kernel-IsKernel (λ i n h. omega arith)
      (omega arith) (omega arith) two_pages-IsValid (omega arith) (omega arith)

asgn1_read-asgn1_write_example :
    (d' : Device) × (r : Reading) × (asgn1_write small_kernel 20 two_pages message 5 6
      ≡ some (ok 5, d', 11))
    × (asgn1_read small_kernel 20 d' 5 6 ≡ some r)
    × (r.buf ≡ message)
    × (r.size_read ≡ 5)
    × (r.f_pos ≡ 11)
asgn1_read-asgn1_write_example =
    asgn1_read-asgn1_write small_kernel 20 two_pages message 6 small_kernel-IsKernel
      (λ i n h. omega arith) (λ i h. h) (omega arith) (omega arith) two_pages-IsValid (omega arith)
      (omega arith)

free_memory_pages_lem_example : free_memory_pages two_pages ≡ record two_pages {
  mem_list = [];
  num_pages = 0;
  data_size = 0;
  live_nodes = 0;
  live_pages = 0;
}
free_memory_pages_lem_example = free_memory_pages_lem two_pages (omega arith) (omega arith)

-- From 6, ten bytes back: the start of the disk.
asgn1_lseek_lem_example : (asgn1_lseek 4 two_pages (pos 6) (negsuc 9) seek_cur ≡ pos 0) × (0 ≤ 8)
unfolding requested nearest ◌+ℤ◌
asgn1_lseek_lem_example =
    asgn1_lseek_lem 4 two_pages (pos 6) (negsuc 9) seek_cur two_pages-IsValid (omega arith)

-- The macros of the ioctl numbers as bytes of the command, and an argument that holds 12345.
abbrev some_ioctl : IoctlKernel
some_ioctl = record {
  ioc_type = λ cmd. cmd / 256;
  ioc_nr = λ cmd. if cmd == 0x6b01 then 1 else 0;
  access_ok = λ arg. true;
  get_user = λ arg. some (pos 12345);
}

ioctl_runs :
    asgn1_ioctl some_ioctl 0x6b01 0 two_pages ≡ (ok 0, record two_pages { max_nprocs = pos 12345 })
unfolding asgn1_ioctl
ioctl_runs = refl

asgn1_mmap_lem_example :
    asgn1_mmap 4 two_pages (record { vm_start = 100; vm_end = 108; vm_pgoff = 0 })
    ≡ (ok 0, consecutive 4 100 0 2)
asgn1_mmap_lem_example =
    asgn1_mmap_lem 4 two_pages 100 2 two_pages-IsValid (omega arith) (omega arith) (omega arith)

-- Two processes pass the test and are counted, and one leaves.
one_left :
    Reach 2 two_pages
      (record { device = record two_pages { nprocs = pos 1 }; admitted = 0; opened = 1 })
unfolding enter asgn1_release ◌+ℤ◌ ◌-ℤ◌
one_left =
    later
      (later
        (later (later (later start (admit refl (omega arith))) (admit refl (omega arith)))
          (count 0 (omega arith)))
        (count 0 (omega arith)))
      (leave (omega arith))

Reach-Counted_example :
    Counted 2 two_pages
      (record { device = record two_pages { nprocs = pos 1 }; admitted = 0; opened = 1 })
Reach-Counted_example = Reach-Counted (omega arith) refl one_left

limit_exceeded_example :
    (s : System) × Reach 7 two_pages s
    × (s.opened ≡ 5)
    × (s.device.nprocs ≡ pos 5)
    × (s.device.max_nprocs ≡ pos 1)
limit_exceeded_example = limit_exceeded 7 5 two_pages (omega arith) (omega arith) refl refl

-- The kernel refuses the udev device only.
abbrev no_device : Answers
no_device = record {
  alloc_chrdev_region = pos 0;
  cdev_alloc = true;
  cdev_add = pos 0;
  create_proc_entry = true;
  class_create = true;
  device_create = false;
}

-- A file that takes one byte at a time.
abbrev slow_file : File (List ℕ)
slow_file = record { read = λ n out. none; write = λ bs out. some (wrote 1, out ++ take 1 bs) }

my_fwrite_lem_example :
    (s' : List ℕ) × (my_fwrite slow_file 5 message 5 [] ≡ some (returned (pos 5) [], s'))
    × (s' ≡ message)
my_fwrite_lem_example =
    my_fwrite_lem slow_file (λ out. out) 5 message []
      (λ bs out h. (1, out ++ take 1 bs, refl, omega arith, omega arith, refl)) (omega arith)
      (omega arith)

my_fread-my_fwrite_example :
    (d' : Device) × (my_fwrite (asgn1_file small_kernel 20) 1 message 5 (two_pages, 6)
      ≡ some (returned (pos 5) [], (d', 11)))
    × (my_fread (asgn1_file small_kernel 20) 1 5 (d', 6)
        ≡ some (returned (pos 5) message, (d', 11)))
my_fread-my_fwrite_example =
    my_fread-my_fwrite small_kernel 20 1 two_pages message 6 small_kernel-IsKernel
      (λ i n h. omega arith) (λ i h. h) (omega arith) (omega arith) (omega arith) two_pages-IsValid
      (omega arith) (omega arith) (omega arith)
