-- ===== src/Asgn1/Session/Tests.antt =====
-- Sessions with the device of asgn1/asgn1.c on pages of four bytes.
use petulant_wookie.Base.{
  ◌/◌, ◌≡◌, refl, List, [], ◌∷◌, some, pos, overwrite, false, min_int, ◌+ℤ◌, arith,
}
use petulant_wookie.Kernel.{Kernel, IsKernel, ok, page}
use petulant_wookie.Asgn1.Device.{Device, enter, asgn1_open}
use petulant_wookie.Asgn1.Read.{asgn1_read}
use petulant_wookie.Asgn1.Write.{asgn1_write}
use petulant_wookie.Asgn1.Module.{reset}
use petulant_wookie.Asgn1.File.{Event, opens, reads, writes, File, History}
use petulant_wookie.Asgn1.Session.{
  Session, loaded, next, open_call, read_call, write_call, Abstracts,
}
use petulant_wookie.Asgn1.Session.Refines.{new_file, Session-History}

-- A kernel that copies all but half of what it is asked for, and has memory.
abbrev half_kernel : Kernel
half_kernel = record { page_size = 4; left = λ i n. n / 2; alloc = λ i. page (9 ∷ 9 ∷ 9 ∷ 9 ∷ []) }

half_kernel-IsKernel : IsKernel half_kernel
half_kernel-IsKernel = record {
  page_pos = omega arith;
  page_many = omega arith;
  page_small = omega arith;
  left_le = λ i n. omega arith;
  fills = λ i. refl;
}

abbrev any_device : Device
any_device = record {
  mem_list = [];
  num_pages = 0;
  data_size = 0;
  nprocs = pos 0;
  max_nprocs = pos 0;
  live_nodes = 0;
  live_pages = 0;
}

abbrev first_open : Device
first_open = record any_device { nprocs = pos 1; max_nprocs = pos 1 }

abbrev one_page : Device
one_page = record first_open {
  mem_list = (9 ∷ 21 ∷ 22 ∷ 9 ∷ []) ∷ [];
  num_pages = 1;
  data_size = 3;
  live_nodes = 1;
  live_pages = 1;
}

write_runs : asgn1_write half_kernel 20 first_open (21 ∷ 22 ∷ []) 2 1 ≡ some (ok 2, one_page, 3)
unfolding asgn1_write min_int overwrite
write_runs = refl

read_runs :
    asgn1_read half_kernel 4 one_page 9 0
    ≡ some (record { f_pos = 3; actual_size = 0; size_read = 3; buf = 9 ∷ 21 ∷ 22 ∷ []; calls = 2 })
unfolding asgn1_read min_int
read_runs = refl

-- An open, a write of two bytes at 1, and a read of all, the last first.
abbrev events : List Event
events =
    reads 9 0 (ok 3) (9 ∷ 21 ∷ 22 ∷ []) 3
    ∷ writes (21 ∷ 22 ∷ []) 1 (ok 2) 3
    ∷ opens false (ok 0)
    ∷ []

session : Session 4 (reset any_device) events one_page
unfolding asgn1_open enter reset ◌+ℤ◌
session =
    next
      (next (next loaded (open_call 2)) (
        write_call half_kernel 20 1 3 (21 ∷ 22 ∷ []) (ok 2) one_page half_kernel-IsKernel
          (λ i n h. omega arith) refl (omega arith) (omega arith) (omega arith) (omega arith)
          write_runs))
      (read_call half_kernel 4 9 0
        (record { f_pos = 3; actual_size = 0; size_read = 3; buf = 9 ∷ 21 ∷ 22 ∷ []; calls = 2 })
        half_kernel-IsKernel (λ i n h. omega arith) refl (omega arith) (omega arith) read_runs)

Session-History_example : (s : File) × History new_file events s × Abstracts 4 one_page s
Session-History_example = Session-History any_device session
