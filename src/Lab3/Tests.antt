-- ===== src/Lab3/Tests.antt =====
-- The modules of Lab3 on a ramdisk of 16 pages of two bytes: runs, and the theorems at inputs.
use petulant_wookie.Base.{
  ◌+◌, ◌<◌, overwrite, ap, ◌∙◌, ◌==◌, if◌then◌else◌, some, ℕ, ◌/◌, ◌≡◌, refl, List, [], ◌∷◌, ◌++◌,
  true, pos, negsuc, ◌+ℤ◌, ◌-ℤ◌, pos_part, arith,
}
use petulant_wookie.Kernel.{Kernel, IsKernel, done, overrun, ok, no_node}
use petulant_wookie.Asgn1.Device.{Device}
use petulant_wookie.Asgn1.Control.{seek_set, seek_cur, seek_end, asgn1_lseek}
use petulant_wookie.Lab3.Seek.{Ramdisk, Transfer, mycdrv_read, mycdrv_write, mycdrv_lseek}
use petulant_wookie.Lab3.Seek.Copy.{IsRamdisk}
use petulant_wookie.Lab3.Seek.Session.{
  Session, start, later, seeks, InRamdisk, Reach-InRamdisk, mycdrv_read-mycdrv_write,
}
use petulant_wookie.Lab3.Seek.Beyond.{mycdrv_read-mycdrv_write_beyond}
use petulant_wookie.Lab3.Generic.{mycdrv_generic_write, mycdrv_generic_lseek}
use petulant_wookie.Lab3.Generic.Lseek.{mycdrv_generic_lseek-asgn1_lseek}
use petulant_wookie.Lab3.MyList.{ListKernel, IsList, my_init, my_exit}
use petulant_wookie.Lab3.MyList.Freed.{count_from, live, freed, my_exit-my_init}
use petulant_wookie.Lab3.WaitEvent
use petulant_wookie.Lab3.WaitEvent.Wake.{Reach-Attended}
use petulant_wookie.Lab3.WaitEvent.Served.{wake_up_lost}

-- A kernel that copies all but half of what it is asked for, and one that copies all.
abbrev half_kernel : Kernel
half_kernel = record { page_size = 2; left = λ i n. n / 2; alloc = λ i. no_node }

abbrev whole_kernel : Kernel
whole_kernel = record half_kernel { left = λ i n. 0 }

half_kernel-IsKernel : IsKernel half_kernel
half_kernel-IsKernel = record {
  page_pos = omega arith;
  page_many = omega arith;
  page_small = omega arith;
  left_le = λ i n. omega arith;
  fills = λ i. tt;
}

whole_kernel-IsKernel : IsKernel whole_kernel
whole_kernel-IsKernel = record {
  page_pos = omega arith;
  page_many = omega arith;
  page_small = omega arith;
  left_le = λ i n. omega arith;
  fills = λ i. tt;
}

abbrev eight : List ℕ
eight = 1 ∷ 2 ∷ 3 ∷ 4 ∷ 5 ∷ 6 ∷ 7 ∷ 8 ∷ []

abbrev disk : Ramdisk
disk = eight ++ (eight ++ (eight ++ eight))

disk-IsRamdisk : IsRamdisk 2 disk
disk-IsRamdisk = record { size = refl; small = omega arith }

read_runs :
    mycdrv_read half_kernel disk 5 (pos 30)
    ≡ done (record { nbytes = pos 1; f_pos = pos 31; bytes = 7 ∷ [] })
unfolding mycdrv_read ◌-ℤ◌ ◌+ℤ◌
read_runs = refl

-- After a seek to two bytes before the end.
abbrev sought : Session
sought = record { ramdisk = disk; f_pos = (mycdrv_lseek 2 (pos 0) (pos 0) (negsuc 1) seek_end).1 }

Reach-InRamdisk_example :
    InRamdisk 2 sought
    × ((t : Transfer) × (mycdrv_read half_kernel disk 5 sought.f_pos ≡ done t))
    × ((t : Transfer) × (mycdrv_write half_kernel disk eight 5 sought.f_pos ≡ done t))
Reach-InRamdisk_example =
    Reach-InRamdisk half_kernel eight 5 disk-IsRamdisk half_kernel-IsKernel refl
      (later start (seeks (pos 0) (negsuc 1) seek_end))

-- Eight bytes at 28, of which two are copied.
mycdrv_read-mycdrv_write_example :
    (w : Transfer) × (mycdrv_write half_kernel disk eight 8 (pos 28) ≡ done w)
    × (mycdrv_lseek 2 (pos 0) w.f_pos (pos 28) seek_set ≡ (ok 28, pos 28))
    × (mycdrv_read whole_kernel w.bytes 2 (pos 28)
        ≡ done (record { nbytes = w.nbytes; f_pos = w.f_pos; bytes = 1 ∷ 2 ∷ [] }))
mycdrv_read-mycdrv_write_example =
    mycdrv_read-mycdrv_write half_kernel whole_kernel disk eight 28 (pos 0) half_kernel-IsKernel
      whole_kernel-IsKernel refl disk-IsRamdisk (omega arith) (λ n. refl)

mycdrv_read-mycdrv_write_beyond_example :
    (mycdrv_read half_kernel disk 5 (pos 40) ≡ overrun)
    × (mycdrv_write half_kernel disk eight 5 (pos 40) ≡ overrun)
mycdrv_read-mycdrv_write_beyond_example =
    mycdrv_read-mycdrv_write_beyond half_kernel disk eight 5 40 disk-IsRamdisk (omega arith)
      (omega arith) (omega arith) (omega arith)

-- A disk of asgn1 with as many bytes as the ramdisk.
abbrev same_size : Device
same_size = record {
  mem_list = [];
  num_pages = 16;
  data_size = 0;
  nprocs = pos 0;
  max_nprocs = pos 1;
  live_nodes = 0;
  live_pages = 0;
}

mycdrv_generic_lseek-asgn1_lseek_example : mycdrv_generic_lseek 2 (pos 30) (pos 5) seek_cur ≡ (
  ok (pos_part (asgn1_lseek 2 same_size (pos 30) (pos 5) seek_cur)),
  asgn1_lseek 2 same_size (pos 30) (pos 5) seek_cur,
)
mycdrv_generic_lseek-asgn1_lseek_example =
    mycdrv_generic_lseek-asgn1_lseek 2 same_size (pos 30) (pos 5) seek_cur (λ e. cc) refl

abbrev fresh : WaitEvent.Device
fresh = record { ramdisk = disk; data_ready = 0 }

-- Two readers sleep.
abbrev two_sleep : WaitEvent.System
two_sleep = record (WaitEvent.loaded fresh) { asleep = 2 }

-- An empty write wakes one of them.
empty_write :
    WaitEvent.mycdrv_write whole_kernel fresh [] 0 (pos 0)
    ≡ done (record { nbytes = pos 0; f_pos = pos 0; bytes = disk }, record fresh { data_ready = 1 })
unfolding WaitEvent.mycdrv_write mycdrv_generic_write mycdrv_write ◌-ℤ◌ ◌+ℤ◌ overwrite
empty_write = refl

abbrev one_awake : WaitEvent.System
one_awake =
    WaitEvent.wake_up (record two_sleep { device = record fresh { data_ready = 1 }; writes = 1 })

one_woken : WaitEvent.Reach (WaitEvent.loaded fresh) one_awake
one_woken =
    WaitEvent.later
      (WaitEvent.later (WaitEvent.later WaitEvent.here (WaitEvent.sleeps refl))
        (WaitEvent.sleeps refl))
      (WaitEvent.writes whole_kernel [] 0 (pos 0)
        (record { nbytes = pos 0; f_pos = pos 0; bytes = disk }) (record fresh { data_ready = 1 })
        empty_write)

Reach-Attended_example : 0 < one_awake.woken + one_awake.past
unfolding WaitEvent.wake_up
Reach-Attended_example = Reach-Attended {d = fresh} refl one_woken refl (omega arith) (omega arith)

wake_up_lost_example :
    (s s1 s2 t : WaitEvent.System) × WaitEvent.Reach (WaitEvent.loaded fresh) s
    × (s.writes ≡ 0)
    × (s.asleep ≡ 4)
    × WaitEvent.Step s s1
    × (s1.writes ≡ 1)
    × (s1.asleep ≡ 3)
    × (s1.woken ≡ 1)
    × WaitEvent.Step s1 s2
    × (s2.woken ≡ 0)
    × (s2.past ≡ 1)
    × WaitEvent.Step s2 t
    × (t.gave_up ≡ 1)
    × (t.asleep ≡ 3)
    × (t.woken ≡ 0)
    × (t.past ≡ 0)
    × (t.completed ≡ 0)
    × (t.device.data_ready ≡ 1)
wake_up_lost_example =
    wake_up_lost whole_kernel eight 3 fresh whole_kernel-IsKernel disk-IsRamdisk refl

-- A list is the list of its nodes.
abbrev without : ℕ → List ℕ → List ℕ
without a [] = []
without a (x ∷ xs) = let others = without a xs in if x == a then xs else x ∷ others

abbrev some_lists : ListKernel (List ℕ)
some_lists = record { nodes = λ l. l; list_add_tail = λ a l. l ++ (a ∷ []); list_del = without }

deleted_first : (a : ℕ) (xs l : List ℕ) → l ≡ a ∷ xs → without a l ≡ xs
deleted_first a xs l e = ap (without a) e ∙ ground arith

some_lists-IsList : IsList some_lists
some_lists-IsList = record { added = λ a l. refl; deleted = deleted_first }

-- One block is in use before.
my_exit-my_init_example :
    (l1 l2 : List ℕ) × (my_init some_lists (λ v. true) [] (some 7 ∷ [])
      ≡ some (l1, some 7 ∷ live (count_from 0 5), 0 ∷ 1 ∷ 2 ∷ 3 ∷ 4 ∷ []))
    × (l1 ≡ 1 ∷ 2 ∷ 3 ∷ 4 ∷ 5 ∷ [])
    × (my_exit some_lists l1 (some 7 ∷ live (count_from 0 5))
        ≡ some (l2, some 7 ∷ freed (count_from 0 5), 0 ∷ 1 ∷ 2 ∷ 3 ∷ 4 ∷ []))
    × (l2 ≡ [])
my_exit-my_init_example =
    my_exit-my_init some_lists some_lists-IsList (λ v. true) [] (some 7 ∷ []) refl (λ i. refl)
