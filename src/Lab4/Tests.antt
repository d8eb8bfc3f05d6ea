-- ===== src/Lab4/Tests.antt =====
-- The modules of Lab4: runs, and the theorems at inputs.
use petulant_wookie.Base.{
  ℕ, ◌+◌, ◌-◌, ◌*◌, ◌/◌, ◌%◌, ◌≡◌, refl, List, [], ◌∷◌, Option, none, some, ℤ, pos, negsuc, true,
  false, if◌then◌else◌, arith,
}
use petulant_wookie.Kernel.{Kernel, no_node, done}
use petulant_wookie.Lab3.Seek.{Ramdisk}
use petulant_wookie.Lab4.PerOpen.{
  State, fine, double_free, use_after_free, mycdrv_open, mycdrv_release, mycdrv_read, mycdrv_write,
  my_exit,
}
use petulant_wookie.Lab4.PerOpen.Misuse.{mycdrv_release_dangling}
use petulant_wookie.Lab4.PerOpen.Leak.{Reach, here, later, releases, Stray, Reach-mycdrv_open}
use petulant_wookie.Lab4.Locks.{
  LockKernel, IsLock, mutexes, semaphores, System, second, loads, none_loaded, semaphore2_init,
}
use petulant_wookie.Lab4.Locks
use petulant_wookie.Lab4.Locks.Exclusive.{loaded_count, Reach-Exclusive}
use petulant_wookie.Lab4.Locks.Ignored.{mutex2_ignores}
use petulant_wookie.Lab4.Proc.{Format, my_proc_read, my_proc_write}
use petulant_wookie.Lab4.Proc.Parameter.{my_proc_read-my_proc_write}

abbrev one_byte_pages : Kernel
one_byte_pages = record { page_size = 1; left = λ i n. 0; alloc = λ i. no_node }

-- The same with a buffer that is not mapped.
abbrev unmapped : Kernel
unmapped = record one_byte_pages { left = λ i n. n }

abbrev disk : Ramdisk
disk = 1 ∷ 2 ∷ 3 ∷ 4 ∷ 5 ∷ 6 ∷ 7 ∷ 8 ∷ 9 ∷ 10 ∷ 11 ∷ 12 ∷ 13 ∷ 14 ∷ 15 ∷ 16 ∷ []

-- The module is loaded.
abbrev one_block : State
one_block = record { heap = some disk ∷ []; ramdisk = some 0 }

mycdrv_release_dangling_example :
    (s' : State) × (mycdrv_release one_block ≡ fine s')
    × (mycdrv_release s' ≡ double_free)
    × (my_exit s' ≡ double_free)
    × (mycdrv_read one_byte_pages s' 4 (pos 3) ≡ use_after_free)
    × (mycdrv_write one_byte_pages s' (7 ∷ []) 4 (pos 3) ≡ use_after_free)
mycdrv_release_dangling_example =
    mycdrv_release_dangling one_byte_pages one_block 0 disk (7 ∷ []) 4 3 refl refl
      (record { size = refl; small = omega arith }) (omega arith) (omega arith)

-- The device is opened and released: the block of `my_init` is lost.
released :
    Reach
      (mycdrv_open (some disk) one_block)
      (record { heap = some disk ∷ none ∷ []; ramdisk = some 1 })
unfolding mycdrv_open mycdrv_release
released = later here (releases refl)

Reach-mycdrv_open_example : Stray 0 disk (record { heap = some disk ∷ none ∷ []; ramdisk = some 1 })
Reach-mycdrv_open_example = Reach-mycdrv_open one_block 0 disk (some disk) refl released

-- A lock is the number of its units.
abbrev counting : LockKernel ℕ
counting = record {
  lock_interruptible = λ signal l. if signal then (true, l) else (false, l - 1);
  unlock = λ l. l + 1;
  units = λ l. l;
}

counting-IsLock : IsLock counting
counting-IsLock = record {
  killed = λ l. refl;
  taken = λ l h. (l - 1, refl, omega arith);
  given = λ l h. omega arith;
}

-- semaphore2 is loaded.
abbrev one_loaded : System ℕ
one_loaded = record { lock = 0; second_loaded = true; third_loaded = false }

load_one : Locks.Reach counting (semaphores counting) (none_loaded 1) one_loaded
unfolding Locks.is_loaded Locks.set_loaded semaphore2_init
load_one = Locks.later Locks.here (loads second false 0 refl (λ e. omega arith) refl)

Reach-Exclusive_example :
    (0 + loaded_count one_loaded ≡ 1)
    × (¬ ((one_loaded.second_loaded ≡ true) × (one_loaded.third_loaded ≡ true)))
Reach-Exclusive_example = Reach-Exclusive counting counting-IsLock 1 refl load_one

mutex2_ignores_example :
    (s t : System ℕ) × Locks.Reach counting (mutexes counting) (none_loaded 1) s
    × (s.second_loaded ≡ true)
    × (s.third_loaded ≡ true)
    × Locks.Reach counting (mutexes counting) s t
    × (t.third_loaded ≡ true)
    × (t.lock ≡ 1)
mutex2_ignores_example = mutex2_ignores counting counting-IsLock 1 refl

-- The text of a number of two digits, and the number that two digits and a newline are.
abbrev print : ℤ → List ℕ
print (pos n) = (48 + n / 10) ∷ (48 + n % 10) ∷ 10 ∷ []
print (negsuc n) = []

abbrev scan : List ℕ → Option ℤ
scan (a ∷ b ∷ c ∷ rest) = some (pos (10 * (a - 48) + (b - 48)))
scan rest = none

abbrev two_digits : Format
two_digits = record { sprintf = print; sscanf = scan }

my_proc_read-my_proc_write_example :
    (my_proc_write two_digits one_byte_pages true (57 ∷ []) (52 ∷ 50 ∷ 10 ∷ []) 3 (pos 100)
      ≡ done (pos 3, pos 42))
    × ((my_proc_read two_digits (pos 42)).page ≡ 52 ∷ 50 ∷ 10 ∷ [])
    × ((my_proc_read two_digits (pos 42)).ret ≡ pos 3)
    × (my_proc_write two_digits unmapped true (57 ∷ []) (52 ∷ 50 ∷ 10 ∷ []) 3 (pos 100)
        ≡ done (negsuc 13, pos 100))
my_proc_read-my_proc_write_example =
    my_proc_read-my_proc_write two_digits one_byte_pages unmapped (57 ∷ []) (pos 100) (pos 42)
      (λ rest. refl) (omega arith) (omega arith) refl (omega arith)
