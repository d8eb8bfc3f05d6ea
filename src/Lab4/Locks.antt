-- ===== src/Lab4/Locks.antt =====
-- Lab4/4.1.1 and Lab4/4.1.2: two modules that share a lock of a third, lab1_mutex1.c or semaphore1.c,
-- where it is free at first.
pub mod Exclusive
pub mod Ignored
use petulant_wookie.Base.{ℕ, ◌+◌, ◌<◌, ◌≡◌, Bool, true, false, if◌then◌else◌, ℤ, pos, negsuc}

-- The kernel's lock: `down_interruptible` or `mutex_lock_interruptible`, by whether a signal ends its
-- sleep, gives whether its result is not 0; `up` or `mutex_unlock`; and how many may still take it.
pub record LockKernel (L : Type 0) : Type 0 where
  pub lock_interruptible : Bool → L → Bool × L
  pub unlock : L → L
  pub units : L → ℕ

-- A call that a signal ends changes nothing, one that returns otherwise has taken a unit, and a lock
-- that is taken is free after it is given back.
pub record IsLock {L : Type 0} (k : LockKernel L) : Type 0 where
  pub killed : (l : L) → k.lock_interruptible true l ≡ (true, l)
  pub taken :
      (l : L)
      → 0 < k.units l
      → (l' : L) × (k.lock_interruptible false l ≡ (false, l')) × (k.units l' + 1 ≡ k.units l)
  pub given : (l : L) → k.units l ≡ 0 → k.units (k.unlock l) ≡ 1

module _ {L : Type 0} (k : LockKernel L) where
  -- `my_init` of semaphore2.c: its result and the lock; and `my_exit`.
  unfoldable pub semaphore2_init : Bool → L → ℤ × L
  semaphore2_init signal l =
      let (interrupted, l') = k.lock_interruptible signal l in
      if interrupted then (negsuc 511, l') else (pos 0, l')

  unfoldable pub semaphore2_exit : L → L
  semaphore2_exit l = k.unlock l

  -- The same of semaphore3.c.
  unfoldable pub semaphore3_init : Bool → L → ℤ × L
  semaphore3_init signal l =
      let (interrupted, l') = k.lock_interruptible signal l in
      if interrupted then (negsuc 511, l') else (pos 0, l')

  unfoldable pub semaphore3_exit : L → L
  semaphore3_exit l = k.unlock l

  -- Of lab1_mutex2.c, which does not look at the result of `mutex_lock_interruptible`.
  unfoldable pub mutex2_init : Bool → L → ℤ × L
  mutex2_init signal l = let (interrupted, l') = k.lock_interruptible signal l in (pos 0, l')

  unfoldable pub mutex2_exit : L → L
  mutex2_exit l = k.unlock l

  -- And of lab1_mutex3.c.
  unfoldable pub mutex3_init : Bool → L → ℤ × L
  mutex3_init signal l =
      let (interrupted, l') = k.lock_interruptible signal l in
      if interrupted then (negsuc 0, l') else (pos 0, l')

  unfoldable pub mutex3_exit : L → L
  mutex3_exit l = k.unlock l

-- The two modules, by the numbers in their names.
pub data Number : Type 0 where
  second third : Number

pub record Modules (L : Type 0) : Type 0 where
  pub init : Number → Bool → L → ℤ × L
  pub exit : Number → L → L

abbrev pub semaphores_init : {L : Type 0} → LockKernel L → Number → Bool → L → ℤ × L
semaphores_init k second = semaphore2_init k
semaphores_init k third = semaphore3_init k

abbrev pub semaphores_exit : {L : Type 0} → LockKernel L → Number → L → L
semaphores_exit k second = semaphore2_exit k
semaphores_exit k third = semaphore3_exit k

abbrev pub semaphores : {L : Type 0} → LockKernel L → Modules L
semaphores k = record { init = semaphores_init k; exit = semaphores_exit k }

abbrev pub mutexes_init : {L : Type 0} → LockKernel L → Number → Bool → L → ℤ × L
mutexes_init k second = mutex2_init k
mutexes_init k third = mutex3_init k

abbrev pub mutexes_exit : {L : Type 0} → LockKernel L → Number → L → L
mutexes_exit k second = mutex2_exit k
mutexes_exit k third = mutex3_exit k

abbrev pub mutexes : {L : Type 0} → LockKernel L → Modules L
mutexes k = record { init = mutexes_init k; exit = mutexes_exit k }

-- The lock, and which of the modules is loaded.
pub record System (L : Type 0) : Type 0 where
  pub lock : L
  pub second_loaded : Bool
  pub third_loaded : Bool

unfoldable pub is_loaded : {L : Type 0} → Number → System L → Bool
is_loaded second s = s.second_loaded
is_loaded third s = s.third_loaded

unfoldable pub set_loaded : {L : Type 0} → Number → Bool → L → System L → System L
set_loaded second b l s = record s { lock = l; second_loaded = b }
set_loaded third b l s = record s { lock = l; third_loaded = b }

-- `insmod` of a module that is not loaded, whose init returns once it has the lock or a signal comes,
-- and `rmmod`.
pub data Step {L : Type 0} (k : LockKernel L) (m : Modules L) (s : System L)
    : System L → Type 0 where
  loads :
      (n : Number) (signal : Bool) (l : L)
      → is_loaded n s ≡ false
      → (signal ≡ false → 0 < k.units s.lock)
      → m.init n signal s.lock ≡ (pos 0, l)
      → Step k m s (set_loaded n true l s)
  refused :
      (n : Number) (signal : Bool) (e : ℕ) (l : L)
      → is_loaded n s ≡ false
      → (signal ≡ false → 0 < k.units s.lock)
      → m.init n signal s.lock ≡ (negsuc e, l)
      → Step k m s (record s { lock = l })
  unloads :
      (n : Number) → is_loaded n s ≡ true → Step k m s (set_loaded n false (m.exit n s.lock) s)

pub data Reach {L : Type 0} (k : LockKernel L) (m : Modules L) (s : System L)
    : System L → Type 0 where
  here : Reach k m s s
  later : {t u : System L} → Reach k m s t → Step k m t u → Reach k m s u

abbrev pub none_loaded : {L : Type 0} → L → System L
none_loaded l = record { lock = l; second_loaded = false; third_loaded = false }
