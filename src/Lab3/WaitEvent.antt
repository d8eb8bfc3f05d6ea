-- ===== src/Lab3/WaitEvent.antt =====
-- Lab3/3.2.1/wait_event.c: a reader of the ramdisk sleeps until a writer wakes it.
pub mod Wake
pub mod Served
use petulant_wookie.Base.{
  ℕ, ◌+◌, ◌-◌, ◌<◌, ◌≡◌, ◌≢◌, List, Bool, true, false, ltb, ◌==◌, if◌then◌else◌, ℤ,
}
use petulant_wookie.Kernel.{Kernel, Run, done, running, overrun}
use petulant_wookie.Lab3.Seek.{Ramdisk, Transfer, Loading}
use petulant_wookie.Lab3.Generic.{mycdrv_generic_read, mycdrv_generic_write, my_generic_init}

-- The ramdisk and the global `data_ready`.
pub record Device : Type 0 where
  pub ramdisk : Ramdisk
  pub data_ready : ℕ

-- What a read returns: a transfer, or -ERESTARTSYS.
pub data Returned : Type 0 where
  given : Transfer → Returned
  restarts : Returned

unfoldable pub give : Device → Run Transfer → Run (Returned × Device)
give d (done t) = done (given t, d)
give d running = running
give d overrun = overrun

-- `mycdrv_read` from the return of the wait on, with `signal_pending(current)`.
unfoldable pub read_awake : Kernel → Bool → Device → ℕ → ℤ → Run (Returned × Device)
unfolding give
read_awake k signal_pending d lbuf ppos =
    if signal_pending
    then done (restarts, d)
    else give (record d { data_ready = 0 }) (mycdrv_generic_read k d.ramdisk lbuf ppos)

unfoldable pub stored : Device → Run Transfer → Run (Transfer × Device)
stored d (done t) = done (t, record d { ramdisk = t.bytes; data_ready = 1 })
stored d running = running
stored d overrun = overrun

-- `mycdrv_write` up to the wake-up.
unfoldable pub mycdrv_write : Kernel → Device → List ℕ → ℕ → ℤ → Run (Transfer × Device)
unfolding stored
mycdrv_write k d buf lbuf ppos = stored d (mycdrv_generic_write k d.ramdisk buf lbuf ppos)

-- `my_init`, with the answers of `kmalloc` and `misc_register`.
unfoldable pub my_init : Bool → Bool → Device → Loading × Device
my_init kmalloc misc_register d =
    (my_generic_init kmalloc misc_register, record d { data_ready = 0 })

-- The processes in `mycdrv_read`: those asleep in the wait queue, those that were woken and have not
-- tested `data_ready` again, and those past the wait; how many writes and completed reads there were,
-- and how many reads were past the wait and returned for a signal.
pub record System : Type 0 where
  pub device : Device
  pub asleep : ℕ
  pub woken : ℕ
  pub past : ℕ
  pub writes : ℕ
  pub completed : ℕ
  pub gave_up : ℕ

-- `wake_up_interruptible(&wq)`: the sleepers are exclusive, so one of them is woken.
unfoldable pub wake_up : System → System
wake_up s = if ltb 0 s.asleep then record s { asleep = s.asleep - 1; woken = s.woken + 1 } else s

-- One step of some process. A wait ends at once where the condition holds, and otherwise with a
-- wake-up after which it holds, or with a signal.
pub data Step (s : System) : System → Type 0 where
  passes : s.device.data_ready ≢ 0 → Step s (record s { past = s.past + 1 })
  sleeps : s.device.data_ready ≡ 0 → Step s (record s { asleep = s.asleep + 1 })
  goes_on :
      0 < s.woken
      → s.device.data_ready ≢ 0
      → Step s (record s { woken = s.woken - 1; past = s.past + 1 })
  sleeps_again :
      0 < s.woken
      → s.device.data_ready ≡ 0
      → Step s (record s { woken = s.woken - 1; asleep = s.asleep + 1 })
  killed : 0 < s.asleep → Step s (record s { asleep = s.asleep - 1 })
  reads :
      (k : Kernel) (lbuf : ℕ) (ppos : ℤ) (t : Transfer) (d : Device)
      → 0 < s.past
      → read_awake k false s.device lbuf ppos ≡ done (given t, d)
      → Step s (record s { device = d; past = s.past - 1; completed = s.completed + 1 })
  gives_up :
      (k : Kernel) (lbuf : ℕ) (ppos : ℤ) (d : Device)
      → 0 < s.past
      → read_awake k true s.device lbuf ppos ≡ done (restarts, d)
      → Step s (record s { device = d; past = s.past - 1; gave_up = s.gave_up + 1 })
  writes :
      (k : Kernel) (buf : List ℕ) (lbuf : ℕ) (ppos : ℤ) (t : Transfer) (d : Device)
      → mycdrv_write k s.device buf lbuf ppos ≡ done (t, d)
      → Step s (wake_up (record s { device = d; writes = s.writes + 1 }))

abbrev pub loaded : Device → System
loaded d = record {
  device = d;
  asleep = 0;
  woken = 0;
  past = 0;
  writes = 0;
  completed = 0;
  gave_up = 0;
}

-- From one state of the system to another.
pub data Reach (s : System) : System → Type 0 where
  here : Reach s s
  later : {t u : System} → Reach s t → Step t u → Reach s u
