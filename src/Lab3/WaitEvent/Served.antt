-- ===== src/Lab3/WaitEvent/Served.antt =====
-- Lab3/3.2.1/wait_event.c: one write for the sleepers, with and without a signal.
use petulant_wookie.Base.{
  ℕ, zero, suc, ◌+◌, ◌-◌, ◌<◌, ◌≡◌, refl, ap, subst, List, true, lt→ltb, pos, length, overwrite,
  arith,
}
use petulant_wookie.Kernel.{Kernel, IsKernel, done}
use petulant_wookie.Lab3.Seek.{Transfer, padded}
use petulant_wookie.Lab3.Seek.Copy.{IsRamdisk, wanted, copied, mycdrv_write_lem}
use petulant_wookie.Lab3.Generic.{mycdrv_generic_write}
use petulant_wookie.Lab3.WaitEvent.{
  Device, restarts, read_awake, stored, mycdrv_write, System, wake_up, Step, sleeps, goes_on,
  gives_up, writes, loaded, Reach, here, later,
}

abbrev given_bytes : Kernel → List ℕ → Device → List ℕ
given_bytes k buf d =
    let asked = wanted d.ramdisk (length buf) 0 in padded asked (copied k asked) buf

-- A device that a write at the start of the ramdisk leaves.
abbrev pub written : Kernel → List ℕ → Device → Device
written k buf d = record { ramdisk = overwrite 0 (given_bytes k buf d) d.ramdisk; data_ready = 1 }

write_done :
    (k : Kernel) (buf : List ℕ) (d : Device)
    → IsKernel k
    → IsRamdisk k.page_size d.ramdisk
    → (t : Transfer) × (mycdrv_write k d buf (length buf) (pos 0) ≡ done (t, written k buf d))
unfolding mycdrv_write mycdrv_generic_write
write_done k buf d ik r =
    (_, ap (stored d) (mycdrv_write_lem k ik d.ramdisk r buf (length buf) 0 (omega arith)))

write_wakes :
    (k : Kernel) (buf : List ℕ) (s : System)
    → IsKernel k
    → IsRamdisk k.page_size s.device.ramdisk
    → 0 < s.asleep
    → Step s (record s {
      device = written k buf s.device;
      asleep = s.asleep - 1;
      woken = s.woken + 1;
      writes = s.writes + 1;
    })
unfolding wake_up
write_wakes k buf s ik r h =
    let (t, e) = write_done k buf s.device ik r in
    let s1 = record s { device = written k buf s.device; writes = s.writes + 1 } in
    let woke : wake_up s1 ≡ record s1 { asleep = s.asleep - 1; woken = s.woken + 1 } =
      rw (lt→ltb 0 s.asleep h) in
    subst (Step s) woke (writes k buf (length buf) (pos 0) t (written k buf s.device) e)

abbrev sleepers : Device → ℕ → System
sleepers d n = record (loaded d) { asleep = n }

all_sleep : (n : ℕ) (d : Device) → d.data_ready ≡ 0 → Reach (loaded d) (sleepers d n)
all_sleep zero d e = here
all_sleep (suc n) d e =
    let next : n + 1 ≡ suc n = omega arith in
    subst (λ m. Reach (loaded d) (sleepers d m)) next (later (all_sleep n d e) (sleeps e))

pending :
    (k : Kernel) (lbuf : ℕ) (d : Device) → read_awake k true d lbuf (pos 0) ≡ done (restarts, d)
unfolding read_awake
pending k lbuf d = refl

-- A signal can take the only wake-up. After the load one reader more than `n` may sleep, before any
-- write. A write then wakes one of them, which passes its wait, has a signal pending and returns
-- -ERESTARTSYS, each in one step. The other `n` sleep on while the data are ready, with no reader
-- awake that could take them and no read completed.
pub wake_up_lost :
    (k : Kernel) (buf : List ℕ) (n : ℕ) (d : Device)
    → IsKernel k
    → IsRamdisk k.page_size d.ramdisk
    → d.data_ready ≡ 0
    → (s s1 s2 t : System) × Reach (loaded d) s
      × (s.writes ≡ 0)
      × (s.asleep ≡ n + 1)
      × Step s s1
      × (s1.writes ≡ 1)
      × (s1.asleep ≡ n)
      × (s1.woken ≡ 1)
      × Step s1 s2
      × (s2.woken ≡ 0)
      × (s2.past ≡ 1)
      × Step s2 t
      × (t.gave_up ≡ 1)
      × (t.asleep ≡ n)
      × (t.woken ≡ 0)
      × (t.past ≡ 0)
      × (t.completed ≡ 0)
      × (t.device.data_ready ≡ 1)
wake_up_lost k buf n d ik r e =
    let woke = write_wakes k buf (sleepers d (suc n)) ik r (omega arith) in
    (
      sleepers d (suc n),
      _,
      _,
      _,
      all_sleep (suc n) d e,
      refl,
      omega arith,
      woke,
      omega arith,
      omega arith,
      omega arith,
      goes_on (omega arith) (λ z. omega arith),
      omega arith,
      omega arith,
      gives_up k 0 (pos 0) (written k buf d) (omega arith) (pending k 0 (written k buf d)),
      omega arith,
      omega arith,
      omega arith,
      omega arith,
      refl,
      refl,
    )
