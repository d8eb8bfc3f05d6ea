-- ===== src/Asgn1/Access.antt =====
-- asgn1/asgn1.c: `asgn1_open` and `asgn1_release`, one after another and interleaved.
pub mod Limit
use petulant_wookie.Base.{
  ℕ, zero, suc, ◌+◌, ◌-◌, ◌≤◌, ◌<◌, ◌^◌, ◌≡◌, ◌≢◌, refl, ◌∙◌, ap, subst, sym, List, [], length,
  true, false, ◌==◌, if◌then◌else◌, ℤ, pos, ◌+ℤ◌, ◌-ℤ◌, wrap_int, wrap_int_inc, wrap_int_dec, arith,
  leb_ℤ,
}
use petulant_wookie.Kernel.{ok, fail, ebusy}
use petulant_wookie.Asgn1.Device.{
  Device, acc_mode, o_wronly, free_memory_pages, is_full, enter, asgn1_open, asgn1_release, IsValid,
}
use petulant_wookie.Asgn1.Device.Free.{free_memory_pages-procs}

-- The device with one more process, emptied where the file is opened write-only.
abbrev pub entered : ℕ → ℕ → Device → Device
entered f_flags n d =
    let opened = record d { nprocs = pos n } in
    if acc_mode f_flags == o_wronly then free_memory_pages opened else opened

enter-eq-entered :
    (f_flags n : ℕ) (d : Device)
    → n + 1 < 2 ^ 31
    → d.nprocs ≡ pos n
    → enter f_flags d ≡ entered f_flags (n + 1) d
unfolding enter
enter-eq-entered f_flags n d small e =
    ap
      (λ m.
        let opened = record d { nprocs = m } in
        if acc_mode f_flags == o_wronly then free_memory_pages opened else opened)
      (ap (λ t. wrap_int (t +ℤ pos 1)) e ∙ wrap_int_inc n small)

entered-procs :
    (f_flags n : ℕ) (d : Device)
    → ((entered f_flags n d).nprocs ≡ pos n) × ((entered f_flags n d).max_nprocs ≡ d.max_nprocs)
entered-procs f_flags n d = ground (arith, free_memory_pages-procs (record d { nprocs = pos n }))

-- One `atomic_inc` and one `atomic_dec`.
pub enter-procs :
    (f_flags n : ℕ) (d : Device)
    → n + 1 < 2 ^ 31
    → d.nprocs ≡ pos n
    → ((enter f_flags d).nprocs ≡ pos (n + 1)) × ((enter f_flags d).max_nprocs ≡ d.max_nprocs)
enter-procs f_flags n d small e =
    let (a, b) = entered-procs f_flags (n + 1) d in
    let f = enter-eq-entered f_flags n d small e in
    (ap (λ t. t.nprocs) f ∙ a, ap (λ t. t.max_nprocs) f ∙ b)

release-procs :
    (n : ℕ) (d : Device)
    → 0 < n
    → n < 2 ^ 31
    → d.nprocs ≡ pos n
    → ((asgn1_release d).1.nprocs ≡ pos (n - 1)) × ((asgn1_release d).1.max_nprocs ≡ d.max_nprocs)
unfolding asgn1_release
release-procs n d h small e = (ap (λ t. wrap_int (t -ℤ pos 1)) e ∙ wrap_int_dec n h small, refl)

-- The device, with the processes that are past the test of `asgn1_open` and not yet counted, and
-- those that have the device open.
pub record System : Type 0 where
  pub device : Device
  pub admitted : ℕ
  pub opened : ℕ

-- One atomic step of some process, where at most `tasks` processes use the device. A process that
-- the test turns away changes nothing.
pub data Step (tasks : ℕ) (s : System) : System → Type 0 where
  admit :
      is_full s.device ≡ false
      → s.admitted + s.opened < tasks
      → Step tasks s (record s { admitted = s.admitted + 1 })
  count :
      (f_flags : ℕ)
      → 0 < s.admitted
      → Step tasks s (record {
        device = enter f_flags s.device;
        admitted = s.admitted - 1;
        opened = s.opened + 1;
      })
  leave :
      0 < s.opened
      → Step tasks s (record s { device = (asgn1_release s.device).1; opened = s.opened - 1 })

abbrev pub unused : Device → System
unused d = record { device = d; admitted = 0; opened = 0 }

pub data Reach (tasks : ℕ) (d : Device) : System → Type 0 where
  start : Reach tasks d (unused d)
  later : {s t : System} → Reach tasks d s → Step tasks s t → Reach tasks d t

-- The counter is the number of processes that have the device open.
pub record Counted (tasks : ℕ) (d : Device) (s : System) : Type 0 where
  pub exact : s.device.nprocs ≡ pos s.opened
  pub bounded : s.admitted + s.opened ≤ tasks
  pub same_max : s.device.max_nprocs ≡ d.max_nprocs

Step-Counted :
    {tasks : ℕ} {d : Device} {s t : System}
    → tasks < 2 ^ 31
    → Step tasks s t
    → Counted tasks d s
    → Counted tasks d t
Step-Counted small (admit vacant room) c = record {
  exact = c.exact;
  bounded = omega arith;
  same_max = c.same_max;
}
Step-Counted {s = s} small (count f_flags h) c =
    let b = c.bounded in
    let (e, e') = enter-procs f_flags s.opened s.device (omega arith) c.exact in
    record { exact = e; bounded = omega arith; same_max = e' ∙ c.same_max }
Step-Counted {s = s} small (leave h) c =
    let b = c.bounded in
    let (e, e') = release-procs s.opened s.device h (omega arith) c.exact in
    record { exact = e; bounded = omega arith; same_max = e' ∙ c.same_max }

-- However the calls of fewer than 2^31 processes interleave, `nprocs` is the number of processes that
-- have the device open, it does not wrap, and opening and closing leave the limit.
pub Reach-Counted :
    {tasks : ℕ} {d : Device} {s : System}
    → tasks < 2 ^ 31
    → d.nprocs ≡ pos 0
    → Reach tasks d s
    → Counted tasks d s
Reach-Counted small e start = record { exact = e; bounded = omega arith; same_max = refl }
Reach-Counted small e (later r st) = Step-Counted small st (Reach-Counted small e r)
