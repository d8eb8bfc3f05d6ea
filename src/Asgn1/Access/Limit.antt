-- ===== src/Asgn1/Access/Limit.antt =====
-- asgn1/asgn1.c: the limit on the number of processes, which the test of `asgn1_open` keeps only
-- where no other process comes between the test and the increment.
use petulant_wookie.Base.{
  ℕ, zero, suc, ◌+◌, ◌≤◌, ◌<◌, ◌^◌, ◌≡◌, refl, ◌∙◌, ap, false, pos, arith, inl, inr, ◌⊎◌, dec_lt,
  subst,
}
use petulant_wookie.Kernel.{ok, fail, ebusy}
use petulant_wookie.Asgn1.Device.{Device, is_full, asgn1_open}
use petulant_wookie.Asgn1.Access.{
  enter-procs, System, admit, count, Reach, start, later, Reach-Counted,
}

not_full :
    (n m : ℕ) (d : Device) → d.nprocs ≡ pos n → d.max_nprocs ≡ pos m → n < m → is_full d ≡ false
not_full n m d e e' h = ground arith

-- If `asgn1_open` runs as one step, a process that it lets in is within the limit, and one that
-- would exceed the limit gets -EBUSY and changes nothing: on success the count goes up by one and
-- stays at most the limit.
asgn1_open-limit :
    (f_flags n m : ℕ) (d : Device)
    → d.nprocs ≡ pos n
    → d.max_nprocs ≡ pos m
    → m < 2 ^ 31
    → ((asgn1_open f_flags d).0 ≡ ok 0)
        × (n + 1 ≤ m)
        × ((asgn1_open f_flags d).1.nprocs ≡ pos (n + 1))
      ⊎ ((asgn1_open f_flags d ≡ (fail ebusy, d)) × (m ≤ n))
unfolding asgn1_open
asgn1_open-limit f_flags n m d e e' small = elim (dec_lt n m) [
  | yes h ↦
      let vacant = not_full n m d e e' h in
      inl (rw vacant, omega arith, rw vacant (enter-procs f_flags n d (omega arith) e).0)
  | no h ↦ inr (ground arith, omega arith)
]

abbrev waiting : Device → ℕ → System
waiting d n = record { device = d; admitted = n; opened = 0 }

admit_all : (tasks n : ℕ) (d : Device) → n ≤ tasks → is_full d ≡ false → Reach tasks d (waiting d n)
admit_all tasks zero d h e = start
admit_all tasks (suc n) d h e =
    let next : n + 1 ≡ suc n = omega arith in
    subst (λ k. Reach tasks d (waiting d k)) next
      (later (admit_all tasks n d (omega arith) e) (admit e (omega arith)))

-- All are past the test, and `j` of them are counted.
count_all :
    (tasks n i j : ℕ) (d : Device)
    → n ≤ tasks
    → is_full d ≡ false
    → i + j ≡ n
    → (s : System) × Reach tasks d s × (s.admitted ≡ i) × (s.opened ≡ j)
count_all tasks n i zero d h e sum = (waiting d n, admit_all tasks n d h e, omega arith, refl)
count_all tasks n i (suc j) d h e sum =
    let (s, r, a, o) = count_all tasks n (suc i) j d h e (omega arith) in
    (_, later r (count 0 (omega arith)), omega arith, omega arith)

-- The test and the increment of `asgn1_open` are two steps: with a limit of 1 any number of processes
-- can have the device open at once.
pub limit_exceeded :
    (tasks n : ℕ) (d : Device)
    → tasks < 2 ^ 31
    → n ≤ tasks
    → d.nprocs ≡ pos 0
    → d.max_nprocs ≡ pos 1
    → (s : System) × Reach tasks d s
      × (s.opened ≡ n)
      × (s.device.nprocs ≡ pos n)
      × (s.device.max_nprocs ≡ pos 1)
limit_exceeded tasks n d small h e e' =
    let vacant = not_full 0 1 d e e' (omega arith) in
    let (s, r, a, o) = count_all tasks n 0 n d h vacant (omega arith) in
    let c = Reach-Counted small e r in (s, r, o, c.exact ∙ ap pos o, c.same_max ∙ e')
