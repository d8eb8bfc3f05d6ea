-- ===== src/Asgn2/Device/Open.antt =====
-- `asgn2_open` and `asgn2_release`: one process at a time, and what a refused mode does to it.
use petulant_wookie.Base.{
  ℕ, ◌%◌, ◌≡◌, ◌≢◌, refl, ◌∙◌, ap, sym, Bool, Bool-cases, inl, inr, arith, wrap_int, if◌then◌else◌,
  true, false, ◌==◌, ne→==, eq→==, pos, ◌+ℤ◌, ◌-ℤ◌,
}
use petulant_wookie.Kernel.{Ret, ok, fail, eacces}
use petulant_wookie.Asgn2.Device.{
  State, eq_ℤ, open_awake, sleeping, opened, asgn2_open, asgn2_release,
}

-- When no process is counted, an open to read only succeeds; every open after it, whatever its mode,
-- sleeps, until the release, after which the device is as before but for the null flag, which is 0.
asgn2_open-asgn2_release :
    (f_flags other_flags : ℕ) (s : State)
    → f_flags % 4 ≡ 0
    → s.nprocs ≡ pos 0
    → (s' : State) × (asgn2_open f_flags s ≡ opened (ok 0) s')
      × (asgn2_open other_flags s' ≡ sleeping)
      × (asgn2_release s' ≡ (ok 0, record s { null_flag = 0 }))
unfolding asgn2_open asgn2_release ◌+ℤ◌ ◌-ℤ◌
asgn2_open-asgn2_release f_flags other_flags s mode idle =
    let read_only : (f_flags % 4 == 0) ≡ true = eq→== (f_flags % 4) 0 mode in
    (
      record s { nprocs = pos 1 },
      rw (read_only, idle) refl,
      refl,
      ap (λ n. (ok 0, record s { null_flag = 0; nprocs = n })) (sym idle),
    )

-- When no process is counted, an open in a mode that is not read only returns -EACCES and leaves a
-- process counted, so that every later open, whatever its mode, sleeps.
asgn2_open_refused :
    (f_flags other_flags : ℕ) (s : State)
    → f_flags % 4 ≢ 0
    → s.nprocs ≡ pos 0
    → (s' : State) × (asgn2_open f_flags s ≡ opened (fail eacces) s')
      × (asgn2_open other_flags s' ≡ sleeping)
unfolding asgn2_open ◌+ℤ◌
asgn2_open_refused f_flags other_flags s mode idle =
    let not_read_only : (f_flags % 4 == 0) ≡ false = ne→== (f_flags % 4) 0 mode in
    (record s { nprocs = pos 1 }, rw (not_read_only, idle) refl, refl)

open_awake-state :
    (f_flags : ℕ) (s : State)
    → (open_awake f_flags s).1 ≡ record s { nprocs = wrap_int (s.nprocs +ℤ pos 1) }
unfolding open_awake
open_awake-state f_flags s = elim (Bool-cases (f_flags % 4 == 0)) [ inl e ↦ rw e | inr e ↦ rw e ]

returned :
    (b : Bool) (r r' : Ret) (s s' : State)
    → (if b then opened r s else sleeping) ≡ opened r' s'
    → s ≡ s'
returned true r r' s s' e = cc
returned false r r' s s' e = absurd (ground arith)

-- What `asgn2_open` changes when it returns.
pub asgn2_open-opened :
    (f_flags : ℕ) (r : Ret) (s s' : State)
    → asgn2_open f_flags s ≡ opened r s'
    → s' ≡ record s { nprocs = wrap_int (s.nprocs +ℤ pos 1) }
unfolding asgn2_open
asgn2_open-opened f_flags r s s' e =
    sym (returned (eq_ℤ s.nprocs (pos 0)) (open_awake f_flags s).0 r _ s' e)
    ∙ open_awake-state f_flags s
