-- ===== src/Asgn1/Control/Ioctl.antt =====
-- `asgn1_ioctl` sets the limit exactly when each of its checks passes.
use petulant_wookie.Base.{
  ℕ, zero, suc, ◌≡◌, ◌≢◌, refl, Option, none, some, true, Bool-cases, ◌==◌, ◌⊎◌, inl, inr, ◌<◌, ℤ,
  pos, negsuc, arith,
}
use petulant_wookie.Kernel.{ok, fail, Errno, einval, efault, enotty}
use petulant_wookie.Asgn1.Device.{Device}
use petulant_wookie.Asgn1.Control.{IoctlKernel, myioc_type, set_nproc_op, asgn1_ioctl}

-- A command for this device and its one operation, whose argument can be read and holds the
-- positive number `n + 1`.
pub record Accepts (k : IoctlKernel) (cmd arg n : ℕ) : Type 0 where
  pub its_type : k.ioc_type cmd ≡ myioc_type
  pub its_nr : k.ioc_nr cmd ≡ set_nproc_op
  pub readable : k.access_ok arg ≡ true
  pub given : k.get_user arg ≡ some (pos (suc n))

module _ (k : IoctlKernel) (cmd arg : ℕ) (d : Device) where
  unchanged : (asgn1_ioctl k cmd arg d).0 ≢ ok 0 → (asgn1_ioctl k cmd arg d).1 ≡ d
  unfolding asgn1_ioctl
  unchanged h = ground arith

-- Whenever `asgn1_ioctl` does not return 0, it leaves the device as it was.
pub asgn1_ioctl_refused :
    (k : IoctlKernel) (cmd arg : ℕ) (d : Device)
    → (asgn1_ioctl k cmd arg d).0 ≢ ok 0
    → (asgn1_ioctl k cmd arg d).1 ≡ d
asgn1_ioctl_refused k cmd arg d h = unchanged k cmd arg d h

-- The two ways in which the call can end.
abbrev pub Outcomes : IoctlKernel → ℕ → ℕ → Device → Type 0
Outcomes k cmd arg d =
    ((e : Errno) × (asgn1_ioctl k cmd arg d ≡ (fail e, d)))
    ⊎ ((n : ℕ) × (k.get_user arg ≡ some (pos n))
        × (0 < n)
        × (asgn1_ioctl k cmd arg d ≡ (ok 0, record d { max_nprocs = pos n })))

Outcomes-by :
    (k : IoctlKernel) (cmd arg : ℕ) (d : Device) (u : Option ℤ)
    → k.get_user arg ≡ u
    → (k.ioc_type cmd == myioc_type) ≡ true
    → (k.ioc_nr cmd == set_nproc_op) ≡ true
    → k.access_ok arg ≡ true
    → Outcomes k cmd arg d
unfolding asgn1_ioctl
Outcomes-by k cmd arg d none e t n o = inl (efault, ground arith)
Outcomes-by k cmd arg d (some (pos zero)) e t n o = inl (einval, ground arith)
Outcomes-by k cmd arg d (some (pos (suc i))) e t n o = inr (suc i, e, omega arith, ground arith)
Outcomes-by k cmd arg d (some (negsuc i)) e t n o = inl (einval, ground arith)

pub ioctl-Outcomes : (k : IoctlKernel) (cmd arg : ℕ) (d : Device) → Outcomes k cmd arg d
unfolding asgn1_ioctl
ioctl-Outcomes k cmd arg d = elim (Bool-cases (k.ioc_type cmd == myioc_type)) [
  | inr t ↦ inl (einval, ground arith)
  | inl t ↦ elim (Bool-cases (k.ioc_nr cmd == set_nproc_op)) [
    | inr n ↦ inl (enotty, ground arith)
    | inl n ↦ elim (Bool-cases (k.access_ok arg)) [
      | inr o ↦ inl (efault, ground arith)
      | inl o ↦ Outcomes-by k cmd arg d (k.get_user arg) refl t n o
    ]
  ]
]
