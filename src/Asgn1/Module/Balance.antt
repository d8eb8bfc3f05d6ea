-- ===== src/Asgn1/Module/Balance.antt =====
-- `asgn1_init_module` and `asgn1_exit_module`: what the module holds from the kernel.
use petulant_wookie.Base.{[], ◌∷◌, ◌++◌, true, false, ◌≡◌, if◌then◌else◌}
use petulant_wookie.Driver.{region, held, is_zero, Answers, Init, started, failed, uses_null}
use petulant_wookie.Asgn1.Device.{Device}
use petulant_wookie.Asgn1.Module.{asgn1_exit_module}

-- Nothing is held after a failed init, nor after a successful one and the exit, and both had a region
-- and a `cdev`. A null pointer is used exactly where one of these two was refused.
abbrev pub IsBalanced : Device → Answers → Init → Type 0
IsBalanced d a (started calls) =
    (held (calls ++ (asgn1_exit_module true d).0) [] ≡ [])
    × (is_zero a.alloc_chrdev_region ≡ true)
    × (a.cdev_alloc ≡ true)
IsBalanced d a (failed e calls) =
    (held calls [] ≡ []) × (is_zero a.alloc_chrdev_region ≡ true) × (a.cdev_alloc ≡ true)
IsBalanced d a (uses_null calls) =
    if is_zero a.alloc_chrdev_region
    then (held calls [] ≡ region ∷ []) × (a.cdev_alloc ≡ false)
    else held calls [] ≡ []
