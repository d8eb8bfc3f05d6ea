-- ===== src/Asgn2/Module/Balance.antt =====
-- `asgn2_init_module` and `asgn2_exit_module`: what the module holds from the kernel.
use petulant_wookie.Base.{
  List, [], ◌∷◌, ◌++◌, true, false, not, ◌&&◌, ltb_ℤ, ◌≡◌, if◌then◌else◌, pos,
}
use petulant_wookie.Driver.{
  Resource, region, cdev, class, irq, held, is_zero, Answers, Init, started, failed, uses_null,
}
use petulant_wookie.Asgn2.Device.{State}
use petulant_wookie.Asgn2.Gpio.{GpioAnswers}
use petulant_wookie.Asgn2.Module.{asgn2_exit_module}

-- The class and the interrupt, where the kernel gave them.
abbrev pub left_over : Answers → GpioAnswers → List Resource
left_over a g =
    (if a.class_create then class ∷ [] else [])
    ++ (if is_zero g.gpio_request_array
          && not (ltb_ℤ g.gpio_to_irq (pos 0))
          && is_zero g.request_irq
        then irq ∷ []
        else [])

-- Nothing is held after a successful init and the exit. What a failed init leaves is nothing where
-- `alloc_chrdev_region` or `create_proc_entry` failed, the `cdev` where `cdev_add` failed, and otherwise
-- the class and the interrupt. A null pointer is used only where `cdev_alloc` gave one.
abbrev pub IsSettled : State → Answers → GpioAnswers → Init → Type 0
IsSettled s a g (started calls) =
    (held (calls ++ (asgn2_exit_module true s).0) [] ≡ []) × (a.cdev_alloc ≡ true)
IsSettled s a g (failed e calls) = held calls [] ≡ (
    if is_zero a.alloc_chrdev_region
    then (if is_zero a.cdev_add
        then (if a.create_proc_entry then left_over a g else [])
        else cdev ∷ [])
    else [])
IsSettled s a g (uses_null calls) = (held calls [] ≡ region ∷ []) × (a.cdev_alloc ≡ false)
