-- ===== src/Lab3/Generic/Leak.antt =====
-- `my_generic_init` and `my_generic_exit` of Lab3/3.2.1/lab_miscdev.h: what the module holds.
use petulant_wookie.Base.{List, [], ◌∷◌, ◌++◌, Bool, ◌≡◌, arith, if◌then◌else◌}
use petulant_wookie.Driver.{Resource, memory, held}
use petulant_wookie.Lab3.Seek.{Loading}
use petulant_wookie.Lab3.Generic.{my_generic_init, my_generic_exit}

-- What is held after a failed init, or after a successful one and the exit.
abbrev pub left_over : Loading → List Resource
left_over l = held (if l.loaded then l.calls ++ my_generic_exit else l.calls) []

-- Init and exit leave nothing, except that an init that fails at `misc_register` keeps the memory that
-- `kmalloc` gave.
pub my_generic_init-my_generic_exit :
    (kmalloc misc_register : Bool)
    → left_over (my_generic_init kmalloc misc_register)
      ≡ (if misc_register then [] else (if kmalloc then memory ∷ [] else []))
unfolding my_generic_init my_generic_exit
my_generic_init-my_generic_exit kmalloc misc_register = ground arith
