-- ===== src/Lab3/Char/Balance.antt =====
-- `my_generic_init` and `my_generic_exit` of Lab3/3.2.1/lab_char.h: what the module holds.
use petulant_wookie.Base.{[], ◌++◌, true, ◌≡◌, arith, if◌then◌else◌}
use petulant_wookie.Driver.{held}
use petulant_wookie.Lab3.Seek.{Loading}
use petulant_wookie.Lab3.Char.{CharAnswers, my_generic_init, my_generic_exit}

-- Nothing is held after a failed init, nor after a successful one and the exit.
abbrev pub IsBalanced : Loading → Type 0
IsBalanced l = held (if l.loaded then l.calls ++ my_generic_exit true else l.calls) [] ≡ []

-- Whatever the kernel answers, init and exit give back all that was acquired.
pub my_generic_init-IsBalanced : (a : CharAnswers) → IsBalanced (my_generic_init a)
unfolding my_generic_init my_generic_exit
my_generic_init-IsBalanced a = ground arith
