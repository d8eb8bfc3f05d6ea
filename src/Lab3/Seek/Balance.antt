-- ===== src/Lab3/Seek/Balance.antt =====
-- `my_init` and `my_exit` of Lab3/3.1.3/seek.c: what the module holds from the kernel.
use petulant_wookie.Base.{[], ◌++◌, true, ◌≡◌, arith, if◌then◌else◌}
use petulant_wookie.Driver.{held}
use petulant_wookie.Lab3.Seek.{SeekAnswers, Loading, my_init, my_exit}

-- Nothing is held after a failed init, nor after a successful one and the exit.
abbrev pub IsBalanced : Loading → Type 0
IsBalanced l = held (if l.loaded then l.calls ++ my_exit true else l.calls) [] ≡ []

-- Whatever the kernel answers, an init that fails has given back all that it acquired, the memory
-- included, and after one that succeeds the exit does.
pub my_init-my_exit : (a : SeekAnswers) → IsBalanced (my_init a)
unfolding my_init my_exit
my_init-my_exit a = ground arith
