-- ===== src/Asgn2/Queue/Correct.antt =====
-- `bottom_half`: the waiting bytes of the circular buffer move to the end of the page queue.
use petulant_wookie.Base.{ℕ, ◌+◌, ◌≤◌, ◌<◌, ◌^◌, ◌≡◌, [], ◌++◌}
use petulant_wookie.Kernel.{Kernel, IsKernel, Supplies, done}
use petulant_wookie.Asgn2.Port.{CircMacros, IsCirc, buf_size}
use petulant_wookie.Asgn2.Port.Fifo.{contents}
use petulant_wookie.Asgn2.Device.{State}
use petulant_wookie.Asgn2.Queue.{bottom_half}
use petulant_wookie.Asgn2.Queue.Settled.{bottom_half_settled}
use petulant_wookie.Asgn2.Queue.Valid.{stored_bytes, IsQueue, IsStraight}

-- On a valid queue with at least one byte waiting, bytes that do not go round the circular buffer
-- and fit in the page of the tail, with memory for the pages, room below 2^32 and fuel for each
-- page, bottom_half returns. The waiting bytes, in order, are then at the end of the page queue,
-- the circular buffer is empty, the queue is valid, and a sleeping reader may go on.
pub bottom_half_lem :
    (m : CircMacros) (k : Kernel) (fuel t : ℕ) (s : State)
    → IsCirc m
    → IsKernel k
    → Supplies k
    → IsQueue k.page_size t s
    → IsStraight k.page_size s
    → buf_size ≤ fuel
    → s.data_size + buf_size + k.page_size < 2 ^ 32
    → (s' : State) × (bottom_half m k fuel s ≡ done s')
      × (stored_bytes s' ≡ stored_bytes s ++ contents s.circ_buffer)
      × (contents s'.circ_buffer ≡ [])
      × (s'.wait_flag ≡ 0)
      × (t' : ℕ) × IsQueue k.page_size t' s'
bottom_half_lem m k fuel t s im ik sup q st enough small =
    let (s', run, keeps, bytes, empty, flag, t', q') =
      bottom_half_settled m k fuel t s im ik sup q st enough small in
    (s', run, bytes, empty, flag, t', q')
