-- ===== src/Asgn2/System/Tests.antt =====
-- One byte through the driver of asgn2/asgn_2.c, on pages of sixteen bytes.
use petulant_wookie.Base.{
  subst, ◌≡◌, refl, [], ◌∷◌, ◌++◌, replicate, arith, true, false, pos, negsuc, min_int, ◌-ℤ◌,
  overwrite,
}
use petulant_wookie.Kernel.{done}
use petulant_wookie.Asgn2.Port.{dummyport_interrupt}
use petulant_wookie.Asgn2.Port.Fifo.{contents}
use petulant_wookie.Asgn2.Device.{State}
use petulant_wookie.Asgn2.Queue.{bottom_half}
use petulant_wookie.Asgn2.Read.{read_arrive, read_awake}
use petulant_wookie.Asgn2.Read.Search.{before_null}
use petulant_wookie.Asgn2.Module.{reset}
use petulant_wookie.Asgn2.Queue.Valid.{unread}
use petulant_wookie.Asgn2.Tests.{
  circ_macros, circ_macros-IsCirc, small_kernel, small_kernel-IsKernel,
}
use petulant_wookie.Asgn2.Read.Across.{EndsIn}
use petulant_wookie.Asgn2.System.{
  System, Serves, HasRoom, interrupt, tasklet, reads, Reach, here, later, start, interrupted,
}
use petulant_wookie.Asgn2.System.InOrder.{Reach-InOrder}
use petulant_wookie.Asgn2.System.Returns.{Reads, Reach-bottom_half, Reach-read_awake}

small_kernel-Serves : Serves 16 small_kernel
small_kernel-Serves = record {
  is = small_kernel-IsKernel;
  progress = λ i n h. h;
  supplies = λ i h. h;
  pages = refl;
}

abbrev loaded : State
loaded = record {
  mem_list = [];
  num_pages = 0;
  data_size = 0;
  nprocs = pos 0;
  max_nprocs = pos 1;
  page_queue = record { head_index = pos 0; tail_index = pos 0; head_offset = 0; tail_offset = 0 };
  circ_buffer = record { buf = replicate 1024 7; head = 0; tail = 0 };
  null_flag = 0;
  wait_flag = 1;
  null_location = negsuc 0;
}

-- After the byte 72.
abbrev one_waits : System
one_waits = record {
  state = record loaded {
    circ_buffer = record { buf = 72 ∷ replicate 1023 7; head = 0; tail = 1 };
  };
  half_byte = 72;
  sig_flag = 1;
  scheduled = true;
  sleeping = false;
  received = 72 ∷ [];
  given = [];
}

two_interrupts : interrupted circ_macros 8 (interrupted circ_macros 4 (start loaded)) ≡ one_waits
unfolding dummyport_interrupt reset
two_interrupts = refl

-- After the tasklet.
abbrev stored : State
stored = record loaded {
  mem_list = (72 ∷ replicate 15 0) ∷ [];
  num_pages = 1;
  data_size = 1;
  page_queue = record { head_index = pos 0; tail_index = pos 0; head_offset = 0; tail_offset = 1 };
  circ_buffer = record { buf = 72 ∷ replicate 1023 7; head = 1; tail = 1 };
  wait_flag = 0;
}

tasklet_runs : bottom_half circ_macros small_kernel 1024 one_waits.state ≡ done stored
unfolding bottom_half overwrite min_int
tasklet_runs = refl

one_waits-HasRoom : HasRoom 16 one_waits.state
one_waits-HasRoom = record { unbroken = omega arith; one_page = omega arith; small = omega arith }

reach_waits : Reach circ_macros 16 1024 (start loaded) one_waits
unfolding dummyport_interrupt reset
reach_waits = subst (Reach circ_macros 16 1024 (start loaded)) two_interrupts (
    later (later here (interrupt 4 (omega arith) (omega arith)))
      (interrupt 8 (omega arith) (omega arith)))

abbrev one_stored : System
one_stored = record one_waits { state = stored; scheduled = false }

reach_stored : Reach circ_macros 16 1024 (start loaded) one_stored
reach_stored =
    later reach_waits
      (tasklet small_kernel stored small_kernel-Serves refl one_waits-HasRoom tasklet_runs)

stored-EndsIn : EndsIn 16 5 0 1 stored
unfolding before_null
stored-EndsIn = record {
  begins = omega arith;
  few = omega arith;
  ends = refl;
  moves = omega arith;
  inside = omega arith;
}

-- After a read of what is there.
abbrev one_read : System
one_read = record one_stored {
  state = record stored {
    page_queue = record {
      head_index = pos 0;
      tail_index = pos 0;
      head_offset = 1;
      tail_offset = 1;
    };
  };
  given = 72 ∷ [];
}

reach_read : Reach circ_macros 16 1024 (start loaded) one_read
unfolding read_arrive read_awake min_int ◌-ℤ◌
reach_read = later reach_stored (
    reads small_kernel 5 0 1 (record { result = 1; buf = 72 ∷ [] }) stored one_read.state
      small_kernel-Serves refl stored-EndsIn refl refl)

Reach-InOrder_example :
    one_read.given ++ (unread one_read.state ++ contents one_read.state.circ_buffer)
    ≡ one_read.received
Reach-InOrder_example =
    Reach-InOrder circ_macros 16 1024 loaded one_read circ_macros-IsCirc (omega arith) (omega arith)
      (omega arith) (omega arith) refl refl reach_read

Reach-bottom_half_example :
    (state' : State) × (bottom_half circ_macros small_kernel 1024 one_waits.state ≡ done state')
    × (one_waits.given ++ unread state' ≡ one_waits.received)
    × (contents state'.circ_buffer ≡ [])
    × (state'.wait_flag ≡ 0)
Reach-bottom_half_example =
    Reach-bottom_half circ_macros small_kernel 1024 loaded one_waits circ_macros-IsCirc
      small_kernel-IsKernel (λ i n h. h) (λ i h. h) (omega arith) (omega arith) refl refl
      reach_waits refl one_waits-HasRoom

Reach-read_awake_example : Reads small_kernel 1024 5 stored
Reach-read_awake_example =
    Reach-read_awake circ_macros small_kernel 1024 5 0 1 loaded one_stored circ_macros-IsCirc
      small_kernel-IsKernel (λ i n h. h) (λ i h. h) (omega arith) (omega arith) refl refl
      reach_stored stored-EndsIn
