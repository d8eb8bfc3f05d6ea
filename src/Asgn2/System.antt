-- ===== src/Asgn2/System.antt =====
-- asgn2/asgn_2.c: the whole driver at work. Interrupts come one half byte at a time, the tasklet runs
-- when it is scheduled, and one process at a time opens, reads, sleeps, wakes and releases.
pub mod Valid
pub mod Receive
pub mod Tasklet
pub mod Reads
pub mod InOrder
pub mod Returns
mod Tests
use petulant_wookie.Base.{
  ℕ, ◌+◌, ◌-◌, ◌≤◌, ◌<◌, ◌^◌, ◌≡◌, List, [], ◌∷◌, ◌++◌, length, take, min, Bool, true, false, ◌==◌,
  if◌then◌else◌,
}
use petulant_wookie.Kernel.{Kernel, IsKernel, Progresses, Supplies, Ret, Run, done}
use petulant_wookie.Asgn2.Port.{CircMacros, IsCirc, Port, buf_size, dummyport_interrupt}
use petulant_wookie.Asgn2.Port.Fifo.{waiting}
use petulant_wookie.Asgn2.Device.{State, asgn2_open, opened, asgn2_release}
use petulant_wookie.Asgn2.Queue.{bottom_half}
use petulant_wookie.Asgn2.Read.{read_arrive, at_null, asleep, awake, read_awake, Given}
use petulant_wookie.Asgn2.Read.Search.{before_null}
use petulant_wookie.Asgn2.Queue.Valid.{unread}
use petulant_wookie.Asgn2.Read.Across.{EndsIn}
use petulant_wookie.Asgn2.Module.{reset}

-- The driver's globals, the two statics of the interrupt handler, whether the tasklet is scheduled and
-- whether a process sleeps in `asgn2_read`; all bytes that came through the port, and all that
-- `asgn2_read` gave, where a read that ends at a null terminator gives a zero.
pub record System : Type 0 where
  pub state : State
  pub half_byte : ℕ
  pub sig_flag : ℕ
  pub scheduled : Bool
  pub sleeping : Bool
  pub received : List ℕ
  pub given : List ℕ

abbrev pub port : System → Port
port s = record {
  circ = s.state.circ_buffer;
  half_byte = s.half_byte;
  sig_flag = s.sig_flag;
  scheduled = s.scheduled;
}

-- An interrupt: the second half byte completes a byte.
abbrev pub interrupted : CircMacros → ℕ → System → System
interrupted m nibble s =
    let p = dummyport_interrupt m nibble (port s) in
    record s {
      state = record s.state { circ_buffer = p.circ };
      half_byte = p.half_byte;
      sig_flag = p.sig_flag;
      scheduled = p.scheduled;
      received =
          if s.sig_flag == 1 then s.received else s.received ++ ((s.half_byte + nibble) ∷ []);
    }

-- The waiting bytes do not go round the circular buffer and fit in the page of the tail, and the
-- queue's size stays below 2^32.
pub record HasRoom (page_size : ℕ) (s : State) : Type 0 where
  pub unbroken : s.circ_buffer.head + waiting s.circ_buffer ≤ buf_size
  pub one_page : s.page_queue.tail_offset + waiting s.circ_buffer ≤ page_size
  pub small : s.data_size + buf_size + page_size < 2 ^ 32

-- The kernel during one call: it has memory, and its copies to the mapped buffer make progress.
pub record Serves (page_size : ℕ) (k : Kernel) : Type 0 where
  pub is : IsKernel k
  pub progress : Progresses k
  pub supplies : Supplies k
  pub pages : k.page_size ≡ page_size

-- What runs at one time, each call with a kernel of its own. A byte that completes while 1023 wait is lost, and is not a step; a read that
-- goes on ends `offset` bytes into a page, after `pages` pages. A process that sleeps wakes up by the
-- tasklet's call or by a signal, which the code does not tell apart.
pub data Step (m : CircMacros) (page_size fuel : ℕ) (s : System) : System → Type 0 where
  interrupt :
      (nibble : ℕ)
      → nibble < 16
      → waiting s.state.circ_buffer < buf_size - 1
      → Step m page_size fuel s (interrupted m nibble s)
  tasklet :
      (k : Kernel) (state : State)
      → Serves page_size k
      → s.scheduled ≡ true
      → HasRoom page_size s.state
      → bottom_half m k fuel s.state ≡ done state
      → Step m page_size fuel s (record s { state = state; scheduled = false })
  opens :
      (f_flags : ℕ) (r : Ret) (state : State)
      → s.sleeping ≡ false
      → asgn2_open f_flags s.state ≡ opened r state
      → Step m page_size fuel s (record s { state = state })
  releases :
      s.sleeping ≡ false → Step m page_size fuel s (record s { state = (asgn2_release s.state).1 })
  ends_at_null :
      (state : State)
      → s.sleeping ≡ false
      → read_arrive s.state ≡ at_null state
      → Step m page_size fuel s (record s { state = state; given = s.given ++ (0 ∷ []) })
  sleeps :
      (state : State)
      → s.sleeping ≡ false
      → read_arrive s.state ≡ asleep state
      → Step m page_size fuel s (record s { state = state; sleeping = true })
  reads :
      (k : Kernel) (count pages offset : ℕ) (g : Given) (state state' : State)
      → Serves page_size k
      → s.sleeping ≡ false
      → EndsIn page_size count pages offset s.state
      → read_arrive s.state ≡ awake state
      → read_awake k fuel count state ≡ done (g, state')
      → Step m page_size fuel s
          (record s { state = state'; sleeping = false; given = s.given ++ g.buf })
  wakes :
      (k : Kernel) (count pages offset : ℕ) (g : Given) (state' : State)
      → Serves page_size k
      → s.sleeping ≡ true
      → EndsIn page_size count pages offset s.state
      → read_awake k fuel count s.state ≡ done (g, state')
      → Step m page_size fuel s
          (record s { state = state'; sleeping = false; given = s.given ++ g.buf })

pub data Reach (m : CircMacros) (page_size fuel : ℕ) (s : System) : System → Type 0 where
  here : Reach m page_size fuel s s
  later :
      {t u : System}
      → Reach m page_size fuel s t
      → Step m page_size fuel t u
      → Reach m page_size fuel s u

-- After the module's init, with the statics as they are initialised, on globals whose
-- `null_location` is -1.
abbrev pub start : State → System
start state = record {
  state = reset state;
  half_byte = 0;
  sig_flag = 1;
  scheduled = false;
  sleeping = false;
  received = [];
  given = [];
}
