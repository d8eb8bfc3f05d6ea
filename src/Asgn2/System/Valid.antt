-- ===== src/Asgn2/System/Valid.antt =====
-- asgn2/asgn_2.c: what holds of the driver between the steps.
use petulant_wookie.Base.{
  ℕ, ◌+◌, ◌*◌, ◌≤◌, ◌<◌, ◌≡◌, refl, ◌∙◌, ap, List, [], ◌∷◌, ◌++◌, true, ◌⊎◌, inl, inr, ℤ, pos,
  negsuc, arith, length, length-take, length-drop, length-concat, concat,
}
use petulant_wookie.Asgn2.Port.{buf_size}
use petulant_wookie.Asgn2.Port.Fifo.{waiting, contents}
use petulant_wookie.Asgn2.Device.{State}
use petulant_wookie.Asgn2.Queue.Valid.{IsQueue, stored_bytes, unread}
use petulant_wookie.Asgn2.Module.{reset}
use petulant_wookie.Asgn2.System.{System, start}

-- The next half byte is the first of a byte, or the handler keeps the first one.
abbrev pub Halves : ℕ → ℕ → Type 0
Halves half_byte sig_flag =
    (sig_flag ≡ 1) ⊎ ((sig_flag ≡ 0) × (hi : ℕ) × (hi < 16) × (half_byte ≡ hi * 16))

-- A null terminator is the next byte, of the first page.
abbrev pub AtNull : ℕ → State → Type 0
AtNull page_size s =
    (s.null_location ≡ pos s.page_queue.head_offset)
    × (s.page_queue.head_offset < page_size)
    × (bs : List ℕ) × (unread s ≡ 0 ∷ bs)

-- The queue with its read end. A process is made to wait only where there is nothing to read.
pub record IsReadable (page_size : ℕ) (s : State) : Type 0 where
  pub tail_page : ℕ
  pub queue : IsQueue page_size tail_page s
  pub first : s.page_queue.head_index ≡ pos 0
  pub read_data : s.page_queue.head_offset ≤ s.data_size
  pub head_in : s.page_queue.head_offset ≤ page_size
  pub flag : (s.null_flag ≡ 0) ⊎ (s.null_flag ≡ 1)
  pub mark : (s.null_location ≡ negsuc 0) ⊎ AtNull page_size s
  pub idle : (s.wait_flag ≡ 0) ⊎ (unread s ≡ [])

-- A process never sleeps at a null terminator, the tasklet is scheduled only when bytes wait, and
-- what was given is followed by what was not read and what waits.
pub record IsRunning (page_size : ℕ) (s : System) : Type 0 where
  pub readable : IsReadable page_size s.state
  pub halves : Halves s.half_byte s.sig_flag
  pub busy : s.scheduled ≡ true → 0 < waiting s.state.circ_buffer
  pub calm : s.sleeping ≡ true → s.state.null_location ≡ negsuc 0
  pub in_order : s.given ++ (unread s.state ++ contents s.state.circ_buffer) ≡ s.received

-- The counts of processes and the flags are no part of the queue.
pub with_flags :
    {page_size : ℕ} (s : State) (nprocs : ℤ) (null_flag wait_flag : ℕ)
    → (null_flag ≡ 0) ⊎ (null_flag ≡ 1)
    → (wait_flag ≡ 0) ⊎ (unread s ≡ [])
    → IsReadable page_size s
    → IsReadable page_size
        (record s { nprocs = nprocs; null_flag = null_flag; wait_flag = wait_flag })
with_flags s nprocs null_flag wait_flag h w r = record {
  tail_page = r.tail_page;
  queue = record {
    counted = r.queue.counted;
    whole = r.queue.whole;
    tail = r.queue.tail;
    ends = r.queue.ends;
    offset = r.queue.offset;
    within = r.queue.within;
    fits = r.queue.fits;
    circ = r.queue.circ;
  };
  first = r.first;
  read_data = r.read_data;
  head_in = r.head_in;
  flag = h;
  mark = r.mark;
  idle = w;
}

pub length-stored_bytes :
    {page_size t : ℕ} (s : State) → IsQueue page_size t s → length (stored_bytes s) ≡ s.data_size
length-stored_bytes {page_size} s q =
    let cells : length (concat s.mem_list) ≡ s.num_pages * page_size =
      length-concat page_size s.mem_list q.whole
      ∙ ap (λ c. c * page_size)
          (let z : length s.mem_list ≡ s.num_pages = omega (arith, q.counted) in z) in
    omega (arith, length-take s.data_size (concat s.mem_list), cells, q.within)

pub length-unread :
    {page_size t : ℕ} (s : State)
    → IsQueue page_size t s
    → s.page_queue.head_offset ≤ s.data_size
    → s.page_queue.head_offset + length (unread s) ≡ s.data_size
length-unread s q h =
    omega (arith, length-drop s.page_queue.head_offset (stored_bytes s), length-stored_bytes s q)

pub start-IsRunning :
    (page_size : ℕ) (s : State)
    → 0 < page_size
    → length s.circ_buffer.buf ≡ buf_size
    → s.null_location ≡ negsuc 0
    → IsRunning page_size (start s)
unfolding reset
start-IsRunning page_size s h cells e = record {
  readable = record {
    tail_page = 0;
    queue = record {
      counted = refl;
      whole = tt;
      tail = refl;
      ends = omega arith;
      offset = h;
      within = omega arith;
      fits = omega arith;
      circ = record { cells = cells; head_in = omega arith; tail_in = omega arith };
    };
    first = refl;
    read_data = omega arith;
    head_in = omega arith;
    flag = inl refl;
    mark = inl e;
    idle = inr refl;
  };
  halves = inl refl;
  busy = λ b. absurd (ground arith);
  calm = λ b. absurd (ground arith);
  in_order = refl;
}
