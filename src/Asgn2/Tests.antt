-- ===== src/Asgn2/Tests.antt =====
-- Runs of the driver at concrete inputs.
use petulant_wookie.Base.{
  some, ℕ, ◌+◌, ◌-◌, ◌*◌, ◌%◌, ◌≡◌, refl, [], ◌∷◌, ◌++◌, length, replicate, take, drop, arith, true,
  false, pos, negsuc,
}
use petulant_wookie.Kernel.{Kernel, IsKernel, page, done}
use petulant_wookie.Asgn2.Queue.{bottom_half}
use petulant_wookie.Asgn2.Queue.Correct.{bottom_half_lem}
use petulant_wookie.Asgn2.Queue.Valid.{IsQueue, stored_bytes, unread}
use petulant_wookie.Asgn2.Queue.Spurious.{bottom_half_spurious}
use petulant_wookie.Asgn2.Read.{read_awake}
use petulant_wookie.Asgn2.Read.Search.{before_null, has_null}
use petulant_wookie.Asgn2.Read.Boundary.{read_awake_boundary}
use petulant_wookie.Asgn2.Read.Across.{EndsIn, Moved, read_awake_across}
use petulant_wookie.Driver.{Answers}
use petulant_wookie.Asgn2.Port.{CircBuffer, CircMacros, IsCirc, Port}
use petulant_wookie.Asgn2.Port.Fifo.{IsValid, contents}
use petulant_wookie.Asgn2.Port.Bytes.{receive, receive_lem, IsBetween}
use petulant_wookie.Asgn2.Device.{State}
use petulant_wookie.Asgn2.Gpio.{setgpiofunc}
use petulant_wookie.Asgn2.Gpio.Function.{with_field, setgpiofunc_lem}
use petulant_wookie.Asgn2.Gpio.{GpioAnswers, read_half_byte}
use petulant_wookie.Asgn2.Gpio.Pins.{pin, read_half_byte_lem}

abbrev pub circ_macros : CircMacros
circ_macros = record {
  circ_cnt = λ a b n. (a + n - b) % n;
  circ_space = λ a b n. (b + n - 1 - a) % n;
}

pub circ_macros-IsCirc : IsCirc circ_macros
circ_macros-IsCirc = record { cnt = λ a b h h'. refl; space = λ a b h h'. refl }

-- One byte waits, the last of the array.
abbrev near_end : CircBuffer
near_end = record { buf = replicate 1024 7; head = 1023; tail = 0 }

near_end-IsValid : IsValid near_end
near_end-IsValid = record { cells = refl; head_in = omega arith; tail_in = omega arith }

abbrev quiet_port : Port
quiet_port = record { circ = near_end; half_byte = 0; sig_flag = 1; scheduled = false }

receive_lem_example :
    (contents (receive circ_macros (72 ∷ 105 ∷ []) quiet_port).circ
      ≡ contents near_end ++ take (1023 - length (contents near_end)) (72 ∷ 105 ∷ []))
    × IsBetween (receive circ_macros (72 ∷ 105 ∷ []) quiet_port)
receive_lem_example =
    receive_lem circ_macros (72 ∷ 105 ∷ []) quiet_port circ_macros-IsCirc
      (omega arith, (omega arith, tt)) (record { valid = near_end-IsValid; first = refl })

abbrev fresh : State
fresh = record {
  mem_list = [];
  num_pages = 0;
  data_size = 0;
  nprocs = pos 0;
  max_nprocs = pos 1;
  page_queue = record { head_index = pos 0; tail_index = pos 0; head_offset = 0; tail_offset = 0 };
  circ_buffer = near_end;
  null_flag = 0;
  wait_flag = 1;
  null_location = negsuc 0;
}

-- The kernel refuses the udev device only.
abbrev no_device : Answers
no_device = record {
  alloc_chrdev_region = pos 0;
  cdev_alloc = true;
  cdev_add = pos 0;
  create_proc_entry = true;
  class_create = true;
  device_create = false;
}

abbrev all_pins : GpioAnswers
all_pins = record { gpio_request_array = pos 0; gpio_to_irq = pos 187; request_irq = pos 0 }

read_half_byte_lem_example :
    read_half_byte 16777344
    ≡ pin 16777344 24 * 8 + pin 16777344 22 * 4 + pin 16777344 17 * 2 + pin 16777344 7
read_half_byte_lem_example = read_half_byte_lem 16777344

-- Pages of sixteen bytes, and memory for every one.
abbrev pub small_kernel : Kernel
small_kernel = record { page_size = 16; left = λ i n. 0; alloc = λ i. page (replicate 16 0) }

pub small_kernel-IsKernel : IsKernel small_kernel
small_kernel-IsKernel = record {
  page_pos = omega arith;
  page_many = omega arith;
  page_small = omega arith;
  left_le = λ i n. omega arith;
  fills = λ i. refl;
}

-- Fifteen bytes of one page hold data.
abbrev one_page : State
one_page = record fresh {
  mem_list = replicate 16 65 ∷ [];
  num_pages = 1;
  data_size = 15;
  page_queue = record { head_index = pos 0; tail_index = pos 0; head_offset = 0; tail_offset = 15 };
}

one_page-IsQueue : IsQueue 16 0 one_page
one_page-IsQueue = record {
  counted = refl;
  whole = (refl, tt);
  tail = refl;
  ends = refl;
  offset = omega arith;
  within = omega arith;
  fits = omega arith;
  circ = near_end-IsValid;
}

bottom_half_lem_example :
    (s' : State) × (bottom_half circ_macros small_kernel 1024 one_page ≡ done s')
    × (stored_bytes s' ≡ stored_bytes one_page ++ contents near_end)
    × (contents s'.circ_buffer ≡ [])
    × (s'.wait_flag ≡ 0)
    × (t' : ℕ) × IsQueue 16 t' s'
bottom_half_lem_example =
    bottom_half_lem circ_macros small_kernel 1024 0 one_page circ_macros-IsCirc
      small_kernel-IsKernel (λ i h. h) one_page-IsQueue
      (record { some_waiting = omega arith; unbroken = omega arith; one_page = omega arith })
      (omega arith) (omega arith)

-- The same, with no byte waiting.
abbrev idle : State
idle = record one_page { circ_buffer = record { buf = replicate 1024 7; head = 3; tail = 3 } }

idle-IsQueue : IsQueue 16 0 idle
idle-IsQueue = record {
  counted = refl;
  whole = (refl, tt);
  tail = refl;
  ends = refl;
  offset = omega arith;
  within = omega arith;
  fits = omega arith;
  circ = record { cells = refl; head_in = omega arith; tail_in = omega arith };
}

bottom_half_spurious_example :
    (s' : State) × (bottom_half circ_macros small_kernel 8 idle ≡ done s')
    × (s'.data_size ≡ 15)
    × (s'.page_queue.tail_index ≡ pos 1)
    × (s'.page_queue.tail_offset ≡ 0)
    × (¬ IsQueue 16 0 s')
bottom_half_spurious_example =
    bottom_half_spurious circ_macros small_kernel 8 0 0 idle circ_macros-IsCirc
      small_kernel-IsKernel idle-IsQueue refl (omega arith)

-- Two pages: the head is before the end of the first, and a null terminator is in the second.
abbrev two_pages : State
two_pages = record fresh {
  mem_list = replicate 16 65 ∷ (66 ∷ 67 ∷ 0 ∷ replicate 13 0) ∷ [];
  num_pages = 2;
  data_size = 19;
  page_queue = record { head_index = pos 0; tail_index = pos 1; head_offset = 14; tail_offset = 3 };
}

two_pages-IsQueue : IsQueue 16 1 two_pages
two_pages-IsQueue = record {
  counted = refl;
  whole = (refl, (refl, tt));
  tail = refl;
  ends = refl;
  offset = omega arith;
  within = omega arith;
  fits = omega arith;
  circ = near_end-IsValid;
}

-- The read gives 65, 65, 66 and 67.
two_pages-EndsIn : EndsIn 16 8 1 2 two_pages
unfolding before_null
two_pages-EndsIn = record {
  begins = omega arith;
  few = omega arith;
  ends = refl;
  moves = omega arith;
  inside = omega arith;
}

read_awake_across_example :
    let bytes = before_null (take 8 (unread two_pages)) in
    (s' : State) × (read_awake small_kernel 16 8 two_pages
      ≡ done (record { result = length bytes; buf = bytes }, s'))
    × Moved 16 1 1 2 (has_null (take 8 (unread two_pages))) two_pages s'
    × (unread s' ≡ drop (length bytes) (unread two_pages))
read_awake_across_example =
    read_awake_across small_kernel 16 8 1 2 1 two_pages small_kernel-IsKernel (λ i n h. h)
      (omega arith) two_pages-IsQueue refl refl (omega arith) two_pages-EndsIn

read_awake_boundary_example :
    (s' : State) × (read_awake small_kernel 16 2 two_pages
      ≡ done (record { result = 2; buf = 65 ∷ 65 ∷ [] }, s'))
    × (s'.mem_list ≡ [])
    × (s'.num_pages ≡ 0)
    × (s'.data_size ≡ 4294967283)
unfolding has_null
read_awake_boundary_example =
    read_awake_boundary small_kernel 16 2 1 (replicate 16 65) ((66 ∷ 67 ∷ 0 ∷ replicate 13 0) ∷ [])
      two_pages small_kernel-IsKernel (λ i n h. h) (omega arith) two_pages-IsQueue refl refl refl
      (omega arith) (omega arith) (omega arith) refl

-- Pin 20, of register 2, sets bits of register 1.
setgpiofunc_lem_example :
    setgpiofunc 5 (λ a. 0) 0x1000 20 1 ≡ some (with_field (λ a. 0) 0x1000 1 10 1)
setgpiofunc_lem_example = setgpiofunc_lem 5 (λ a. 0) 0x1000 20 1 (omega arith)
