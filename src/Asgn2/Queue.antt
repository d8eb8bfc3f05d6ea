-- ===== src/Asgn2/Queue.antt =====
-- asgn2/asgn_2.c: the tasklet `bottom_half`.
pub mod Grow
pub mod Store
pub mod Valid
pub mod Steps
pub mod Settled
pub mod Correct
pub mod Spurious
use petulant_wookie.Base.{
  ℕ, zero, suc, ◌+◌, ◌-◌, ◌%◌, List, [], ◌∷◌, ◌++◌, take, drop, overwrite, add_size, sub_size,
  mul_size, min_int, ltb, leb, ◌==◌, ◌&&◌, if◌then◌else◌, ℤ, pos, leb_ℤ, wrap_int, ◌+ℤ◌, length,
}
use petulant_wookie.Kernel.{Kernel, no_node, no_page, page, Run, done, running, overrun}
use petulant_wookie.Asgn1.Device.{Page}
use petulant_wookie.Asgn2.Port.{CircMacros, buf_size}
use petulant_wookie.Asgn2.Device.{State}

-- What the allocation loop leaves.
pub data Growth : Type 0 where
  grown : State → Growth
  out_of_memory : State → Growth
  growing : Growth

abbrev pub link : Page → State → State
link p s = record s { mem_list = s.mem_list ++ (p ∷ []); num_pages = s.num_pages + 1 }

-- `while(num_pages * PAGE_SIZE < data_size + count)`, with fuel.
pub grow : Kernel → ℕ → ℕ → ℕ → State → Growth
grow k zero i target s = if ltb (mul_size s.num_pages k.page_size) target then growing else grown s
grow k (suc fuel) i target s =
    let next : Growth = elim (k.alloc i) [
      | no_node ↦ out_of_memory s
      | no_page ↦ out_of_memory s
      | page p ↦ grow k fuel (suc i) target (link p s)
    ] in
    if ltb (mul_size s.num_pages k.page_size) target then next else grown s

-- The locals of the page loop that change, and `circ_buffer.head`. The `int` `curr_offset` is only
-- used as an operand of unsigned arithmetic.
pub record Emptying : Type 0 where
  pub count : ℕ
  pub curr_offset : ℕ
  pub size_written : ℕ
  pub begin_offset : ℕ
  pub head : ℕ

-- The locals after a `memcpy` of `size_to_copy` bytes.
abbrev pub emptied : ℕ → ℕ → Emptying → Emptying
emptied page_size size_to_copy e =
    let curr_offset = add_size e.curr_offset size_to_copy in
    record {
      count = e.count - size_to_copy;
      curr_offset = curr_offset;
      size_written = add_size e.size_written size_to_copy;
      begin_offset = curr_offset % page_size;
      head = (e.head + size_to_copy) % buf_size;
    }

-- One page of `list_for_each_entry`.
pub store : ℕ → List ℕ → ℤ → Page → ℕ → Emptying → Run (Page × Emptying)
store page_size buf begin_page_no p curr_page_no e =
    if leb_ℤ begin_page_no (pos curr_page_no) && ltb 0 e.count
    then (let begin_offset = e.curr_offset % page_size in
        let size_to_copy = min_int e.count (sub_size page_size begin_offset) in
        if leb (e.head + size_to_copy) (length buf)
        then done (
          overwrite begin_offset (take size_to_copy (drop e.head buf)) p,
          emptied page_size size_to_copy e,
        )
        else overrun)
    else done (p, e)

pub store_pages : ℕ → List ℕ → ℤ → List Page → ℕ → Emptying → Run (List Page × Emptying)
store_pages page_size buf begin_page_no [] curr_page_no e = done ([], e)
store_pages page_size buf begin_page_no (p ∷ ps) curr_page_no e =
    elim (store page_size buf begin_page_no p curr_page_no e) [
      | running ↦ running
      | overrun ↦ overrun
      | done (p', e') ↦ elim (store_pages page_size buf begin_page_no ps (curr_page_no + 1) e') [
        | running ↦ running
        | overrun ↦ overrun
        | done (ps', e'') ↦ done (p' ∷ ps', e'')
      ]
    ]

-- From the end of the page loop to the wake-up.
pub settle : State → List Page → Emptying → State
settle s ps e = record s {
  mem_list = ps;
  data_size = add_size s.data_size e.size_written;
  page_queue = record s.page_queue {
    tail_index =
        if e.begin_offset == 0
        then wrap_int (s.page_queue.tail_index +ℤ pos 1)
        else s.page_queue.tail_index;
    tail_offset = e.begin_offset;
  };
  circ_buffer = record s.circ_buffer { head = e.head };
  wait_flag = 0;
}

abbrev pub start_emptying : ℕ → State → Emptying
start_emptying count s = record {
  count = count;
  curr_offset = s.page_queue.tail_offset;
  size_written = 0;
  begin_offset = 0;
  head = s.circ_buffer.head;
}

-- From the page loop to the return.
pub store_all : Kernel → ℕ → State → Run State
store_all k count s =
    elim (store_pages k.page_size s.circ_buffer.buf s.page_queue.tail_index s.mem_list 0
      (start_emptying count s)) [
        | running ↦ running
        | overrun ↦ overrun
        | done (ps, e) ↦ done (settle s ps e)
      ]

-- `bottom_half(t_arg)`. On a failed allocation it returns at once.
unfoldable pub bottom_half : CircMacros → Kernel → ℕ → State → Run State
unfolding grow store_all store_pages store settle
bottom_half m k fuel s =
    let count = m.circ_cnt s.circ_buffer.tail s.circ_buffer.head buf_size in
    elim (grow k fuel 0 (add_size s.data_size count) s) [
      | growing ↦ running
      | out_of_memory s' ↦ done s'
      | grown s' ↦ store_all k count s'
    ]
