-- ===== src/Asgn2/Read.antt =====
-- asgn2/asgn_2.c: `asgn2_read`.
pub mod Correct
pub mod Loop
pub mod Pages
pub mod Search
pub mod Split
pub mod Fill
pub mod Span
pub mod Spans
pub mod Freed
pub mod Across
pub mod Boundary
pub mod Copy
use petulant_wookie.Base.{
  ℕ, zero, suc, ◌+◌, ◌-◌, ◌%◌, List, [], ◌∷◌, ◌++◌, Option, none, some, take, drop, add_size,
  sub_size, mul_size, min, min_int, Bool, true, false, leb, ◌==◌, ◌&&◌, if◌then◌else◌, ℤ, pos,
  negsuc, leb_ℤ, wrap_int, to_int, ◌+ℤ◌, ◌-ℤ◌, length,
}
use petulant_wookie.Kernel.{Kernel, Run, done, running, overrun}
use petulant_wookie.Asgn1.Device.{Page}
use petulant_wookie.Asgn2.Device.{State, PageQueue, eq_ℤ}

-- The search for a null terminator: its place in the bytes.
pub find_null : List ℕ → Option ℕ
find_null [] = none
find_null (b ∷ bs) =
    let later : Option ℕ = elim (find_null bs) [ none ↦ none | some n ↦ some (suc n) ] in
    if b == 0 then some 0 else later

-- The locals of the page loop, the globals that it changes, the pages before the current one that
-- stay, the bytes put in the user's buffer, and the number of calls of `copy_to_user`.
pub record Reading : Type 0 where
  pub begin_offset : ℕ
  pub curr_page_no : ℕ
  pub actual_size : ℕ
  pub size_read : ℕ
  pub freed : ℕ
  pub head_index : ℤ
  pub head_offset : ℕ
  pub num_pages : ℕ
  pub null_flag : ℕ
  pub kept : List Page
  pub buf : List ℕ
  pub calls : ℕ

-- The locals and globals after a `copy_to_user` that copied `curr_size_read` bytes.
abbrev pub copied : ℕ → Page → ℕ → Reading → Reading
copied page_size p curr_size_read r =
    let head_offset = add_size r.head_offset curr_size_read % page_size in
    record r {
      actual_size = sub_size r.actual_size curr_size_read;
      size_read = add_size r.size_read curr_size_read;
      head_offset = head_offset;
      begin_offset = head_offset;
      buf = r.buf ++ take curr_size_read (drop r.begin_offset p);
      calls = suc r.calls;
    }

-- `while(size_to_copy > 0)`, with fuel. A copy that starts inside the page and ends past it is an
-- overrun.
pub copy_page : Kernel → ℕ → Page → ℕ → Reading → Run Reading
copy_page k zero p size_to_copy r = if size_to_copy == 0 then done r else running
copy_page k (suc fuel) p size_to_copy r =
    let size_to_be_read = k.left r.calls size_to_copy in
    let curr_size_read = sub_size size_to_copy size_to_be_read in
    let rest = copy_page k fuel p size_to_be_read (copied k.page_size p curr_size_read r) in
    if size_to_copy == 0
    then done r
    else (if leb (r.begin_offset + size_to_copy) (length p) then rest else overrun)

-- `size_to_copy` after the search over `size` bytes, and whether it found a null terminator; none
-- is an access past the end of the page.
pub search_null : ℕ → Page → ℕ → ℕ → Option (ℕ × Bool)
search_null page_size p begin_offset size = elim (find_null (take size (drop begin_offset p))) [
  | some byte_count ↦
      let temp = sub_size page_size (add_size byte_count begin_offset) in
      some (sub_size (sub_size page_size begin_offset) temp, true)
  | none ↦ if leb (begin_offset + size) (length p) then some (size, false) else none
]

-- The body of `if(curr_page_no >= begin_page_no)`.
pub read_page : Kernel → ℕ → Page → Reading → Run Reading
read_page k fuel p r =
    let begin_offset = r.head_offset in
    let size = min_int r.actual_size (sub_size k.page_size begin_offset) in
    elim (search_null k.page_size p begin_offset size) [
      | none ↦ overrun
      | some (size_to_copy, found) ↦
          copy_page k fuel p size_to_copy
            (record r { begin_offset = begin_offset; null_flag = if found then 1 else r.null_flag })
    ]

-- The rest of the loop's body: a page is freed, or it stays.
pub free_page : Page → Reading → Reading
free_page p r =
    if r.begin_offset == 0
    then record r {
      head_index = wrap_int (r.head_index +ℤ pos 1);
      freed = r.freed + 1;
      curr_page_no = r.curr_page_no + 1;
      num_pages = r.num_pages - 1;
    }
    else record r { kept = r.kept ++ (p ∷ []) }

-- One page of `list_for_each_entry_safe`.
pub visit : Kernel → ℕ → ℤ → Page → Reading → Run Reading
visit k fuel begin_page_no p r =
    elim (if leb_ℤ begin_page_no (pos r.curr_page_no) then read_page k fuel p r else done r) [
      | done r' ↦ done (free_page p r')
      | running ↦ running
      | overrun ↦ overrun
    ]

-- The page loop, which stops early on a null terminator: the pages after that stay.
pub read_pages : Kernel → ℕ → ℤ → List Page → Reading → Run Reading
read_pages k fuel begin_page_no [] r = done r
read_pages k fuel begin_page_no (p ∷ ps) r = elim (visit k fuel begin_page_no p r) [
  | running ↦ running
  | overrun ↦ overrun
  | done r' ↦
      let rest = read_pages k fuel begin_page_no ps r' in
      if r'.null_flag == 1 then done (record r' { kept = r'.kept ++ ps }) else rest
]

-- From the end of the page loop to the return. No other code runs on the queue meanwhile.
unfoldable pub finish : ℕ → State → Reading → State
finish page_size s r = record s {
  mem_list = r.kept;
  num_pages = r.num_pages;
  data_size = sub_size s.data_size (mul_size r.freed page_size);
  page_queue = record s.page_queue {
    head_index = wrap_int (r.head_index -ℤ pos r.freed);
    tail_index = wrap_int (s.page_queue.tail_index -ℤ pos r.freed);
    head_offset = r.head_offset;
  };
  null_flag = r.null_flag;
  null_location = if r.null_flag == 1 then to_int r.head_offset else s.null_location;
}

abbrev pub start_reading : ℕ → State → Reading
start_reading actual_size s = record {
  begin_offset = 0;
  curr_page_no = 0;
  actual_size = actual_size;
  size_read = 0;
  freed = 0;
  head_index = s.page_queue.head_index;
  head_offset = s.page_queue.head_offset;
  num_pages = s.num_pages;
  null_flag = s.null_flag;
  kept = [];
  buf = [];
  calls = 0;
}

-- What the user gets: the result, and the bytes in the buffer.
pub record Given : Type 0 where
  pub result : ℕ
  pub buf : List ℕ

-- `asgn2_read` once the wait is over, by the wake-up or by a signal, whose result is not looked at.
unfoldable pub read_awake : Kernel → ℕ → ℕ → State → Run (Given × State)
unfolding read_pages visit read_page free_page search_null copy_page find_null finish
read_awake k fuel count s =
    if s.null_flag == 1
    then done (record { result = 0; buf = [] }, s)
    else (let actual_size = min count (sub_size s.data_size s.page_queue.head_offset) in
        elim (read_pages k fuel s.page_queue.head_index s.mem_list (start_reading actual_size s)) [
          | running ↦ running
          | overrun ↦ overrun
          | done r ↦ done (record { result = r.size_read; buf = r.buf }, finish k.page_size s r)
        ])

-- `asgn2_read` up to the wait: it returns 0 at a null terminator, or it sleeps, or it goes on.
pub data Arrival : Type 0 where
  at_null : State → Arrival
  asleep : State → Arrival
  awake : State → Arrival

-- The queue counts as empty when its two ends are equal.
abbrev pub is_empty : PageQueue → Bool
is_empty q = eq_ℤ q.head_index q.tail_index && (q.head_offset == q.tail_offset)

unfoldable pub skip_null : State → State
skip_null s = record s {
  null_location = negsuc 0;
  page_queue = record s.page_queue { head_offset = add_size s.page_queue.head_offset 1 };
}

unfoldable pub read_arrive : State → Arrival
unfolding skip_null
read_arrive s =
    if eq_ℤ (to_int s.page_queue.head_offset) s.null_location
    then at_null (skip_null s)
    else (let s' = record s { wait_flag = if is_empty s.page_queue then 1 else s.wait_flag } in
        if s'.wait_flag == 0 then awake s' else asleep s')
