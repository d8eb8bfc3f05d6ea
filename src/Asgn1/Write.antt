-- ===== src/Asgn1/Write.antt =====
-- asgn1/asgn1.c: `asgn1_write`.
pub mod Copy
pub mod Pages
pub mod Grow
pub mod Correct
use petulant_wookie.Base.{
  ℕ, zero, suc, ◌+◌, ◌/◌, ◌%◌, ◌^◌, List, [], ◌∷◌, ◌++◌, Option, none, some, take, drop, overwrite,
  max, sub_size, add_size, mul_size, min_int, ltb, ◌==◌, if◌then◌else◌, ℤ, pos, to_int, leb_ℤ,
}
use petulant_wookie.Kernel.{Kernel, no_node, no_page, page, Ret, ok, fail, enomem}
use petulant_wookie.Asgn1.Device.{Device, Page}

-- What the allocation loop leaves: all pages are there, an allocation failed, or it still runs.
pub data Growth : Type 0 where
  grown : Device → Growth
  out_of_memory : Device → Growth
  running : Growth

abbrev pub link : Page → Device → Device
link p d = record d {
  mem_list = d.mem_list ++ (p ∷ []);
  num_pages = d.num_pages + 1;
  live_nodes = d.live_nodes + 1;
  live_pages = d.live_pages + 1;
}

-- `while(num_pages * PAGE_SIZE < orig_f_pos + count)`, at its `i`-th allocation, with fuel. A node
-- whose page cannot be had is not freed.
pub grow : Kernel → ℕ → ℕ → ℕ → Device → Growth
grow k zero i target d = if ltb (mul_size d.num_pages k.page_size) target then running else grown d
grow k (suc fuel) i target d =
    let next : Growth = elim (k.alloc i) [
      | no_node ↦ out_of_memory d
      | no_page ↦ out_of_memory (record d { live_nodes = d.live_nodes + 1 })
      | page p ↦ grow k fuel (suc i) target (link p d)
    ] in
    if ltb (mul_size d.num_pages k.page_size) target then next else grown d

-- The locals of `asgn1_write`: `*f_pos`, `count`, `size_written`, and the number of calls of
-- `copy_from_user` so far.
pub record Writing : Type 0 where
  pub f_pos : ℕ
  pub count : ℕ
  pub size_written : ℕ
  pub calls : ℕ

abbrev pub moved : ℕ → Writing → Writing
moved curr_size_written w = record {
  f_pos = w.f_pos + curr_size_written;
  count = sub_size w.count curr_size_written;
  size_written = add_size w.size_written curr_size_written;
  calls = suc w.calls;
}

-- The page after a `copy_from_user` of `n` bytes of the user's buffer to `begin_offset`.
abbrev pub stored : List ℕ → Page → ℕ → ℕ → Writing → Page
stored buf p begin_offset n w = overwrite begin_offset (take n (drop w.size_written buf)) p

-- `while(size_to_copy > 0)`, with fuel: `none` means that the loop still runs.
pub write_page : Kernel → List ℕ → ℕ → Page → ℕ → ℕ → Writing → Option (Page × Writing)
write_page k buf zero p begin_offset size_to_copy w =
    if size_to_copy == 0 then some (p, w) else none
write_page k buf (suc fuel) p begin_offset size_to_copy w =
    let size_to_be_written = k.left w.calls size_to_copy in
    let curr_size_written = sub_size size_to_copy size_to_be_written in
    let w' = moved curr_size_written w in
    let rest =
      write_page k buf fuel (stored buf p begin_offset curr_size_written w) (w'.f_pos % k.page_size)
        size_to_be_written w' in
    if size_to_copy == 0 then some (p, w) else rest

-- One page of `list_for_each_entry`.
pub fill : Kernel → List ℕ → ℕ → ℤ → Page → ℕ → Writing → Option (Page × Writing)
fill k buf fuel begin_page_no p curr_page_no w =
    if leb_ℤ begin_page_no (pos curr_page_no)
    then (let begin_offset = w.f_pos % k.page_size in
        write_page k buf fuel p begin_offset (min_int w.count (sub_size k.page_size begin_offset))
          w)
    else some (p, w)

pub write_pages : Kernel → List ℕ → ℕ → ℤ → List Page → ℕ → Writing → Option (List Page × Writing)
write_pages k buf fuel begin_page_no [] curr_page_no w = some ([], w)
write_pages k buf fuel begin_page_no (p ∷ ps) curr_page_no w =
    elim (fill k buf fuel begin_page_no p curr_page_no w) [
      | none ↦ none
      | some (p', w') ↦ elim (write_pages k buf fuel begin_page_no ps (curr_page_no + 1) w') [
        | none ↦ none
        | some (ps', w'') ↦ some (p' ∷ ps', w'')
      ]
    ]

abbrev pub start_writing : ℕ → ℕ → Writing
start_writing f_pos count = record { f_pos = f_pos; count = count; size_written = 0; calls = 0 }

-- The result, the device and `*f_pos` after `asgn1_write`.
abbrev pub Written : Type 0
Written = Ret × Device × ℕ

-- From the page loop to the return.
pub write_all : Kernel → List ℕ → ℕ → Device → ℕ → ℕ → Option Written
write_all k buf fuel d count f_pos =
    elim (write_pages k buf fuel (to_int (f_pos / k.page_size)) d.mem_list 0
      (start_writing f_pos count)) [
        | none ↦ none
        | some (ps, w) ↦ some (
          ok w.size_written,
          record d {
            mem_list = ps;
            data_size = max d.data_size (add_size (f_pos % 2 ^ 32) w.size_written);
          },
          w.f_pos,
        )
      ]

-- `asgn1_write(filp, buf, count, f_pos)`.
unfoldable pub asgn1_write : Kernel → ℕ → Device → List ℕ → ℕ → ℕ → Option Written
unfolding grow write_all write_pages fill write_page
asgn1_write k fuel d buf count f_pos = elim (grow k fuel 0 (add_size (f_pos % 2 ^ 32) count) d) [
  | running ↦ none
  | out_of_memory d' ↦ some (fail enomem, d', f_pos)
  | grown d' ↦ write_all k buf fuel d' count f_pos
]
