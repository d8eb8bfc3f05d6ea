-- ===== src/Asgn1/Read.antt =====
-- asgn1/asgn1.c: `asgn1_read`.
pub mod Copy
pub mod Pages
pub mod Correct
pub mod Fault
use petulant_wookie.Base.{
  ℕ, zero, suc, ◌+◌, ◌/◌, ◌%◌, ◌^◌, List, [], ◌∷◌, ◌++◌, Option, none, some, take, drop, min,
  sub_size, add_size, min_int, ltb, ◌==◌, if◌then◌else◌, ℤ, pos, to_int, leb_ℤ,
}
use petulant_wookie.Kernel.{Kernel}
use petulant_wookie.Asgn1.Device.{Device, Page}

-- The locals of `asgn1_read` and what the call leaves: `*f_pos`, `actual_size`, `size_read`, the
-- bytes put in the user's buffer, and how many calls of `copy_to_user` were made.
pub record Reading : Type 0 where
  pub f_pos : ℕ
  pub actual_size : ℕ
  pub size_read : ℕ
  pub buf : List ℕ
  pub calls : ℕ

-- The locals after a `copy_to_user` that copied `curr_size_read` bytes from `begin_offset` on.
abbrev pub copied : Page → ℕ → ℕ → Reading → Reading
copied p begin_offset curr_size_read r = record {
  f_pos = r.f_pos + curr_size_read;
  actual_size = sub_size r.actual_size curr_size_read;
  size_read = add_size r.size_read curr_size_read;
  buf = r.buf ++ take curr_size_read (drop begin_offset p);
  calls = suc r.calls;
}

-- `while(size_to_copy > 0)`, with fuel: `none` means that the loop still runs.
pub read_page : Kernel → ℕ → Page → ℕ → ℕ → Reading → Option Reading
read_page k zero p begin_offset size_to_copy r = if size_to_copy == 0 then some r else none
read_page k (suc fuel) p begin_offset size_to_copy r =
    let size_to_be_read = k.left r.calls size_to_copy in
    let r' = copied p begin_offset (sub_size size_to_copy size_to_be_read) r in
    let rest = read_page k fuel p (r'.f_pos % k.page_size) size_to_be_read r' in
    if size_to_copy == 0 then some r else rest

-- One page of `list_for_each_entry`.
pub visit : Kernel → ℕ → ℤ → Page → ℕ → Reading → Option Reading
visit k fuel begin_page_no p curr_page_no r =
    if leb_ℤ begin_page_no (pos curr_page_no)
    then (let begin_offset = r.f_pos % k.page_size in
        read_page k fuel p begin_offset (min_int r.actual_size (sub_size k.page_size begin_offset))
          r)
    else some r

pub read_pages : Kernel → ℕ → ℤ → List Page → ℕ → Reading → Option Reading
read_pages k fuel begin_page_no [] curr_page_no r = some r
read_pages k fuel begin_page_no (p ∷ ps) curr_page_no r =
    elim (visit k fuel begin_page_no p curr_page_no r) [
      | none ↦ none
      | some r' ↦ read_pages k fuel begin_page_no ps (curr_page_no + 1) r'
    ]

abbrev pub start_reading : ℕ → ℕ → Reading
start_reading f_pos actual_size = record {
  f_pos = f_pos;
  actual_size = actual_size;
  size_read = 0;
  buf = [];
  calls = 0;
}

-- `asgn1_read(filp, buf, count, f_pos)`: its result is `size_read`.
unfoldable pub asgn1_read : Kernel → ℕ → Device → ℕ → ℕ → Option Reading
unfolding read_pages visit read_page
asgn1_read k fuel d count f_pos =
    if ltb d.data_size f_pos
    then some (start_reading f_pos 0)
    else read_pages k fuel (to_int (f_pos / k.page_size)) d.mem_list 0
        (start_reading f_pos (min count (sub_size d.data_size (f_pos % 2 ^ 32))))
