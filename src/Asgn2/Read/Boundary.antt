-- ===== src/Asgn2/Read/Boundary.antt =====
-- `asgn2_read`: a read that ends on the boundary of a page.
use petulant_wookie.Base.{
  ℕ, suc, ◌+◌, ◌-◌, ◌*◌, ◌%◌, ◌≤◌, ◌<◌, ◌^◌, ◌≡◌, refl, ◌∙◌, ap, ap₂, subst, List, [], ◌∷◌, length,
  length-drop, AllLength, take, drop, min, arith, false, sub_size, pos, wrap_int, ◌+ℤ◌, eq→==,
}
use petulant_wookie.Kernel.{Kernel, IsKernel, Progresses, done}
use petulant_wookie.Asgn1.Device.{Page}
use petulant_wookie.Asgn2.Device.{State}
use petulant_wookie.Asgn2.Queue.Valid.{IsQueue}
use petulant_wookie.Asgn2.Read.{
  Reading, free_page, visit, read_pages, start_reading, finish, read_awake,
}
use petulant_wookie.Asgn2.Read.Copy.{copy_page_end}
use petulant_wookie.Asgn2.Read.Search.{has_null, search_null_empty}
use petulant_wookie.Asgn2.Read.Pages.{
  searched, size_asked, read_page_steps, visit_steps, read_pages_more,
}
use petulant_wookie.Asgn2.Read.Span.{passed, visit-passed, whole_page}
use petulant_wookie.Asgn2.Read.Across.{read_awake_steps}

-- Nothing is left to read, at the start of a page.
record AtStart (r : Reading) : Type 0 where
  done_all : r.actual_size ≡ 0
  start : r.head_offset ≡ 0
  no_null : r.null_flag ≡ 0

-- Nothing of the page was read, and it is freed.
abbrev skipped : Reading → Reading
skipped r = record r {
  begin_offset = r.head_offset;
  head_index = wrap_int (r.head_index +ℤ pos 1);
  freed = r.freed + 1;
  curr_page_no = r.curr_page_no + 1;
  num_pages = r.num_pages - 1;
}

visit-skipped :
    (k : Kernel) (fuel : ℕ) (p : Page) (r : Reading)
    → IsKernel k
    → AtStart r
    → visit k fuel (pos 0) p r ≡ done (skipped r)
unfolding free_page
visit-skipped k fuel p r ik a =
    let size : min r.actual_size (k.page_size - r.head_offset) ≡ 0 = omega (arith, a.done_all) in
    let empty = search_null_empty k.page_size p r.head_offset (omega (arith, a.start)) in
    visit_steps k fuel p r (searched false r) (
      read_page_steps k fuel p 0 0 false r _
        (size_asked k.page_size r (omega (arith, a.start)) (omega (arith, a.done_all)) ik.page_small
          ∙ size)
        empty (copy_page_end k fuel p (searched false r)))
    ∙ rw (eq→== r.head_offset 0 a.start) refl

-- The locals when all of the pages were freed.
record Lost (ps : List Page) (r r' : Reading) : Type 0 where
  freed : r'.freed ≡ r.freed + length ps
  num_pages : r'.num_pages ≡ r.num_pages - length ps
  kept : r'.kept ≡ r.kept
  buf : r'.buf ≡ r.buf
  size_read : r'.size_read ≡ r.size_read

read_pages-Lost :
    (k : Kernel) (fuel : ℕ) (ps : List Page) (r : Reading)
    → IsKernel k
    → AtStart r
    → (r' : Reading) × (read_pages k fuel (pos 0) ps r ≡ done r') × Lost ps r r'
unfolding read_pages
read_pages-Lost k fuel [] r ik a = (
  r,
  refl,
  record {
    freed = omega arith;
    num_pages = omega arith;
    kept = refl;
    buf = refl;
    size_read = refl;
  },
)
read_pages-Lost k fuel (p ∷ ps) r ik a =
    let (r', run, l) =
      read_pages-Lost k fuel ps (skipped r) ik
        (record { done_all = a.done_all; start = a.start; no_null = a.no_null }) in
    (
      r',
      read_pages_more k fuel p ps r (skipped r) (visit-skipped k fuel p r ik a) a.no_null ∙ run,
      record {
        freed = omega (arith, l.freed);
        num_pages = omega (arith, l.num_pages);
        kept = l.kept;
        buf = l.buf;
        size_read = l.size_read;
      },
    )

-- An awake read of a valid queue with no null flag and a mapped buffer, with fuel for a page, that
-- asks for exactly the rest of the first page, where the data goes on and there is no null terminator,
-- returns with those bytes. But it frees all pages of the queue, also those that it did not read, so
-- that the bytes after the first page are lost, and the size of the data is what is left modulo 2^32
-- when the size of all pages is taken off.
pub read_awake_boundary :
    (k : Kernel) (fuel count t : ℕ) (p : Page) (ps : List Page) (s : State)
    → IsKernel k
    → Progresses k
    → k.page_size ≤ fuel
    → IsQueue k.page_size t s
    → s.mem_list ≡ p ∷ ps
    → s.page_queue.head_index ≡ pos 0
    → s.null_flag ≡ 0
    → s.page_queue.head_offset < k.page_size
    → s.page_queue.head_offset + count ≡ k.page_size
    → k.page_size ≤ s.data_size
    → has_null (drop s.page_queue.head_offset p) ≡ false
    → (s' : State) × (read_awake k fuel count s
        ≡ done (record { result = count; buf = drop s.page_queue.head_offset p }, s'))
      × (s'.mem_list ≡ [])
      × (s'.num_pages ≡ 0)
      × (s'.data_size ≡ (s.data_size + 2 ^ 32 - s.num_pages * k.page_size) % 2 ^ 32)
unfolding finish
read_awake_boundary k fuel count t p ps s ik pr enough q e first no_null begins ends more no_zero =
    let h = s.page_queue.head_offset in
    let whole : AllLength k.page_size (p ∷ ps) = subst (AllLength k.page_size) e q.whole in
    let all : min count (sub_size s.data_size h) ≡ count = omega (arith, q.within, q.fits) in
    let r = start_reading (min count (sub_size s.data_size h)) s in
    let rest : k.page_size - h ≡ count = omega (arith, ends) in
    let (c, run) = visit-passed k fuel p r ik pr enough (record {
      begins = begins;
      more = omega (arith, all, rest);
      few = omega (arith, all, ends, ik.page_small);
      small = ik.page_small;
      whole = whole.0;
      room = omega (arith, all, ends, ik.page_small);
      no_null = no_zero;
    }) in
    let r1 = passed p (k.page_size - h) c r in
    let (r', run', l) =
      read_pages-Lost k fuel ps r1 ik
        (record { done_all = omega (arith, all, rest); start = refl; no_null = no_null }) in
    let pages : s.num_pages ≡ suc (length ps) = q.counted ∙ ap length e in
    let freed : r'.freed ≡ s.num_pages = omega (arith, l.freed, pages) in
    let size : r'.size_read ≡ count = omega (arith, l.size_read, rest) in
    let bytes : take (k.page_size - h) (drop h p) ≡ drop h p =
      whole_page (k.page_size - h) (drop h p) (omega (arith, length-drop h p, whole.0)) in
    let freed_bytes = ap (λ n. n * k.page_size) freed in
    (
      finish k.page_size s r',
      read_awake_steps k fuel count s r' no_null first (
            ap (λ m. read_pages k fuel (pos 0) m r) e
            ∙ read_pages_more k fuel p ps r r1 run no_null
            ∙ run')
          ∙ ap₂ (λ m b. done (record { result = m; buf = b }, finish k.page_size s r')) size
              (l.buf ∙ bytes),
      l.kept,
      omega (arith, l.num_pages, pages),
      omega (arith, freed_bytes, q.fits),
    )
