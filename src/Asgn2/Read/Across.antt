-- ===== src/Asgn2/Read/Across.antt =====
-- `asgn2_read`, awake: it gives the bytes of the queue across its pages, and frees those it has read.
use native.Mathlib.Nat.{mul-le-mul_left}
use petulant_wookie.Base.{
  ℕ, ◌+◌, ◌-◌, ◌*◌, ◌≤◌, ◌<◌, ◌^◌, ◌≡◌, refl, ◌∙◌, ap, ap₂, sym, subst, drop-drop, drop-take,
  take-take, length, length-concat, length-drop, length-take, AllLength, take, drop, concat, min,
  arith, Bool, false, sub_size, mul_size, pos, wrap_int, ◌-ℤ◌, ◌==◌, ne→==, if◌then◌else◌,
}
use petulant_wookie.Kernel.{Kernel, IsKernel, Progresses, done}
use petulant_wookie.Asgn2.Device.{State}
use petulant_wookie.Asgn2.Queue.Valid.{IsQueue, stored_bytes, unread}
use petulant_wookie.Asgn2.Read.{Reading, read_pages, start_reading, finish, read_awake}
use petulant_wookie.Asgn2.Read.Search.{before_null, has_null, length-before_null}
use petulant_wookie.Asgn2.Read.Freed.{
  concat-drop, AllLength-drop, wrap_int_diff, minus_times, pages_below,
}
use petulant_wookie.Asgn2.Read.Span.{wanted}
use petulant_wookie.Asgn2.Read.Spans.{InPages, Spanned, read_pages-Spanned}

-- A read that ends `offset` bytes into a page, after `pages` pages.
pub record EndsIn (page_size count pages offset : ℕ) (s : State) : Type 0 where
  pub begins : s.page_queue.head_offset < page_size
  pub few : min count (s.data_size - s.page_queue.head_offset) < 2 ^ 31
  pub ends :
      s.page_queue.head_offset + length (before_null (take count (unread s)))
      ≡ pages * page_size + offset
  pub moves : 0 < offset
  pub inside : offset < page_size

-- The state after the read: the pages before its end are freed.
pub record Moved (page_size tail_page pages offset : ℕ) (found : Bool) (s s' : State) : Type 0 where
  pub head_offset : s'.page_queue.head_offset ≡ offset
  pub head_index : s'.page_queue.head_index ≡ pos 0
  pub null_flag : s'.null_flag ≡ (if found then 1 else 0)
  pub bytes : stored_bytes s' ≡ drop (pages * page_size) (stored_bytes s)
  pub data_size : s'.data_size + pages * page_size ≡ s.data_size
  pub queue : IsQueue page_size (tail_page - pages) s'

pub read_awake_steps :
    (k : Kernel) (fuel count : ℕ) (s : State) (r : Reading)
    → s.null_flag ≡ 0
    → s.page_queue.head_index ≡ pos 0
    → read_pages k fuel
        (pos 0)
        s.mem_list
        (start_reading (min count (sub_size s.data_size s.page_queue.head_offset)) s)
      ≡ done r
    → read_awake k fuel count s
      ≡ done (record { result = r.size_read; buf = r.buf }, finish k.page_size s r)
unfolding read_awake
read_awake_steps k fuel count s r no_null first e =
    let open_flag : (s.null_flag == 1) ≡ false = ne→== s.null_flag 1 (omega arith) in
    let run : read_pages k fuel s.page_queue.head_index s.mem_list
          (start_reading (min count (sub_size s.data_size s.page_queue.head_offset)) s)
        ≡ done r =
      ap
        (λ b.
          read_pages k fuel b s.mem_list
            (start_reading (min count (sub_size s.data_size s.page_queue.head_offset)) s))
        first
      ∙ e in
    rw (open_flag, read_awake) (rw run refl)

module _ (k : Kernel) (ik : IsKernel k) (count pages offset t : ℕ) (s : State)
    (q : IsQueue k.page_size t s) (first : s.page_queue.head_index ≡ pos 0)
    (no_null : s.null_flag ≡ 0) (read_data : s.page_queue.head_offset ≤ s.data_size)
    (ends : EndsIn k.page_size count pages offset s) where
  abbrev r0 : Reading
  r0 = start_reading (min count (sub_size s.data_size s.page_queue.head_offset)) s

  left : sub_size s.data_size s.page_queue.head_offset ≡ s.data_size - s.page_queue.head_offset
  left = omega (arith, q.within, q.fits)

  cells : length (concat s.mem_list) ≡ s.num_pages * k.page_size
  cells = length-concat k.page_size s.mem_list q.whole ∙ ap (λ c. c * k.page_size) (sym q.counted)

  wanted-unread : wanted s.mem_list r0 ≡ take count (unread s)
  wanted-unread =
      let h = s.page_queue.head_offset in
      let bytes = drop h (concat s.mem_list) in
      let least : min (s.data_size - h) count ≡ min count (s.data_size - h) = omega arith in
      ap (λ d. take (min count d) bytes) left
      ∙ sym (
          ap (take count) (drop-take h s.data_size (concat s.mem_list))
          ∙ take-take count (s.data_size - h) bytes
          ∙ ap (λ n. take n bytes) least)

  -- Fewer pages than 2^31.
  few_pages : length s.mem_list < 2 ^ 31
  few_pages =
      let twice : s.num_pages * 2 ≤ s.num_pages * k.page_size =
        mul-le-mul_left s.num_pages ik.page_many in
      omega (arith, q.counted, q.fits, twice)

  InPages-start : InPages k.page_size s.mem_list r0
  InPages-start = record {
    begins = ends.begins;
    available =
        let all : length s.mem_list * k.page_size ≡ s.num_pages * k.page_size =
          ap (λ c. c * k.page_size) (sym q.counted) in
        omega (arith, left, q.within, all);
    few = omega (arith, left, ends.few);
    small = ik.page_small;
    whole = q.whole;
    room = omega (arith, left, ends.few);
    no_null = no_null;
    head = first;
    count = omega (arith, few_pages);
  }

  -- The read ends within the data, and so before the end of the tail's page.
  given_le : pages * k.page_size + offset ≤ s.data_size
  given_le = omega (
    arith,
    ends.ends,
    length-before_null (take count (unread s)),
    length-take count (unread s),
    length-drop s.page_queue.head_offset (stored_bytes s),
    length-take s.data_size (concat s.mem_list),
    read_data,
  )

  few_tail : t < 2 ^ 31
  few_tail =
      let twice : t * 2 ≤ t * k.page_size = mul-le-mul_left t ik.page_many in
      omega (arith, twice, q.ends, q.within, q.fits)

  pages_le : pages ≤ t
  pages_le =
      pages_below pages offset t s.page_queue.tail_offset k.page_size
        (omega (arith, given_le, q.ends)) q.offset

  Moved-finish :
      (r : Reading)
      → Spanned k.page_size pages offset s.mem_list r0 r
      → Moved k.page_size t pages offset
          (has_null (take count (unread s)))
          s
          (finish k.page_size s r)
  unfolding finish
  Moved-finish r sp =
      let number : r.freed ≡ pages = omega (arith, sp.freed) in
      let number_times = ap (λ n. n * k.page_size) number in
      let rest : sub_size s.data_size (mul_size r.freed k.page_size)
          ≡ s.data_size - pages * k.page_size =
        omega (arith, number_times, given_le, q.within, q.fits) in
      let back = minus_times t pages k.page_size pages_le in
      let num_times = ap (λ n. n * k.page_size) sp.num_pages in
      let back' = minus_times s.num_pages pages k.page_size (omega (arith, sp.below, q.counted)) in
      record {
        head_offset = sp.head_offset;
        head_index =
            ap₂ (λ h n. wrap_int (h -ℤ pos n))
              (sp.head_index ∙ ap pos (let z : 0 + pages ≡ pages = omega arith in z)) number
            ∙ wrap_int_diff pages pages (omega arith) (omega (arith, few_pages, sp.below))
            ∙ ap pos (let z : pages - pages ≡ 0 = omega arith in z);
        null_flag = sp.null_flag ∙ ap (λ l. if has_null l then 1 else 0) wanted-unread;
        bytes =
            ap₂ take rest (
              ap concat sp.kept
              ∙ concat-drop k.page_size pages s.mem_list q.whole (omega (arith, sp.below)))
            ∙ sym (drop-take (pages * k.page_size) s.data_size (concat s.mem_list));
        data_size = omega (arith, rest, given_le);
        queue = record {
          counted =
              omega
                (arith, sp.num_pages, q.counted, ap length sp.kept, length-drop pages s.mem_list);
          whole =
              subst (AllLength k.page_size) (sym sp.kept)
                (AllLength-drop k.page_size pages s.mem_list q.whole);
          tail =
              ap₂ (λ i n. wrap_int (i -ℤ pos n)) q.tail number
              ∙ wrap_int_diff t pages pages_le few_tail;
          ends = omega (arith, rest, back, q.ends, given_le);
          offset = q.offset;
          within = omega (arith, rest, back', q.within, num_times, given_le);
          fits = omega (arith, back', q.fits, num_times);
          circ = q.circ;
        };
      }

  unread-Moved :
      (found : Bool) (s' : State)
      → Moved k.page_size t pages offset found s s'
      → unread s' ≡ drop (length (before_null (take count (unread s)))) (unread s)
  unread-Moved found s' m =
      let n = length (before_null (take count (unread s))) in
      ap₂ drop m.head_offset m.bytes
      ∙ drop-drop (pages * k.page_size) offset (stored_bytes s)
      ∙ ap (λ i. drop i (stored_bytes s)) (sym ends.ends)
      ∙ sym (drop-drop s.page_queue.head_offset n (stored_bytes s))

-- An awake read of a valid queue with its head in the first page, no null flag, a mapped buffer and
-- fuel for a page, which asks for less than 2^31 bytes that are there and does not end on the boundary
-- of a page, returns. The user gets the next bytes of the queue, as many as were asked for and are
-- there, but only those before the first null terminator, across pages; the result is their number.
-- The pages before the end of the read are freed and the others stay, the indices and counters
-- follow, the null flag says whether there was a null terminator, and the queue is valid and goes on
-- with the byte after those that were given.
pub read_awake_across :
    (k : Kernel) (fuel count pages offset t : ℕ) (s : State)
    → IsKernel k
    → Progresses k
    → k.page_size ≤ fuel
    → IsQueue k.page_size t s
    → s.page_queue.head_index ≡ pos 0
    → s.null_flag ≡ 0
    → s.page_queue.head_offset ≤ s.data_size
    → EndsIn k.page_size count pages offset s
    → let bytes = before_null (take count (unread s)) in
      (s' : State) × (read_awake k fuel count s
        ≡ done (record { result = length bytes; buf = bytes }, s'))
      × Moved k.page_size t pages offset (has_null (take count (unread s))) s s'
      × (unread s' ≡ drop (length bytes) (unread s))
read_awake_across k fuel count pages offset t s ik pr enough q first no_null read_data ends =
    let want = take count (unread s) in
    let same = wanted-unread k ik count pages offset t s q first no_null read_data ends in
    let start = r0 k ik count pages offset t s q first no_null read_data ends in
    let (r, run, sp) =
      read_pages-Spanned k fuel pages offset s.mem_list start ik pr enough
        (InPages-start k ik count pages offset t s q first no_null read_data ends) ends.moves
        ends.inside
        (ap (λ l. s.page_queue.head_offset + length (before_null l)) same ∙ ends.ends) in
    let moved = Moved-finish k ik count pages offset t s q first no_null read_data ends r sp in
    let size : r.size_read ≡ length (before_null want) =
      omega (arith, sp.size_read, ap (λ l. length (before_null l)) same) in
    (
      finish k.page_size s r,
      read_awake_steps k fuel count s r no_null first run
          ∙ ap₂ (λ m b. done (record { result = m; buf = b }, finish k.page_size s r)) size
              (sp.buf ∙ ap before_null same),
      moved,
      unread-Moved k ik count pages offset t s q first no_null read_data ends (has_null want)
          (finish k.page_size s r) moved,
    )
