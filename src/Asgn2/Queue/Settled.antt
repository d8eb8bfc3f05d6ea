-- ===== src/Asgn2/Queue/Settled.antt =====
-- `bottom_half`: the state that it leaves.
use native.Mathlib.Nat.{mod-eq_of_lt, mod_self}
use petulant_wookie.Base.{
  ℕ, ◌+◌, ◌*◌, ◌%◌, ◌≤◌, ◌<◌, ◌^◌, ◌≡◌, refl, ◌∙◌, ap, ap₂, sym, List, [], ◌++◌, length,
  length-append, length-take, length-drop, length-concat, AllLength, AllLength-append, take, drop,
  overwrite, concat, arith, pos, wrap_int_inc, add_size, ◌==◌, dec_lt, false, ne→==,
}
use petulant_wookie.Kernel.{Kernel, IsKernel, Supplies, done}
use petulant_wookie.Asgn1.Device.{Page}
use petulant_wookie.Asgn2.Port.{CircMacros, IsCirc, buf_size}
use petulant_wookie.Asgn2.Port.Fifo.{window, waiting, contents}
use petulant_wookie.Asgn2.Device.{State}
use petulant_wookie.Asgn2.Queue.{
  Emptying, emptied, start_emptying, settle, store_pages, bottom_half,
}
use petulant_wookie.Asgn2.Queue.Grow.{with_pages, grow_lem}
use petulant_wookie.Asgn2.Queue.Store.{Fits, Stored, store_pages_lem}
use petulant_wookie.Asgn2.Queue.Valid.{
  stored_bytes, IsQueue, IsStraight, window-take, take-overwrite_end, take-concat_more,
}
use petulant_wookie.Asgn2.Queue.Steps.{store_all_lem, bottom_half_steps, page_below, page_number}

-- The tasklet moves what waits, and leaves the read end and the null terminator alone.
pub record KeepsReader (s s' : State) : Type 0 where
  pub head_index : s'.page_queue.head_index ≡ s.page_queue.head_index
  pub head_offset : s'.page_queue.head_offset ≡ s.page_queue.head_offset
  pub null_flag : s'.null_flag ≡ s.null_flag
  pub null_location : s'.null_location ≡ s.null_location
  pub data_size : s'.data_size ≡ s.data_size + waiting s.circ_buffer

module _ (k : Kernel) (ik : IsKernel k) (t : ℕ) (s : State) (q : IsQueue k.page_size t s)
    (st : IsStraight k.page_size s) (new : List Page) (whole_new : AllLength k.page_size new)
    (room : s.data_size + waiting s.circ_buffer ≤ (s.num_pages + length new) * k.page_size)
    (fits : (s.num_pages + length new) * k.page_size < 2 ^ 32) where
  abbrev n : ℕ
  n = waiting s.circ_buffer

  abbrev locals : Emptying
  locals = emptied k.page_size n (start_emptying n s)

  abbrev after : List Page → State
  after ps = settle (with_pages new s) ps locals

  number : length (s.mem_list ++ new) ≡ s.num_pages + length new
  number = omega (arith, length-append s.mem_list new, q.counted)

  Fits-start : Fits k.page_size s.circ_buffer.buf (start_emptying n s)
  Fits-start = record {
    some_left = st.some_waiting;
    inside = st.one_page;
    small = ik.page_small;
    given = omega (arith, st.unbroken, q.circ.cells);
  }

  stored : Stored k.page_size s.circ_buffer.buf t t (s.mem_list ++ new) 0 (start_emptying n s)
  stored =
      store_pages_lem k.page_size s.circ_buffer.buf t t 0 (s.mem_list ++ new) (start_emptying n s)
        (omega arith)
        (let below : t < s.num_pages + length new =
            page_below t s.page_queue.tail_offset n (s.num_pages + length new) k.page_size
              st.some_waiting (omega (arith, room, q.ends)) in
          omega (arith, number, below))
        (AllLength-append k.page_size s.mem_list new q.whole whole_new) Fits-start

  size : (after []).data_size ≡ s.data_size + n
  unfolding settle
  size = omega (arith, room, fits)

  whole : AllLength k.page_size (s.mem_list ++ new)
  whole = AllLength-append k.page_size s.mem_list new q.whole whole_new

  bytes_after :
      (ps : List Page)
      → concat ps
        ≡ overwrite
            (t * k.page_size + s.page_queue.tail_offset)
            (take n (drop s.circ_buffer.head s.circ_buffer.buf))
            (concat (s.mem_list ++ new))
      → stored_bytes (after ps) ≡ stored_bytes s ++ contents s.circ_buffer
  unfolding settle
  bytes_after ps e =
      let cells = concat (s.mem_list ++ new) in
      let bs = take n (drop s.circ_buffer.head s.circ_buffer.buf) in
      let len : length bs ≡ n = omega (
        arith,
        length-take n (drop s.circ_buffer.head s.circ_buffer.buf),
        length-drop s.circ_buffer.head s.circ_buffer.buf,
        q.circ.cells,
        st.unbroken,
      ) in
      let all : length cells ≡ (s.num_pages + length new) * k.page_size =
        length-concat k.page_size (s.mem_list ++ new) whole ∙ ap (λ c. c * k.page_size) number in
      let old : length (concat s.mem_list) ≡ s.num_pages * k.page_size =
        length-concat k.page_size s.mem_list q.whole ∙ ap (λ c. c * k.page_size) (sym q.counted) in
      ap₂ take size (e ∙ ap (λ i. overwrite i bs cells) (sym q.ends))
      ∙ take-overwrite_end s.data_size n (s.data_size + n) bs cells len (omega (arith, room, all))
          refl
      ∙ ap₂ ◌++◌ (take-concat_more s.data_size s.mem_list new (omega (arith, old, q.within)))
          (sym (window-take s.circ_buffer.buf n s.circ_buffer.head q.circ.cells st.unbroken))

  -- The counter of the data grows, and the read end stays.
  keeps : (ps : List Page) → KeepsReader s (after ps)
  unfolding settle
  keeps ps = record {
    head_index = refl;
    head_offset = refl;
    null_flag = refl;
    null_location = refl;
    data_size = size;
  }

  emptied_after : (ps : List Page) → contents (after ps).circ_buffer ≡ []
  unfolding settle
  emptied_after ps =
      let none_left : waiting (after ps).circ_buffer ≡ 0 =
        omega (arith, q.circ.head_in, q.circ.tail_in) in
      ap (window s.circ_buffer.buf ((s.circ_buffer.head + n) % buf_size)) none_left

  -- The page of the tail afterwards.
  page_after :
      (t' : ℕ) × ((after []).page_queue.tail_index ≡ pos t')
      × (s.data_size + n ≡ t' * k.page_size + (after []).page_queue.tail_offset)
      × ((after []).page_queue.tail_offset < k.page_size)
  unfolding settle
  page_after = elim (dec_lt (s.page_queue.tail_offset + n) k.page_size) [
    | yes inside ↦
        let whole_sum : add_size s.page_queue.tail_offset n ≡ s.page_queue.tail_offset + n =
          omega (arith, ik.page_small) in
        let end : add_size s.page_queue.tail_offset n % k.page_size ≡ s.page_queue.tail_offset + n =
          ap (λ x. x % k.page_size) whole_sum ∙ mod-eq_of_lt inside in
        let not_zero : (s.page_queue.tail_offset + n == 0) ≡ false =
          ne→== (s.page_queue.tail_offset + n) 0 (omega (arith, st.some_waiting)) in
        (t, rw (end, not_zero) q.tail, omega (arith, q.ends, end), omega (arith, end))
    | no outside ↦
        let full : s.page_queue.tail_offset + n ≡ k.page_size = omega (arith, st.one_page) in
        let whole_sum : add_size s.page_queue.tail_offset n ≡ k.page_size =
          omega (arith, ik.page_small) in
        let end : add_size s.page_queue.tail_offset n % k.page_size ≡ 0 =
          ap (λ x. x % k.page_size) whole_sum ∙ mod_self k.page_size in
        let below : t < s.num_pages + length new =
          page_below t s.page_queue.tail_offset n (s.num_pages + length new) k.page_size
            st.some_waiting (omega (arith, room, q.ends)) in
        let few : t + 1 < 2 ^ 31 =
          page_number t (s.num_pages + length new) k.page_size ik.page_many below fits in
        (
          t + 1,
          rw (end, q.tail) (wrap_int_inc t few),
          omega (arith, q.ends, end),
          omega (arith, end, ik.page_pos),
        )
  ]

  reset_flag : (ps : List Page) → (after ps).wait_flag ≡ 0
  unfolding settle
  reset_flag ps = refl

  IsQueue-after :
      (ps : List Page)
      → AllLength k.page_size ps
      → length ps ≡ length (s.mem_list ++ new)
      → IsQueue k.page_size page_after.0 (after ps)
  unfolding settle
  IsQueue-after ps whole_ps same = record {
    counted = omega (arith, same, number);
    whole = whole_ps;
    tail = page_after.1;
    ends = size ∙ page_after.2;
    offset = page_after.3;
    within = omega (arith, size, room);
    fits = fits;
    circ = record { cells = q.circ.cells; head_in = omega arith; tail_in = q.circ.tail_in };
  }

pub bottom_half_settled :
    (m : CircMacros) (k : Kernel) (fuel t : ℕ) (s : State)
    → IsCirc m
    → IsKernel k
    → Supplies k
    → IsQueue k.page_size t s
    → IsStraight k.page_size s
    → buf_size ≤ fuel
    → s.data_size + buf_size + k.page_size < 2 ^ 32
    → (s' : State) × (bottom_half m k fuel s ≡ done s')
      × KeepsReader s s'
      × (stored_bytes s' ≡ stored_bytes s ++ contents s.circ_buffer)
      × (contents s'.circ_buffer ≡ [])
      × (s'.wait_flag ≡ 0)
      × (t' : ℕ) × IsQueue k.page_size t' s'
bottom_half_settled m k fuel t s im ik sup q st enough small =
    let n = waiting s.circ_buffer in
    let count : m.circ_cnt s.circ_buffer.tail s.circ_buffer.head buf_size ≡ n =
      im.cnt s.circ_buffer.tail s.circ_buffer.head q.circ.tail_in q.circ.head_in in
    let sum : add_size s.data_size n ≡ s.data_size + n = omega arith in
    let few : n < buf_size = omega arith in
    let (new, whole_new, result, room, fits) =
      grow_lem k fuel 0 (add_size s.data_size n) s ik sup (omega (arith, q.within))
        (omega (arith, sum)) q.fits in
    let room' : s.data_size + n ≤ (s.num_pages + length new) * k.page_size =
      omega (arith, sum, room) in
    let (ps, run, cells, whole_ps, same) = stored k ik t s q st new whole_new room' fits in
    (
      after k ik t s q st new whole_new room' fits ps,
      bottom_half_steps m k fuel n s (with_pages new s) _ count result (
          store_all_lem k n (with_pages new s) ps _ (
            ap
              (λ b.
                store_pages k.page_size s.circ_buffer.buf b (s.mem_list ++ new) 0
                  (start_emptying n (with_pages new s)))
              q.tail
            ∙ run)),
      keeps k ik t s q st new whole_new room' fits ps,
      bytes_after k ik t s q st new whole_new room' fits ps cells,
      emptied_after k ik t s q st new whole_new room' fits ps,
      reset_flag k ik t s q st new whole_new room' fits ps,
      (page_after k ik t s q st new whole_new room' fits).0,
      IsQueue-after k ik t s q st new whole_new room' fits ps whole_ps same,
    )
