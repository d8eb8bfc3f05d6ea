-- ===== src/Asgn2/Queue/Spurious.antt =====
-- `bottom_half` when no byte waits: a tasklet that an interrupt scheduled while it already ran.
use petulant_wookie.Base.{
  ℕ, ◌+◌, ◌*◌, ◌<◌, ◌^◌, ◌≡◌, refl, ◌∙◌, ap, sym, arith, pos, pos_part, wrap_int_inc, add_size,
}
use petulant_wookie.Kernel.{Kernel, IsKernel, done}
use petulant_wookie.Asgn2.Port.{CircMacros, IsCirc, buf_size}
use petulant_wookie.Asgn2.Port.Fifo.{waiting}
use petulant_wookie.Asgn2.Device.{State}
use petulant_wookie.Asgn2.Queue.{start_emptying, settle, store_pages, bottom_half}
use petulant_wookie.Asgn2.Queue.Grow.{grow_done}
use petulant_wookie.Asgn2.Queue.Store.{store_pages_empty}
use petulant_wookie.Asgn2.Queue.Steps.{bottom_half_steps, store_all_lem, page_number}
use petulant_wookie.Asgn2.Queue.Valid.{IsQueue}

-- The state that such a run leaves.
abbrev pub after_spurious : State → State
after_spurious s = settle s s.mem_list (start_emptying 0 s)

module _ (k : Kernel) (ik : IsKernel k) (t : ℕ) (s : State) (q : IsQueue k.page_size t s)
    (small : s.data_size + k.page_size < 2 ^ 32) where
  few : t + 1 < 2 ^ 31
  few =
      let next : (t + 1) * k.page_size ≡ t * k.page_size + k.page_size = omega arith in
      page_number t (t + 1) k.page_size ik.page_many (omega arith) (omega (arith, q.ends))

  moved_on : (after_spurious s).page_queue.tail_index ≡ pos (t + 1)
  unfolding settle
  moved_on = rw q.tail (wrap_int_inc t few)

  misplaced : (t' : ℕ) → ¬ IsQueue k.page_size t' (after_spurious s)
  unfolding settle
  misplaced t' q' =
      let same : t' ≡ t + 1 = ap pos_part (sym q'.tail ∙ moved_on) in
      let next : (t + 1) * k.page_size ≡ t * k.page_size + k.page_size = omega arith in
      let product : t' * k.page_size ≡ t * k.page_size + k.page_size =
        ap (λ x. x * k.page_size) same ∙ next in
      let ends = q'.ends in absurd (omega (arith, q.ends, q.offset))

-- On a valid queue with no byte waiting and room for a page below 2^32, bottom_half returns with the
-- tail moved to the start of the next page and the data as long as before: the queue that it leaves
-- is not valid, whichever page is taken for the tail's.
pub bottom_half_spurious :
    (m : CircMacros) (k : Kernel) (fuel t t' : ℕ) (s : State)
    → IsCirc m
    → IsKernel k
    → IsQueue k.page_size t s
    → waiting s.circ_buffer ≡ 0
    → s.data_size + k.page_size < 2 ^ 32
    → (s' : State) × (bottom_half m k fuel s ≡ done s')
      × (s'.data_size ≡ s.data_size)
      × (s'.page_queue.tail_index ≡ pos (t + 1))
      × (s'.page_queue.tail_offset ≡ 0)
      × (¬ IsQueue k.page_size t' s')
unfolding settle
bottom_half_spurious m k fuel t t' s im ik q idle small =
    let count : m.circ_cnt s.circ_buffer.tail s.circ_buffer.head buf_size ≡ 0 =
      im.cnt s.circ_buffer.tail s.circ_buffer.head q.circ.tail_in q.circ.head_in ∙ idle in
    (
      after_spurious s,
      bottom_half_steps m k fuel 0 s s _ count
          (grow_done k fuel 0 (add_size s.data_size 0) s q.fits (omega (arith, q.within)))
          (store_all_lem k 0 s s.mem_list _ (
            ap (λ b. store_pages k.page_size s.circ_buffer.buf b s.mem_list 0 (start_emptying 0 s))
              q.tail
            ∙ store_pages_empty k.page_size s.circ_buffer.buf t 0 s.mem_list (start_emptying 0 s)
                refl)),
      omega arith,
      moved_on k ik t s q small,
      refl,
      misplaced k ik t s q small t',
    )
