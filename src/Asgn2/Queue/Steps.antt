-- ===== src/Asgn2/Queue/Steps.antt =====
-- `bottom_half`: its parts after one another, and the number of the tail's page.
use native.Mathlib.Nat.{mul-le-mul_right, mul-le-mul_left}
use petulant_wookie.Base.{ℕ, ◌+◌, ◌*◌, ◌≤◌, ◌<◌, ◌^◌, ◌≡◌, List, arith, add_size, dec_lt}
use petulant_wookie.Kernel.{Kernel, Run, done}
use petulant_wookie.Asgn1.Device.{Page}
use petulant_wookie.Asgn2.Port.{CircMacros, buf_size}
use petulant_wookie.Asgn2.Device.{State}
use petulant_wookie.Asgn2.Queue.{
  grown, grow, Emptying, start_emptying, settle, store_pages, store_all, bottom_half,
}

pub store_all_lem :
    (k : Kernel) (n : ℕ) (s : State) (ps : List Page) (e : Emptying)
    → store_pages k.page_size s.circ_buffer.buf s.page_queue.tail_index s.mem_list 0
        (start_emptying n s)
      ≡ done (ps, e)
    → store_all k n s ≡ done (settle s ps e)
unfolding store_all
store_all_lem k n s ps e r = rw (r, store_all)

pub bottom_half_steps :
    (m : CircMacros) (k : Kernel) (fuel n : ℕ) (s s1 : State) (r : Run State)
    → m.circ_cnt s.circ_buffer.tail s.circ_buffer.head buf_size ≡ n
    → grow k fuel 0 (add_size s.data_size n) s ≡ grown s1
    → store_all k n s1 ≡ r
    → bottom_half m k fuel s ≡ r
unfolding bottom_half
bottom_half_steps m k fuel n s s1 r c g e = rw (c, bottom_half) (rw g (rw c e))

pub page_below :
    (t o n count page_size : ℕ) → 0 < n → t * page_size + o + n ≤ count * page_size → t < count
page_below t o n count page_size h l = elim (dec_lt t count) [
  | yes below ↦ below
  | no above ↦
      let high : count ≤ t = omega arith in absurd (omega (arith, mul-le-mul_right page_size high))
]

pub page_number :
    (t count page_size : ℕ)
    → 1 < page_size
    → t < count
    → count * page_size < 2 ^ 32
    → t + 1 < 2 ^ 31
page_number t count page_size many below fits =
    let twice : count * 2 ≤ count * page_size = mul-le-mul_left count many in omega arith
