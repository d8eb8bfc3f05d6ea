-- ===== src/Asgn1/Read/Correct.antt =====
-- `asgn1_read` against the device's bytes laid end to end.
use native.Mathlib.Nat.{div-add-mod', div-lt_iff_lt-mul}
use petulant_wookie.Base.{
  ℕ, ◌+◌, ◌-◌, ◌*◌, ◌/◌, ◌%◌, ◌≤◌, ◌<◌, ◌^◌, ◌≡◌, ◌∙◌, ap, sym, some, take, drop, arith, length,
  length-take, length-drop, concat, length-concat, min, dec_lt, sub_size, pos, to_int, to_int_small,
}
use petulant_wookie.Kernel.{Kernel, IsKernel, Progresses}
use petulant_wookie.Asgn1.Device.{Device, IsValid}
use petulant_wookie.Asgn1.Read.{Reading, read_pages, start_reading, asgn1_read}
use petulant_wookie.Asgn1.Read.Pages.{give, read_pages_lem}

-- A page number below 2^31 is the same as an `int`.
pub page_number :
    (k : Kernel) (f_pos : ℕ)
    → IsKernel k
    → f_pos < 2 ^ 32
    → to_int (f_pos / k.page_size) ≡ pos (f_pos / k.page_size)
page_number k f_pos ik h =
    to_int_small (f_pos / k.page_size) ((div-lt_iff_lt-mul ik.page_pos).1 bound)
  where
    bound : f_pos < 2 ^ 31 * k.page_size
    bound = let many = ik.page_many in omega arith

-- What a read of `n` bytes at `f_pos` returns.
abbrev pub result : Device → ℕ → ℕ → ℕ → Reading
result d f_pos n c = record {
  f_pos = f_pos + n;
  actual_size = 0;
  size_read = n;
  buf = take n (drop f_pos (concat d.mem_list));
  calls = c;
}

module _ (k : Kernel) (fuel : ℕ) (d : Device) (count f_pos : ℕ) where
  past_end : d.data_size < f_pos → asgn1_read k fuel d count f_pos ≡ some (start_reading f_pos 0)
  unfolding asgn1_read
  past_end h = ground arith

  pub within :
      f_pos ≤ d.data_size
      → asgn1_read k fuel d count f_pos
        ≡ read_pages k fuel
            (to_int (f_pos / k.page_size))
            d.mem_list
            0
            (start_reading f_pos (min count (sub_size d.data_size (f_pos % 2 ^ 32))))
  unfolding asgn1_read
  within h = ground arith

pub give-eq-result :
    (d : Device) (f_pos n m c : ℕ)
    → n ≡ m
    → f_pos + n ≤ length (concat d.mem_list)
    → give (take n (drop f_pos (concat d.mem_list))) c (start_reading f_pos n) ≡ result d f_pos m c
give-eq-result d f_pos n m c e h =
    ground
      (arith, length-take n (drop f_pos (concat d.mem_list)), length-drop f_pos (concat d.mem_list))

-- Called on a valid device with a mapped buffer, a count below 2^31 and fuel for a page,
-- `asgn1_read` returns. It returns the count cut to what the device holds from the position on, has
-- put exactly those bytes in the buffer, and has moved the position on by their number; past the end
-- of the data it returns 0 and leaves the position.
pub asgn1_read_lem :
    (k : Kernel) (fuel : ℕ) (d : Device) (count f_pos : ℕ)
    → IsKernel k
    → Progresses k
    → k.page_size ≤ fuel
    → IsValid k.page_size d
    → count < 2 ^ 31
    → (c : ℕ) × (asgn1_read k fuel d count f_pos
        ≡ some (result d f_pos (min count (d.data_size - f_pos)) c))
asgn1_read_lem k fuel d count f_pos ik pr enough v small = elim (dec_lt d.data_size f_pos) [
  | yes h ↦
      let e : 0 ≡ min count (d.data_size - f_pos) = omega arith in
      let e' : start_reading f_pos 0 ≡ result d f_pos 0 0 = ground arith in
      (0, past_end k fuel d count f_pos h ∙ ap some (e' ∙ ap (λ n. result d f_pos n 0) e))
  | no h ↦
      let inside : f_pos ≤ d.data_size = omega arith in
      let n = min count (sub_size d.data_size (f_pos % 2 ^ 32)) in
      let q = f_pos / k.page_size in
      let fits : d.data_size < 2 ^ 32 = let b = v.within in let f = v.fits in omega arith in
      let asked : n ≡ min count (d.data_size - f_pos) = omega arith in
      let bytes : length (concat d.mem_list) ≡ d.num_pages * k.page_size =
        length-concat k.page_size d.mem_list v.whole ∙ ap (λ t. t * k.page_size) (sym v.counted) in
      let (c, e) =
        read_pages_lem k fuel ik pr enough q 0 q d.mem_list (start_reading f_pos n) (omega arith)
          v.whole (omega arith) in
      let at : q * k.page_size + f_pos % k.page_size ≡ f_pos = div-add-mod' f_pos k.page_size in
      (
        c,
        within k fuel d count f_pos inside
            ∙ ap (λ b. read_pages k fuel b d.mem_list 0 (start_reading f_pos n))
                (page_number k f_pos ik (omega arith))
            ∙ e
            ∙ ap some (
                ap (λ o. give (take n (drop o (concat d.mem_list))) c (start_reading f_pos n)) at
                ∙ give-eq-result d f_pos n (min count (d.data_size - f_pos)) c asked
                    (let w = v.within in omega arith)),
      )
]
