-- ===== src/Asgn1/RoundTrip.antt =====
-- `asgn1_write` followed by `asgn1_read`.
use petulant_wookie.Base.{
  ℕ, ◌+◌, ◌-◌, ◌≤◌, ◌<◌, ◌^◌, ◌≡◌, ◌∙◌, ap, List, ◌++◌, some, take, drop, arith, length, concat,
  take-drop-overwrite, length-overwrite, min,
}
use petulant_wookie.Kernel.{Kernel, IsKernel, Progresses, Supplies, ok}
use petulant_wookie.Asgn1.Device.{Device, IsValid}
use petulant_wookie.Asgn1.Read.{Reading, asgn1_read}
use petulant_wookie.Asgn1.Read.Correct.{result, asgn1_read_lem}
use petulant_wookie.Asgn1.Write.{asgn1_write}
use petulant_wookie.Asgn1.Write.Correct.{Wrote, asgn1_write_supplied}

module _ (page_size : ℕ) (d d' : Device) (buf : List ℕ) (f_pos : ℕ)
    (wrote : Wrote page_size d buf f_pos d') where
  reads_back : take (length buf) (drop f_pos (concat d'.mem_list)) ≡ buf
  reads_back =
      ap (λ t. take (length buf) (drop f_pos t)) wrote.bytes
      ∙ take-drop-overwrite f_pos buf (concat d.mem_list ++ concat wrote.new) (
          omega (
            arith,
            wrote.holds,
            ap length wrote.bytes,
            length-overwrite f_pos buf (concat d.mem_list ++ concat wrote.new),
          ))

  all_there : min (length buf) (d'.data_size - f_pos) ≡ length buf
  all_there = omega (arith, wrote.size)

-- What `asgn1_write` stored at a position, `asgn1_read` returns from there, whole and unchanged: with
-- memory for the pages, a mapped buffer of less than 2^31 bytes that ends a page below 2^32, and fuel
-- for the loops, a write of a buffer to a valid device succeeds, and a read of as many bytes at the
-- same position then returns the buffer and leaves the position after it.
pub asgn1_read-asgn1_write :
    (k : Kernel) (fuel : ℕ) (d : Device) (buf : List ℕ) (f_pos : ℕ)
    → IsKernel k
    → Progresses k
    → Supplies k
    → k.page_size ≤ fuel
    → f_pos + length buf ≤ fuel
    → IsValid k.page_size d
    → length buf < 2 ^ 31
    → f_pos + length buf + k.page_size < 2 ^ 32
    → (d' : Device) × (r : Reading) × (asgn1_write k fuel d buf (length buf) f_pos
        ≡ some (ok (length buf), d', f_pos + length buf))
      × (asgn1_read k fuel d' (length buf) f_pos ≡ some r)
      × (r.buf ≡ buf)
      × (r.size_read ≡ length buf)
      × (r.f_pos ≡ f_pos + length buf)
asgn1_read-asgn1_write k fuel d buf f_pos ik pr su enough enough' v small room =
    let (d', e, w) = asgn1_write_supplied k fuel d buf f_pos ik pr su enough enough' v small room in
    let (c, e') = asgn1_read_lem k fuel d' (length buf) f_pos ik pr enough w.valid small in
    let all = all_there k.page_size d d' buf f_pos w in
    (
      d',
      result d' f_pos (min (length buf) (d'.data_size - f_pos)) c,
      e,
      e',
      ap (λ n. take n (drop f_pos (concat d'.mem_list))) all
          ∙ reads_back k.page_size d d' buf f_pos w,
      all,
      ap (λ n. f_pos + n) all,
    )
