-- ===== src/Lab3/Seek/Copy.antt =====
-- `mycdrv_read` and `mycdrv_write` from a position in the ramdisk.
use petulant_wookie.Base.{
  ℕ, ◌+◌, ◌-◌, ◌*◌, ◌≤◌, ◌<◌, ◌^◌, ◌≡◌, ◌∙◌, ap, List, true, length, take, drop, overwrite, min,
  pos, ◌+ℤ◌, ◌-ℤ◌, wrap_int, wrap_loff, to_int, to_int_small, to_size, sub_size, sub_size-eq, arith,
}
use petulant_wookie.Kernel.{Kernel, IsKernel, done}
use petulant_wookie.Lab3.Seek.{
  ramdisk_size, Ramdisk, bytes_to_do, padded, in_ramdisk, mycdrv_read, mycdrv_write,
}

-- There is a ramdisk, and its size is a positive `int`.
pub record IsRamdisk (page_size : ℕ) (ramdisk : Ramdisk) : Type 0 where
  pub size : length ramdisk ≡ 16 * page_size
  pub small : 16 * page_size < 2 ^ 31

-- What can be asked for from position `p` on, and what of it is copied.
abbrev pub wanted : Ramdisk → ℕ → ℕ → ℕ
wanted ramdisk lbuf p = min lbuf (length ramdisk - p)

abbrev pub copied : Kernel → ℕ → ℕ
copied k n = n - k.left 0 n

maxbytes_lem :
    (size p : ℕ) → p ≤ size → size < 2 ^ 31 → to_size (wrap_int (pos size -ℤ pos p)) ≡ size - p
unfolding ◌-ℤ◌
maxbytes_lem size p h small = ground arith

pub bytes_to_do_lem :
    (page_size : ℕ) (ramdisk : Ramdisk) (lbuf p : ℕ)
    → IsRamdisk page_size ramdisk
    → p ≤ length ramdisk
    → bytes_to_do page_size lbuf (pos p) ≡ wanted ramdisk lbuf p
unfolding bytes_to_do
bytes_to_do_lem page_size ramdisk lbuf p r h =
    let size : ramdisk_size page_size ≡ length ramdisk = omega (arith, r.size, r.small) in
    let left : to_size (wrap_int (pos (ramdisk_size page_size) -ℤ pos p)) ≡ length ramdisk - p =
      ap (λ n. to_size (wrap_int (pos n -ℤ pos p))) size
      ∙ maxbytes_lem (length ramdisk) p h (omega (arith, r.size, r.small)) in
    rw left (ground arith)

next_position : (p n : ℕ) → p < 2 ^ 31 → n < 2 ^ 31 → wrap_loff (pos p +ℤ to_int n) ≡ pos (p + n)
unfolding ◌+ℤ◌
next_position p n h h' = ap (λ i. wrap_loff (pos p +ℤ i)) (to_int_small n h') ∙ ground arith

inside :
    (ramdisk : Ramdisk) (p n : ℕ) → p + n ≤ length ramdisk → in_ramdisk ramdisk (pos p) n ≡ true
unfolding in_ramdisk
inside ramdisk p n h = ground arith

module _ (k : Kernel) (ik : IsKernel k) (ramdisk : Ramdisk)
    (r : IsRamdisk k.page_size ramdisk) where
  -- The parts of both functions.
  moved :
      (lbuf p : ℕ)
      → p ≤ length ramdisk
      → let n = wanted ramdisk lbuf p in
        (in_ramdisk ramdisk (pos p) n ≡ true)
        × (sub_size n (k.left 0 n) ≡ copied k n)
        × (to_int (copied k n) ≡ pos (copied k n))
        × (wrap_loff (pos p +ℤ to_int (copied k n)) ≡ pos (p + copied k n))
  moved lbuf p h =
      let n = wanted ramdisk lbuf p in
      let small : n < 2 ^ 31 = omega (arith, r.size, r.small) in
      let below : p < 2 ^ 31 = omega (arith, r.size, r.small) in
      let some_left : k.left 0 n ≤ n = ik.left_le 0 n in
      (
        inside ramdisk p n (omega arith),
        sub_size-eq n (k.left 0 n) some_left (omega arith),
        to_int_small (copied k n) (omega arith),
        next_position p (copied k n) below (omega arith),
      )

  pub mycdrv_read_lem :
      (lbuf p : ℕ)
      → p ≤ length ramdisk
      → let n = copied k (wanted ramdisk lbuf p) in
        mycdrv_read k ramdisk lbuf (pos p)
        ≡ done (record { nbytes = pos n; f_pos = pos (p + n); bytes = take n (drop p ramdisk) })
  unfolding mycdrv_read
  mycdrv_read_lem lbuf p h =
      let (fits, count, int, next) = moved lbuf p h in
      rw (bytes_to_do_lem k.page_size ramdisk lbuf p r h, fits, count, next, int)

  pub mycdrv_write_lem :
      (buf : List ℕ) (lbuf p : ℕ)
      → p ≤ length ramdisk
      → let asked = wanted ramdisk lbuf p in
        let n = copied k asked in
        mycdrv_write k ramdisk buf lbuf (pos p)
        ≡ done (record {
          nbytes = pos n;
          f_pos = pos (p + n);
          bytes = overwrite p (padded asked n buf) ramdisk;
        })
  unfolding mycdrv_write
  mycdrv_write_lem buf lbuf p h =
      let (fits, count, int, next) = moved lbuf p h in
      rw (bytes_to_do_lem k.page_size ramdisk lbuf p r h, fits, count, next, int)
