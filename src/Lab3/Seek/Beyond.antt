-- ===== src/Lab3/Seek/Beyond.antt =====
-- `mycdrv_read` and `mycdrv_write` at a position past the end of the ramdisk, as `pread` passes it.
use petulant_wookie.Base.{
  ℕ, ◌+◌, ◌-◌, ◌<◌, ◌^◌, ◌≡◌, ◌∙◌, ap, List, length, false, pos, ◌-ℤ◌, wrap_int, to_size, arith,
}
use petulant_wookie.Kernel.{Kernel, overrun}
use petulant_wookie.Lab3.Seek.{
  ramdisk_size, Ramdisk, bytes_to_do, in_ramdisk, mycdrv_read, mycdrv_write,
}
use petulant_wookie.Lab3.Seek.Copy.{IsRamdisk}

negative :
    (size p : ℕ)
    → size < p
    → p < size + 2 ^ 31
    → size < 2 ^ 31
    → to_size (wrap_int (pos size -ℤ pos p)) ≡ 2 ^ 32 - (p - size)
unfolding ◌-ℤ◌
negative size p h near small = ground arith

asked_beyond :
    (page_size : ℕ) (ramdisk : Ramdisk) (lbuf p : ℕ)
    → IsRamdisk page_size ramdisk
    → length ramdisk < p
    → p < length ramdisk + 2 ^ 31
    → lbuf < 2 ^ 31
    → bytes_to_do page_size lbuf (pos p) ≡ lbuf
unfolding bytes_to_do
asked_beyond page_size ramdisk lbuf p r h near few =
    let size : ramdisk_size page_size ≡ length ramdisk = omega (arith, r.size, r.small) in
    let left : to_size (wrap_int (pos (ramdisk_size page_size) -ℤ pos p))
        ≡ 2 ^ 32 - (p - length ramdisk) =
      ap (λ n. to_size (wrap_int (pos n -ℤ pos p))) size
      ∙ negative (length ramdisk) p h near (omega (arith, r.size, r.small)) in
    rw left (ground arith)

outside :
    (ramdisk : Ramdisk) (p n : ℕ)
    → 0 < n
    → length ramdisk < p
    → in_ramdisk ramdisk (pos p) n ≡ false
unfolding in_ramdisk
outside ramdisk p n some_bytes h = ground arith

-- At a position past the end, by less than 2^31, a read and a write of at least one byte and less than
-- 2^31 do not stop at the end: they access memory outside the ramdisk.
pub mycdrv_read-mycdrv_write_beyond :
    (k : Kernel) (ramdisk : Ramdisk) (buf : List ℕ) (lbuf p : ℕ)
    → IsRamdisk k.page_size ramdisk
    → length ramdisk < p
    → p < length ramdisk + 2 ^ 31
    → 0 < lbuf
    → lbuf < 2 ^ 31
    → (mycdrv_read k ramdisk lbuf (pos p) ≡ overrun)
      × (mycdrv_write k ramdisk buf lbuf (pos p) ≡ overrun)
unfolding mycdrv_read mycdrv_write
mycdrv_read-mycdrv_write_beyond k ramdisk buf lbuf p r h near some_bytes few =
    let n = asked_beyond k.page_size ramdisk lbuf p r h near few in
    let out = outside ramdisk p lbuf some_bytes h in (rw (n, out), rw (n, out))
