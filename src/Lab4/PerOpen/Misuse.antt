-- ===== src/Lab4/PerOpen/Misuse.antt =====
-- Lab4/4.1.2.2/seek.c after the first `mycdrv_release`, which frees the block and keeps the pointer.
use petulant_wookie.Base.{
  ℕ, zero, suc, ◌+◌, ◌-◌, ◌<◌, ◌≡◌, refl, ◌∙◌, ap, List, [], ◌∷◌, none, some, length, get_elem?,
  set, false, ◌||◌, leb, ◌==◌, pos, min, arith,
}
use petulant_wookie.Kernel.{Kernel, overrun}
use petulant_wookie.Lab3.Seek.{Ramdisk, bytes_to_do, in_ramdisk}
use petulant_wookie.Lab3.Seek
use petulant_wookie.Lab3.Seek.Copy.{IsRamdisk, bytes_to_do_lem}
use petulant_wookie.Lab4.PerOpen.{
  State, fine, double_free, use_after_free, free, free_block, target, block_at, freed,
  mycdrv_release, mycdrv_read, mycdrv_write, my_exit,
}

pub get_elem?-set_self :
    {A : Type 0} (xs : List A) (i : ℕ) (v w : A)
    → get_elem? xs i ≡ some w
    → get_elem? (set xs i v) i ≡ some v
get_elem?-set_self [] i v w e = cc
get_elem?-set_self (x ∷ xs) zero v w e = refl
get_elem?-set_self (x ∷ xs) (suc i) v w e = get_elem?-set_self xs i v w e

free_live :
    (s : State) (a : ℕ) (bytes : Ramdisk)
    → s.ramdisk ≡ some a
    → get_elem? s.heap a ≡ some (some bytes)
    → free s.ramdisk s ≡ fine (record s { heap = set s.heap a none })
unfolding free free_block
free_live s a bytes e f = ap (λ o. free o s) e ∙ ap (λ o. free_block a o s) f

free_again :
    (s : State) (a : ℕ)
    → s.ramdisk ≡ some a
    → get_elem? s.heap a ≡ some none
    → free s.ramdisk s ≡ double_free
unfolding free free_block
free_again s a e f = ap (λ o. free o s) e ∙ ap (λ o. free_block a o s) f

target_freed :
    (s : State) (a : ℕ) → s.ramdisk ≡ some a → get_elem? s.heap a ≡ some none → target s ≡ freed
unfolding target block_at
target_freed s a e f = ground arith

-- A read or a write of at least one byte reaches for a cell that is not there.
empty_overrun :
    (k : Kernel) (bytes : Ramdisk) (buf : List ℕ) (lbuf p : ℕ)
    → IsRamdisk k.page_size bytes
    → p < length bytes
    → 0 < lbuf
    → (Seek.mycdrv_read k [] lbuf (pos p) ≡ overrun)
      × (Seek.mycdrv_write k [] buf lbuf (pos p) ≡ overrun)
unfolding Seek.mycdrv_read Seek.mycdrv_write in_ramdisk
empty_overrun k bytes buf lbuf p r h some_bytes =
    let n = bytes_to_do_lem k.page_size bytes lbuf p r (omega arith) in
    let out : (min lbuf (length bytes - p) == 0 || leb (p + min lbuf (length bytes - p)) 0)
        ≡ false =
      ground arith in
    (rw (n, out), rw (n, out))

-- After a release that frees a block of the ramdisk's size, the pointer is still there: a second
-- release and the unloading of the module free the block again, and a read and a write of at least one
-- byte at a position in it use it.
pub mycdrv_release_dangling :
    (k : Kernel) (s : State) (a : ℕ) (bytes : Ramdisk) (buf : List ℕ) (lbuf p : ℕ)
    → s.ramdisk ≡ some a
    → get_elem? s.heap a ≡ some (some bytes)
    → IsRamdisk k.page_size bytes
    → p < length bytes
    → 0 < lbuf
    → (s' : State) × (mycdrv_release s ≡ fine s')
      × (mycdrv_release s' ≡ double_free)
      × (my_exit s' ≡ double_free)
      × (mycdrv_read k s' lbuf (pos p) ≡ use_after_free)
      × (mycdrv_write k s' buf lbuf (pos p) ≡ use_after_free)
unfolding mycdrv_release my_exit mycdrv_read mycdrv_write
mycdrv_release_dangling k s a bytes buf lbuf p e f r h some_bytes =
    let s' = record s { heap = set s.heap a none } in
    let gone : get_elem? s'.heap a ≡ some none = get_elem?-set_self s.heap a none (some bytes) f in
    let (no_read, no_write) = empty_overrun k bytes buf lbuf p r h some_bytes in
    let dead = target_freed s' a e gone in
    (
      s',
      free_live s a bytes e f,
      free_again s' a e gone,
      free_again s' a e gone,
      rw (dead, mycdrv_read) (rw no_read),
      rw (dead, mycdrv_write) (rw no_write),
    )
