-- ===== src/Asgn1/Control/Mmap.antt =====
-- `asgn1_mmap`: what a mapping from the start of the disk maps, and that no other is made.
use petulant_wookie.Base.{
  ℕ, zero, suc, ◌+◌, ◌*◌, ◌≤◌, ◌<◌, ◌^◌, ◌≡◌, refl, ap, List, [], ◌∷◌, length, arith, add_size,
  mul_size, sub_size, sym, lt→ltb, le→ltb_false, le→leb,
}
use petulant_wookie.Kernel.{ok, fail, einval}
use petulant_wookie.Asgn1.Device.{Device, Page, IsValid}
use petulant_wookie.Asgn1.Control.{Vma, Mapping, remap_pages, asgn1_mmap}

-- The pages from `index` on, `n` of them, at consecutive addresses.
pub consecutive : ℕ → ℕ → ℕ → ℕ → List Mapping
consecutive page_size start index zero = []
consecutive page_size start index (suc n) =
    record { address = start + index * page_size; index = index }
    ∷ consecutive page_size start (index + 1) n

module _ (page_size start : ℕ) (page_pos : 0 < page_size) where
  abbrev area : ℕ → Vma
  area n = record { vm_start = start; vm_end = start + n * page_size; vm_pgoff = 0 }

  remap_none :
      (n index : ℕ) (ps : List Page)
      → n ≤ index
      → start + (index + length ps) * page_size < 2 ^ 32
      → remap_pages page_size (area n) 0 ps index ≡ []
  unfolding remap_pages
  remap_none n index [] h small = refl
  remap_none n index (p ∷ ps) h small =
      let below : n * page_size ≤ index * page_size = grind arith in
      let at : add_size start (mul_size index page_size) ≡ start + index * page_size =
        omega arith in
      let rest = remap_none n (index + 1) ps (omega arith) (omega arith) in
      rw
        (
          at,
          le→ltb_false (start + index * page_size) (start + n * page_size) (omega arith),
          le→leb 0 index (omega arith),
        )
        rest

  remap_first :
      (n index j : ℕ) (ps : List Page)
      → index + j ≡ n
      → j ≤ length ps
      → start + (index + length ps) * page_size < 2 ^ 32
      → remap_pages page_size (area n) 0 ps index ≡ consecutive page_size start index j
  unfolding remap_pages consecutive
  remap_first n index zero ps e h small = remap_none n index ps (omega arith) small
  remap_first n index (suc j) [] e h small = absurd (omega arith)
  remap_first n index (suc j) (p ∷ ps) e h small =
      let e' : n ≡ suc (index + j) = omega arith in
      let above : suc (index + j) * page_size ≡ n * page_size = ap (λ t. t * page_size) (sym e') in
      let at : add_size start (mul_size index page_size) ≡ start + index * page_size =
        omega arith in
      let rest = remap_first n (index + 1) j ps (omega arith) (omega arith) (omega arith) in
      rw
        (
          at,
          lt→ltb (start + index * page_size) (start + n * page_size) (omega arith),
          le→leb 0 index (omega arith),
        )
        (ap (λ t. record { address = start + index * page_size; index = index } ∷ t) rest)

-- A request for `n` pages from the start of a valid disk that has them, at an address from which the
-- whole disk would stay below 2^32, maps the first `n` pages in order, each once, at consecutive
-- addresses from the start of the area.
pub asgn1_mmap_lem :
    (page_size : ℕ) (d : Device) (start n : ℕ)
    → IsValid page_size d
    → 0 < page_size
    → n ≤ d.num_pages
    → start + d.num_pages * page_size < 2 ^ 32
    → asgn1_mmap page_size d
        (record { vm_start = start; vm_end = start + n * page_size; vm_pgoff = 0 })
      ≡ (ok 0, consecutive page_size start 0 n)
unfolding asgn1_mmap
asgn1_mmap_lem page_size d start n v page_pos h small =
    let fits : n * page_size ≤ d.num_pages * page_size = grind arith in
    let room = v.fits in
    let listed : d.num_pages * page_size ≡ length d.mem_list * page_size =
      ap (λ t. t * page_size) v.counted in
    let many = v.counted in
    let pages =
      remap_first page_size start page_pos n 0 n d.mem_list (omega arith) (omega arith)
        (omega arith) in
    let len : sub_size (start + n * page_size) start ≡ n * page_size = omega arith in
    let size : mul_size d.num_pages page_size ≡ d.num_pages * page_size = omega arith in
    let none : mul_size 0 page_size ≡ 0 = omega arith in
    rw
      (
        len,
        size,
        none,
        le→ltb_false (d.num_pages * page_size) (n * page_size) fits,
        le→ltb_false d.num_pages 0 (omega arith),
      )
      (ap (λ t. (ok 0, t)) pages)

-- A request that does not start at page 0 of a disk of fewer pages than a page has bytes is refused,
-- also where the disk has all of the requested pages.
asgn1_mmap_offset :
    (page_size : ℕ) (d : Device) (vma : Vma)
    → d.num_pages < page_size
    → 0 < vma.vm_pgoff
    → vma.vm_pgoff * page_size < 2 ^ 32
    → asgn1_mmap page_size d vma ≡ (fail einval, [])
unfolding asgn1_mmap
asgn1_mmap_offset page_size d vma few off small =
    let far : page_size ≤ vma.vm_pgoff * page_size = grind arith in ground arith
