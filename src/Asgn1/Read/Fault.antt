-- ===== src/Asgn1/Read/Fault.antt =====
-- `asgn1_read` with a buffer that is not mapped: the inner loop asks again for ever.
use native.Mathlib.Nat.{mod-lt, div-lt_iff_lt-mul}
use petulant_wookie.Base.{
  ℕ, zero, suc, ◌+◌, ◌*◌, ◌/◌, ◌%◌, ◌≤◌, ◌<◌, ◌^◌, ◌≡◌, ◌∙◌, ap, List, [], ◌∷◌, none, length, arith,
  min, sub_size, pos,
}
use petulant_wookie.Kernel.{Kernel, IsKernel, Faults}
use petulant_wookie.Asgn1.Device.{Device, Page, IsValid}
use petulant_wookie.Asgn1.Read.{
  Reading, copied, read_page, visit, read_pages, start_reading, asgn1_read,
}
use petulant_wookie.Asgn1.Read.Copy.{read_page_step}
use petulant_wookie.Asgn1.Read.Pages.{
  IsReady, visit_in, visit_skip, read_pages-cons, here, size_here,
}
use petulant_wookie.Asgn1.Read.Correct.{page_number, within}

read_page_stuck :
    (k : Kernel) (fuel : ℕ) (p : Page) (off n : ℕ) (r : Reading)
    → Faults k
    → 0 < n
    → read_page k fuel p off n r ≡ none
unfolding read_page
read_page_stuck k fuel p off zero r fa h = absurd (omega arith)
read_page_stuck k zero p off (suc n) r fa h = ground arith
read_page_stuck k (suc fuel) p off (suc n) r fa h =
    let r' = copied p off (sub_size (suc n) (k.left r.calls (suc n))) r in
    read_page_step k fuel p off n r
    ∙ read_page_stuck k fuel p (r'.f_pos % k.page_size) (k.left r.calls (suc n)) r' fa
        (omega (arith, fa r.calls (suc n)))

module _ (k : Kernel) (fuel : ℕ) (ik : IsKernel k) (fa : Faults k) where
  visit_stuck :
      (begin i : ℕ) (p : Page) (r : Reading)
      → begin ≤ i
      → IsReady r
      → 0 < r.actual_size
      → visit k fuel (pos begin) p i r ≡ none
  visit_stuck begin i p r h ready ask =
      let off = r.f_pos % k.page_size in
      let below : off < k.page_size = mod-lt r.f_pos ik.page_pos in
      visit_in k fuel begin i p r h
      ∙ ap (λ n. read_page k fuel p off n r) (size_here k ik r ready)
      ∙ read_page_stuck k fuel p off (here k r) r fa (omega arith)

  none_of_visit :
      (begin i : ℕ) (p : Page) (ps : List Page) (r : Reading)
      → visit k fuel (pos begin) p i r ≡ none
      → read_pages k fuel (pos begin) (p ∷ ps) i r ≡ none
  unfolding read_pages
  none_of_visit begin i p ps r e = rw (e, read_pages)

  read_pages_stuck :
      (begin i j : ℕ) (ps : List Page) (r : Reading)
      → i + j ≡ begin
      → j < length ps
      → IsReady r
      → 0 < r.actual_size
      → read_pages k fuel (pos begin) ps i r ≡ none
  read_pages_stuck begin i j [] r e h ready ask = absurd (omega arith)
  read_pages_stuck begin i zero (p ∷ ps) r e h ready ask =
      none_of_visit begin i p ps r (visit_stuck begin i p r (omega arith) ready ask)
  read_pages_stuck begin i (suc j) (p ∷ ps) r e h ready ask =
      read_pages-cons k fuel (pos begin) i p ps r r (visit_skip k fuel begin i p r (omega arith))
      ∙ read_pages_stuck begin (i + 1) j ps r (omega arith) (omega arith) ready ask

-- Called with a buffer that is not mapped, for at least one byte of the data, `asgn1_read` never
-- returns: no amount of fuel is enough.
pub asgn1_read_fault :
    (k : Kernel) (fuel : ℕ) (d : Device) (count f_pos : ℕ)
    → IsKernel k
    → Faults k
    → IsValid k.page_size d
    → count < 2 ^ 31
    → 0 < count
    → f_pos < d.data_size
    → asgn1_read k fuel d count f_pos ≡ none
asgn1_read_fault k fuel d count f_pos ik fa v small ask h =
    let n = min count (sub_size d.data_size (f_pos % 2 ^ 32)) in
    let q = f_pos / k.page_size in
    let fits : d.data_size < 2 ^ 32 = let b = v.within in let f = v.fits in omega arith in
    let inside : f_pos < length d.mem_list * k.page_size =
      let w = v.within in omega (arith, ap (λ t. t * k.page_size) v.counted) in
    within k fuel d count f_pos (omega arith)
    ∙ ap (λ b. read_pages k fuel b d.mem_list 0 (start_reading f_pos n))
        (page_number k f_pos ik (omega arith))
    ∙ read_pages_stuck k fuel ik fa q 0 q d.mem_list (start_reading f_pos n) (omega arith)
        ((div-lt_iff_lt-mul ik.page_pos).1 inside) (omega arith) (omega arith)
