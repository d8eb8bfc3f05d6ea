-- ===== src/Asgn2/Read/Fill.antt =====
-- `asgn2_read`: the inner loop on bytes that go on to the end of the page.
use native.Mathlib.Nat.{mod-eq_of_lt, mod_self}
use petulant_wookie.Base.{
  ℕ, zero, suc, ◌+◌, ◌-◌, ◌%◌, ◌≤◌, ◌<◌, ◌^◌, ◌≡◌, refl, ◌∙◌, ap, ◌++◌, dec_lt, take, drop, arith,
  append_assoc, sub_size, add_size, length,
}
use petulant_wookie.Kernel.{Kernel, IsKernel, Progresses, done}
use petulant_wookie.Asgn1.Device.{Page}
use petulant_wookie.Asgn2.Read.{Reading, copied, copy_page}
use petulant_wookie.Asgn2.Read.Copy.{take_parts, copy_page_end, copy_page_step}

-- The locals after the last `n` bytes of a page, in `c` calls altogether: the head goes round.
abbrev pub filled : Page → ℕ → ℕ → Reading → Reading
filled p n c r = record r {
  actual_size = r.actual_size - n;
  size_read = r.size_read + n;
  head_offset = 0;
  begin_offset = 0;
  buf = r.buf ++ take n (drop r.begin_offset p);
  calls = c;
}

-- The bytes asked for end with the page.
pub record Fills (page_size : ℕ) (p : Page) (n : ℕ) (r : Reading) : Type 0 where
  pub asked : n ≤ r.actual_size
  pub small : r.actual_size < 2 ^ 32
  pub room : r.size_read + n < 2 ^ 32
  pub at : r.head_offset ≡ r.begin_offset
  pub ends : r.begin_offset + n ≡ page_size
  pub page_small : page_size < 2 ^ 31
  pub whole : length p ≡ page_size

module _ (page_size : ℕ) (p : Page) (r : Reading) where
  copied_last :
      (n : ℕ) → Fills page_size p n r → copied page_size p n r ≡ filled p n (suc r.calls) r
  copied_last n f =
      let end : add_size r.head_offset n % page_size ≡ 0 =
        (let sum : add_size r.head_offset n ≡ page_size =
            omega (arith, f.at, f.ends, f.page_small) in
          ap (λ x. x % page_size) sum ∙ mod_self page_size) in
      ground (arith, end, f.asked, f.small, f.room)

  module _ (a b n : ℕ) (f : Fills page_size p n r) (e : a + b ≡ n) (left : 0 < b) where
    end : add_size r.head_offset a % page_size ≡ r.begin_offset + a
    end =
        let sum : add_size r.head_offset a ≡ r.begin_offset + a =
          omega (arith, f.at, f.ends, f.page_small) in
        ap (λ x. x % page_size) sum ∙ mod-eq_of_lt (omega (arith, f.ends))

    filled-copied : (c : ℕ) → filled p b c (copied page_size p a r) ≡ filled p n c r
    filled-copied c = ground (
      arith,
      end,
      f.asked,
      f.small,
      f.room,
      take_parts page_size p r.begin_offset a b n e,
      append_assoc r.buf (take a (drop r.begin_offset p)) (take b (drop (r.begin_offset + a) p)),
    )

    Fills-copied : Fills page_size p b (copied page_size p a r)
    Fills-copied = record {
      asked = omega (arith, f.asked, f.small);
      small = omega (arith, f.asked, f.small);
      room = omega (arith, f.room);
      at = refl;
      ends = omega (arith, f.ends, end);
      page_small = f.page_small;
      whole = f.whole;
    }

-- With a mapped buffer and fuel for `n` rounds the loop ends, having copied `n` bytes.
pub copy_page_fill :
    (k : Kernel) (fuel : ℕ) (p : Page) (n : ℕ) (r : Reading)
    → IsKernel k
    → Progresses k
    → n ≤ fuel
    → 0 < n
    → Fills k.page_size p n r
    → (c : ℕ) × (copy_page k fuel p n r ≡ done (filled p n c r))
copy_page_fill k fuel p zero r ik pr h pos_n f = absurd (omega arith)
copy_page_fill k zero p (suc n) r ik pr h pos_n f = absurd (omega arith)
copy_page_fill k (suc fuel) p (suc n) r ik pr h pos_n f =
    let l = k.left r.calls (suc n) in
    let a = sub_size (suc n) l in
    let less : l < suc n = pr r.calls (suc n) (omega arith) in
    let parts : a + l ≡ suc n = omega (arith, f.asked, f.small) in
    let first = copy_page_step k fuel p n r (omega (arith, f.ends, f.whole)) in
    elim (dec_lt 0 l) [
      | yes left ↦
          let (c, e) =
            copy_page_fill k fuel p l (copied k.page_size p a r) ik pr (omega arith) left
              (Fills-copied k.page_size p r a l (suc n) f parts left) in
          (c, first ∙ e ∙ ap done (filled-copied k.page_size p r a l (suc n) f parts left c))
      | no none_left ↦
          let nothing : l ≡ 0 = omega arith in
          let all : a ≡ suc n = omega arith in
          (
            suc r.calls,
            first
                ∙ ap (λ i. copy_page k fuel p i (copied k.page_size p a r)) nothing
                ∙ copy_page_end k fuel p (copied k.page_size p a r)
                ∙ ap (λ i. done (copied k.page_size p i r)) all
                ∙ ap done (copied_last k.page_size p r (suc n) f),
          )
    ]
