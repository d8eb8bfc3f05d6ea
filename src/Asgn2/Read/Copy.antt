-- ===== src/Asgn2/Read/Copy.antt =====
-- `asgn2_read`: the inner loop copies what it was asked to, in whatever portions.
use native.Mathlib.Nat.{mod-eq_of_lt}
use petulant_wookie.Base.{
  ℕ, zero, suc, ◌+◌, ◌-◌, ◌%◌, ◌≤◌, ◌<◌, ◌^◌, ◌≡◌, refl, ◌∙◌, ap, sym, ◌++◌, length, take, drop,
  arith, append-nil, append_assoc, take-add, drop-drop, sub_size, add_size, le→leb,
}
use petulant_wookie.Kernel.{Kernel, IsKernel, Progresses, done}
use petulant_wookie.Asgn1.Device.{Page}
use petulant_wookie.Asgn2.Read.{Reading, copied, copy_page}

-- The locals after `n` bytes, in `c` calls altogether, with no sum out of range.
abbrev pub advance : Page → ℕ → ℕ → Reading → Reading
advance p n c r = record r {
  actual_size = r.actual_size - n;
  size_read = r.size_read + n;
  head_offset = r.begin_offset + n;
  begin_offset = r.begin_offset + n;
  buf = r.buf ++ take n (drop r.begin_offset p);
  calls = c;
}

-- The bytes asked for end inside the page.
pub record Fits (page_size : ℕ) (p : Page) (n : ℕ) (r : Reading) : Type 0 where
  pub asked : n ≤ r.actual_size
  pub small : r.actual_size < 2 ^ 32
  pub room : r.size_read + n < 2 ^ 32
  pub at : r.head_offset ≡ r.begin_offset
  pub inside : r.begin_offset + n < page_size
  pub page_small : page_size < 2 ^ 31
  pub whole : length p ≡ page_size

module _ (page_size : ℕ) (p : Page) where
  advance_zero : (r : Reading) → Fits page_size p 0 r → r ≡ advance p 0 r.calls r
  advance_zero r f = ground (arith, f.at, append-nil r.buf)

  pub take_parts :
      (off a b n : ℕ)
      → a + b ≡ n
      → take a (drop off p) ++ take b (drop (off + a) p) ≡ take n (drop off p)
  take_parts off a b n e =
      ap (λ t. take a (drop off p) ++ take b t) (sym (drop-drop off a p))
      ∙ sym (take-add a b (drop off p))
      ∙ ap (λ m. take m (drop off p)) e

  advance-copied :
      (a b n c : ℕ) (r : Reading)
      → Fits page_size p n r
      → a + b ≡ n
      → advance p b c (copied page_size p a r) ≡ advance p n c r
  advance-copied a b n c r f e =
      let end : add_size r.head_offset a % page_size ≡ r.begin_offset + a =
        (let sum : add_size r.head_offset a ≡ r.begin_offset + a =
            omega (arith, f.at, f.inside, f.page_small) in
          ap (λ x. x % page_size) sum ∙ mod-eq_of_lt (omega (arith, f.inside))) in
      ground (
        arith,
        end,
        f.asked,
        f.small,
        f.room,
        take_parts r.begin_offset a b n e,
        append_assoc r.buf (take a (drop r.begin_offset p)) (take b (drop (r.begin_offset + a) p)),
      )

  Fits-copied :
      (a b n : ℕ) (r : Reading)
      → Fits page_size p n r
      → a + b ≡ n
      → Fits page_size p b (copied page_size p a r)
  Fits-copied a b n r f e =
      let sum : add_size r.head_offset a ≡ r.begin_offset + a =
        omega (arith, f.at, f.inside, f.page_small) in
      let end : add_size r.head_offset a % page_size ≡ r.begin_offset + a =
        ap (λ x. x % page_size) sum ∙ mod-eq_of_lt (omega (arith, f.inside)) in
      record {
        asked = omega (arith, f.asked, f.small);
        small = omega (arith, f.asked, f.small);
        room = omega (arith, f.room);
        at = refl;
        inside = omega (arith, f.inside, end);
        page_small = f.page_small;
        whole = f.whole;
      }

pub copy_page_end :
    (k : Kernel) (fuel : ℕ) (p : Page) (r : Reading) → copy_page k fuel p 0 r ≡ done r
unfolding copy_page
copy_page_end k zero p r = refl
copy_page_end k (suc fuel) p r = refl

pub copy_page_step :
    (k : Kernel) (fuel : ℕ) (p : Page) (n : ℕ) (r : Reading)
    → r.begin_offset + suc n ≤ length p
    → let l = k.left r.calls (suc n) in
      copy_page k (suc fuel) p (suc n) r
      ≡ copy_page k fuel p l (copied k.page_size p (sub_size (suc n) l) r)
unfolding copy_page
copy_page_step k fuel p n r h = ground (arith, le→leb (r.begin_offset + suc n) (length p) h)

-- With a mapped buffer and fuel for `n` rounds the loop ends, having copied `n` bytes.
pub copy_page_lem :
    (k : Kernel) (fuel : ℕ) (p : Page) (n : ℕ) (r : Reading)
    → IsKernel k
    → Progresses k
    → n ≤ fuel
    → Fits k.page_size p n r
    → (c : ℕ) × (copy_page k fuel p n r ≡ done (advance p n c r))
copy_page_lem k fuel p zero r ik pr h f =
    (r.calls, copy_page_end k fuel p r ∙ ap done (advance_zero k.page_size p r f))
copy_page_lem k zero p (suc n) r ik pr h f = absurd (omega arith)
copy_page_lem k (suc fuel) p (suc n) r ik pr h f =
    let l = k.left r.calls (suc n) in
    let a = sub_size (suc n) l in
    let less : l < suc n = pr r.calls (suc n) (omega arith) in
    let parts : a + l ≡ suc n = omega (arith, f.asked, f.small) in
    let (c, e) =
      copy_page_lem k fuel p l (copied k.page_size p a r) ik pr (omega arith)
        (Fits-copied k.page_size p a l (suc n) r f parts) in
    (
      c,
      copy_page_step k fuel p n r (omega (arith, f.inside, f.whole))
          ∙ e
          ∙ ap done (advance-copied k.page_size p a l (suc n) c r f parts),
    )
