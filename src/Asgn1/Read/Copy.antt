-- ===== src/Asgn1/Read/Copy.antt =====
-- `asgn1_read`: the inner loop copies what it was asked to, in whatever portions.
use petulant_wookie.Base.{
  ℕ, zero, suc, ◌+◌, ◌-◌, ◌%◌, ◌≤◌, ◌<◌, ◌^◌, ◌≡◌, refl, ◌∙◌, ap, sym, ◌++◌, some, take, drop,
  arith, append-nil, append_assoc, take-add, drop-drop, sub_size, sub_size-eq, next_offset,
  next_room,
}
use native.Mathlib.Nat.{mod-lt}
use petulant_wookie.Kernel.{Kernel, IsKernel, Progresses}
use petulant_wookie.Asgn1.Device.{Page}
use petulant_wookie.Asgn1.Read.{Reading, copied, read_page}

-- The locals after `n` bytes from `off` on, in `c` calls altogether.
abbrev pub advance : Page → ℕ → ℕ → ℕ → Reading → Reading
advance p off n c r = record {
  f_pos = r.f_pos + n;
  actual_size = r.actual_size - n;
  size_read = r.size_read + n;
  buf = r.buf ++ take n (drop off p);
  calls = c;
}

advance_zero : (p : Page) (off : ℕ) (r : Reading) → r ≡ advance p off 0 r.calls r
advance_zero p off r = ground (arith, append-nil r.buf)

pub record Fits (r : Reading) (n : ℕ) : Type 0 where
  pub asked : n ≤ r.actual_size
  pub small : r.actual_size < 2 ^ 32
  pub room : r.size_read + n < 2 ^ 32

take_parts :
    (p : Page) (off a b n : ℕ)
    → a + b ≡ n
    → take a (drop off p) ++ take b (drop (off + a) p) ≡ take n (drop off p)
take_parts p off a b n e =
    ap (λ t. take a (drop off p) ++ take b t) (sym (drop-drop off a p))
    ∙ sym (take-add a b (drop off p))
    ∙ ap (λ k. take k (drop off p)) e

-- A portion of `a` bytes followed by `b` bytes is `n = a + b` bytes.
advance_parts :
    (p : Page) (off a b n c : ℕ) (r : Reading)
    → Fits r n
    → a + b ≡ n
    → advance p (off + a) b c (copied p off a r) ≡ advance p off n c r
advance_parts p off a b n c r f e = ground (
  arith,
  take_parts p off a b n e,
  append_assoc r.buf (take a (drop off p)) (take b (drop (off + a) p)),
)

Fits-copied :
    (p : Page) (off a b n : ℕ) (r : Reading) → Fits r n → a + b ≡ n → Fits (copied p off a r) b
Fits-copied p off a b n r f e = omega arith

-- With nothing left the offset does not matter.
advance_offset :
    (p : Page) (off off' l c : ℕ) (r : Reading)
    → (0 < l → off' ≡ off)
    → advance p off' l c r ≡ advance p off l c r
advance_offset p off off' zero c r h = refl
advance_offset p off off' (suc l) c r h = ap (λ o. advance p o (suc l) c r) (h (omega arith))

pub read_page_step :
    (k : Kernel) (fuel : ℕ) (p : Page) (off n : ℕ) (r : Reading)
    → let l = k.left r.calls (suc n) in
      let r' = copied p off (sub_size (suc n) l) r in
      read_page k (suc fuel) p off (suc n) r ≡ read_page k fuel p (r'.f_pos % k.page_size) l r'
unfolding read_page
read_page_step k fuel p off n r = ground arith

-- With a mapped buffer and fuel for `n` rounds the loop ends, having copied `n` bytes.
pub read_page_lem :
    (k : Kernel) (fuel : ℕ) (p : Page) (off n : ℕ) (r : Reading)
    → IsKernel k
    → Progresses k
    → n ≤ fuel
    → off + n ≤ k.page_size
    → (0 < n → r.f_pos % k.page_size ≡ off)
    → Fits r n
    → (c : ℕ) × (read_page k fuel p off n r ≡ some (advance p off n c r))
unfolding read_page
read_page_lem k zero p off zero r ik pr hf hr ho f = (r.calls, ap some (advance_zero p off r))
read_page_lem k zero p off (suc n) r ik pr hf hr ho f = absurd (omega arith)
read_page_lem k (suc fuel) p off zero r ik pr hf hr ho f = (r.calls, ap some (advance_zero p off r))
read_page_lem k (suc fuel) p off (suc n) r ik pr hf hr ho f =
    let l = k.left r.calls (suc n) in
    let a = sub_size (suc n) l in
    let less : l < suc n = pr r.calls (suc n) (omega arith) in
    let parts : a + l ≡ suc n = omega (arith, sub_size-eq (suc n) l) in
    let r' = copied p off a r in
    let off' = r'.f_pos % k.page_size in
    let at : 0 < l → off' ≡ off + a =
      λ pos_l. next_offset k.page_size off a l r.f_pos (omega arith) (ho (omega arith)) pos_l in
    let room : off' + l ≤ k.page_size =
      next_room k.page_size off' off a l (omega arith) (mod-lt r'.f_pos ik.page_pos) at in
    let (c, e) =
      read_page_lem k fuel p off' l r' ik pr (omega arith) room (λ _. refl)
        (Fits-copied p off a l (suc n) r f parts) in
    (
      c,
      read_page_step k fuel p off n r
          ∙ e
          ∙ ap some (
              advance_offset p (off + a) off' l c r' at
              ∙ advance_parts p off a l (suc n) c r f parts),
    )
