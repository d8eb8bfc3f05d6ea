-- ===== src/Asgn1/Write/Copy.antt =====
-- `asgn1_write`: the inner loop stores what it was asked to, in whatever portions.
use native.Mathlib.Nat.{mod-lt}
use petulant_wookie.Base.{
  ℕ, zero, suc, ◌+◌, ◌-◌, ◌%◌, ◌≤◌, ◌<◌, ◌^◌, ◌≡◌, refl, ◌∙◌, ap, sym, List, ◌++◌, some, take, drop,
  arith, length, length-take, length-drop, take-add, drop-drop, overwrite, overwrite-nil,
  overwrite-append, sub_size, sub_size-eq, next_offset, next_room,
}
use petulant_wookie.Kernel.{Kernel, IsKernel, Progresses}
use petulant_wookie.Asgn1.Device.{Page}
use petulant_wookie.Asgn1.Write.{Writing, moved, stored, write_page}

-- The locals after `n` bytes, in `c` calls altogether.
abbrev pub advance : ℕ → ℕ → Writing → Writing
advance n c w = record {
  f_pos = w.f_pos + n;
  count = w.count - n;
  size_written = w.size_written + n;
  calls = c;
}

advance_zero : (w : Writing) → w ≡ advance 0 w.calls w
advance_zero w = ground arith

-- What can be written with no sum out of range, and lies in the user's buffer.
pub record Fits (buf : List ℕ) (w : Writing) (n : ℕ) : Type 0 where
  pub asked : n ≤ w.count
  pub small : w.count < 2 ^ 32
  pub room : w.size_written + n < 2 ^ 32
  pub given : w.size_written + n ≤ length buf

module _ (buf : List ℕ) where
  advance_parts :
      (a b n c : ℕ) (w : Writing)
      → Fits buf w n
      → a + b ≡ n
      → advance b c (moved a w) ≡ advance n c w
  advance_parts a b n c w f e = ground arith

  Fits-moved : (a b n : ℕ) (w : Writing) → Fits buf w n → a + b ≡ n → Fits buf (moved a w) b
  Fits-moved a b n w f e = omega arith

  source_parts :
      (s a b n : ℕ)
      → a + b ≡ n
      → take a (drop s buf) ++ take b (drop (s + a) buf) ≡ take n (drop s buf)
  source_parts s a b n e =
      ap (λ t. take a (drop s buf) ++ take b t) (sym (drop-drop s a buf))
      ∙ sym (take-add a b (drop s buf))
      ∙ ap (λ k. take k (drop s buf)) e

  -- A portion of `a` bytes followed by `b` bytes is `n = a + b` bytes.
  stored_parts :
      (p : Page) (off a b n : ℕ) (w : Writing)
      → Fits buf w n
      → a + b ≡ n
      → stored buf (stored buf p off a w) (off + a) b (moved a w) ≡ stored buf p off n w
  stored_parts p off a b n w f e =
      let s = w.size_written in
      let at : (moved a w).size_written ≡ s + a = omega arith in
      let size : off + a ≡ off + length (take a (drop s buf)) =
        omega (arith, length-take a (drop s buf), length-drop s buf) in
      ap (λ t. overwrite (off + a) (take b (drop t buf)) (stored buf p off a w)) at
      ∙ sym
          (overwrite-append off (off + a) (take a (drop s buf)) (take b (drop (s + a) buf)) p size)
      ∙ ap (λ t. overwrite off t p) (source_parts s a b n e)

  stored_offset :
      (p : Page) (off off' l : ℕ) (w : Writing)
      → (0 < l → off' ≡ off)
      → stored buf p off' l w ≡ stored buf p off l w
  stored_offset p off off' zero w h = overwrite-nil off' p ∙ sym (overwrite-nil off p)
  stored_offset p off off' (suc l) w h = ap (λ o. stored buf p o (suc l) w) (h (omega arith))

  write_page_step :
      (k : Kernel) (fuel : ℕ) (p : Page) (off n : ℕ) (w : Writing)
      → let l = k.left w.calls (suc n) in
        let a = sub_size (suc n) l in
        let w' = moved a w in
        write_page k buf (suc fuel) p off (suc n) w
        ≡ write_page k buf fuel (stored buf p off a w) (w'.f_pos % k.page_size) l w'
  unfolding write_page
  write_page_step k fuel p off n w = ground arith

  zero_done :
      (p : Page) (off : ℕ) (w : Writing)
      → ◌≡◌ {A = Page × Writing} (p, w) (stored buf p off 0 w, advance 0 w.calls w)
  zero_done p off w = λ i. (sym (overwrite-nil off p) i, advance_zero w i)

  -- With a mapped buffer and fuel for `n` rounds the loop ends, having stored `n` bytes.
  pub write_page_lem :
      (k : Kernel) (fuel : ℕ) (p : Page) (off n : ℕ) (w : Writing)
      → IsKernel k
      → Progresses k
      → n ≤ fuel
      → off + n ≤ k.page_size
      → (0 < n → w.f_pos % k.page_size ≡ off)
      → Fits buf w n
      → (c : ℕ) × (write_page k buf fuel p off n w ≡ some (stored buf p off n w, advance n c w))
  unfolding write_page
  write_page_lem k zero p off zero w ik pr hf hr ho f = (w.calls, ap some (zero_done p off w))
  write_page_lem k zero p off (suc n) w ik pr hf hr ho f = absurd (omega arith)
  write_page_lem k (suc fuel) p off zero w ik pr hf hr ho f = (w.calls, ap some (zero_done p off w))
  write_page_lem k (suc fuel) p off (suc n) w ik pr hf hr ho f =
      let l = k.left w.calls (suc n) in
      let a = sub_size (suc n) l in
      let less : l < suc n = pr w.calls (suc n) (omega arith) in
      let small : suc n < 2 ^ 32 = let x = f.asked in let y = f.small in omega arith in
      let parts : a + l ≡ suc n = omega (arith, sub_size-eq (suc n) l) in
      let w' = moved a w in
      let p' = stored buf p off a w in
      let off' = w'.f_pos % k.page_size in
      let at : 0 < l → off' ≡ off + a =
        λ pos_l. next_offset k.page_size off a l w.f_pos (omega arith) (ho (omega arith)) pos_l in
      let room : off' + l ≤ k.page_size =
        next_room k.page_size off' off a l (omega arith) (mod-lt w'.f_pos ik.page_pos) at in
      let (c, e) =
        write_page_lem k fuel p' off' l w' ik pr (omega arith) room (λ _. refl)
          (Fits-moved a l (suc n) w f parts) in
      (
        c,
        write_page_step k fuel p off n w
            ∙ e
            ∙ ap (λ q. some (q, advance l c w'))
                (stored_offset p' (off + a) off' l w' at ∙ stored_parts p off a l (suc n) w f parts)
            ∙ ap (λ v. some (stored buf p off (suc n) w, v))
                (advance_parts a l (suc n) c w f parts),
      )
