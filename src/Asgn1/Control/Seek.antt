-- ===== src/Asgn1/Control/Seek.antt =====
-- `asgn1_lseek` stays in the pages.
use petulant_wookie.Base.{
  ◌*◌, ◌<◌, ◌^◌, ◌∙◌, ap, refl, wrap_loff, ◌+ℤ◌, ◌≡◌, ℕ, ℤ, pos, negsuc, mul_size, arith, min, ◌≤◌,
}
use petulant_wookie.Asgn1.Device.{Device, IsValid}
use petulant_wookie.Asgn1.Control.{
  Whence, seek_set, seek_cur, seek_end, other, test_position, clamp_position, asgn1_lseek,
}

-- The position from 0 to `size` that is nearest to `t`.
unfoldable pub nearest : ℕ → ℤ → ℕ
nearest size (pos n) = min n size
nearest size (negsuc n) = 0

clamp_position-eq-nearest : (size : ℕ) (t : ℤ) → clamp_position size t ≡ pos (nearest size t)
unfolding clamp_position nearest
clamp_position-eq-nearest size (pos n) = ground arith
clamp_position-eq-nearest size (negsuc n) = ground arith

nearest-le : (size : ℕ) (t : ℤ) → nearest size t ≤ size
unfolding nearest
nearest-le size (pos n) = omega arith
nearest-le size (negsuc n) = omega arith

-- The position that a call asks for, as an integer without a bound: the offset from the start, from
-- the position or from the end of the pages, and the start for any other command.
unfoldable pub requested : ℕ → ℤ → ℤ → Whence → ℤ
requested size f_pos offset seek_set = offset
requested size f_pos offset seek_cur = f_pos +ℤ offset
requested size f_pos offset seek_end = pos size +ℤ offset
requested size f_pos offset other = pos 0

-- An integer that is a `loff_t`.
abbrev pub IsLoff : ℤ → Type 0
IsLoff (pos n) = n < 2 ^ 63
IsLoff (negsuc n) = n < 2 ^ 63

wrap_loff_lem : (i : ℤ) → IsLoff i → wrap_loff i ≡ i
wrap_loff_lem (pos n) h = ground arith
wrap_loff_lem (negsuc n) h = ground arith

test_position-eq-requested :
    (size : ℕ) (f_pos offset : ℤ) (cmd : Whence)
    → IsLoff (requested size f_pos offset cmd)
    → test_position size f_pos offset cmd ≡ requested size f_pos offset cmd
unfolding test_position requested
test_position-eq-requested size f_pos offset seek_set h = refl
test_position-eq-requested size f_pos offset seek_cur h = wrap_loff_lem (f_pos +ℤ offset) h
test_position-eq-requested size f_pos offset seek_end h = wrap_loff_lem (pos size +ℤ offset) h
test_position-eq-requested size f_pos offset other h = refl

-- `asgn1_lseek` on a valid device sets the position from 0 to the end of the pages that is nearest to
-- the requested one: the offset itself, or counted from the position or from the end of the pages, or
-- the start for any other command. The condition is that the requested one is a loff_t, so
-- that the sum does not overflow.
pub asgn1_lseek_lem :
    (page_size : ℕ) (d : Device) (f_pos offset : ℤ) (cmd : Whence)
    → IsValid page_size d
    → let size = d.num_pages * page_size in
      IsLoff (requested size f_pos offset cmd)
      → let size = d.num_pages * page_size in
        let p = nearest size (requested size f_pos offset cmd) in
        (asgn1_lseek page_size d f_pos offset cmd ≡ pos p) × (p ≤ size)
unfolding asgn1_lseek
asgn1_lseek_lem page_size d f_pos offset cmd v h =
    let size = d.num_pages * page_size in
    let no_wrap : mul_size d.num_pages page_size ≡ size = let f = v.fits in omega arith in
    let t = requested size f_pos offset cmd in
    (
      ap (λ s. clamp_position s (test_position s f_pos offset cmd)) no_wrap
          ∙ ap (clamp_position size) (test_position-eq-requested size f_pos offset cmd h)
          ∙ clamp_position-eq-nearest size t,
      nearest-le size t,
    )
