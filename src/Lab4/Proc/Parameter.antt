-- ===== src/Lab4/Proc/Parameter.antt =====
-- What is written to the entry of Lab4/4.3/proc.c is read from it.
use petulant_wookie.Base.{
  ℕ, ◌<◌, ◌^◌, ◌≡◌, refl, List, ◌++◌, some, true, false, ◌==◌, length, take, take-all, ℤ, pos,
  negsuc, to_int_small, arith,
}
use petulant_wookie.Kernel.{Kernel, done}
use petulant_wookie.Lab4.Proc.{Format, assigned, my_proc_read, my_proc_write}

module _ (f : Format) (k : Kernel) (after : List ℕ) (param : ℤ) where
  written :
      (text : List ℕ) (n : ℤ)
      → f.sscanf (text ++ after) ≡ some n
      → 0 < length text
      → length text < 2 ^ 31
      → k.left 0 (length text) ≡ 0
      → my_proc_write f k true after text (length text) param ≡ done (pos (length text), n)
  unfolding my_proc_write assigned
  written text n scans some_text small copied =
      let all : take (length text) text ≡ text = take-all (length text) text (omega arith) in
      let filled : (length text == 0) ≡ false = ground arith in
      rw (filled, copied) (rw (all, scans, to_int_small (length text) small))

  refused :
      (buffer : List ℕ) (count : ℕ)
      → 0 < count
      → 0 < k.left 0 count
      → my_proc_write f k true after buffer count param ≡ done (negsuc 13, param)
  unfolding my_proc_write
  refused buffer count some_bytes left =
      let filled : (count == 0) ≡ false = ground arith in
      let part : (k.left 0 count == 0) ≡ false = ground arith in rw filled (rw part)

-- Where sscanf reads a number back from what sprintf makes of it, whatever follows, and that text
-- has at least one byte and less than 2^31: a write of the text, with memory for it and a mapped
-- buffer, returns its length and sets the parameter, whatever it was and whatever the memory behind
-- the copy holds, and a read then gives the same text and its length. A write from a buffer that is
-- not mapped returns -EFAULT and keeps the parameter.
pub my_proc_read-my_proc_write :
    (f : Format) (k faulty : Kernel) (after : List ℕ) (param n : ℤ)
    → ((rest : List ℕ) → f.sscanf (f.sprintf n ++ rest) ≡ some n)
    → let text = f.sprintf n in
      let count = length text in
      0 < count
      → count < 2 ^ 31
      → k.left 0 count ≡ 0
      → 0 < faulty.left 0 count
      → (my_proc_write f k true after text count param ≡ done (pos count, n))
        × ((my_proc_read f n).page ≡ text)
        × ((my_proc_read f n).ret ≡ pos count)
        × (my_proc_write f faulty true after text count param ≡ done (negsuc 13, param))
unfolding my_proc_read
my_proc_read-my_proc_write f k faulty after param n scans some_text small copied left = (
  written f k after param (f.sprintf n) n (scans after) some_text small copied,
  refl,
  to_int_small (length (f.sprintf n)) small,
  refused f faulty after param (f.sprintf n) (length (f.sprintf n)) some_text left,
)
