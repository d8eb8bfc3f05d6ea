-- ===== src/Asgn1/Client/Device.antt =====
-- asgn1/mmap_test.c on the device of asgn1/asgn1.c.
use petulant_wookie.Base.{
  ℕ, zero, suc, ◌+◌, ◌-◌, ◌≤◌, ◌<◌, ◌^◌, ◌≡◌, refl, ◌∙◌, ap, ap₂, List, [], ◌∷◌, Option, none, some,
  length, drop-all, take, replicate, ◌++◌, pos, to_int_small, arith,
}
use petulant_wookie.Kernel.{Kernel, IsKernel, Progresses, Supplies, ok, fail}
use petulant_wookie.Posix.{ReadResult, got, WriteResult, wrote, write_error, File}
use petulant_wookie.Asgn1.Device.{Device, IsValid}
use petulant_wookie.Asgn1.Read.{Reading, asgn1_read}
use petulant_wookie.Asgn1.Write.{Written, asgn1_write}
use petulant_wookie.Asgn1.RoundTrip.{asgn1_read-asgn1_write}
use petulant_wookie.Asgn1.Client.{returned, fread_loop, my_fread, fwrite_loop, my_fwrite}
use petulant_wookie.Asgn1.Client.Loops.{fwrite_ended, fwrite_round, fread_round}

-- A file that is open on the device, with its position.
abbrev pub Opened : Type 0
Opened = Device × ℕ

-- What a process sees of a read: `size_read` bytes of its buffer, which is zero where nothing was
-- copied.
pub after_read : Device → Option Reading → Option (ReadResult × Opened)
after_read d none = none
after_read d (some r) =
    some (got (take r.size_read (r.buf ++ replicate r.size_read 0)), (d, r.f_pos))

pub after_write : Option Written → Option (WriteResult × Opened)
after_write none = none
after_write (some (ok n, d, f_pos)) = some (wrote n, (d, f_pos))
after_write (some (fail e, d, f_pos)) = some (write_error, (d, f_pos))

-- `read` and `write` on it are calls of `asgn1_read` and `asgn1_write`.
abbrev pub asgn1_file : Kernel → ℕ → File Opened
asgn1_file k fuel = record {
  read = λ count (d, f_pos). after_read d (asgn1_read k fuel d count f_pos);
  write = λ bs (d, f_pos). after_write (asgn1_write k fuel d bs (length bs) f_pos);
}

take-append_length : (xs ys : List ℕ) → take (length xs) (xs ++ ys) ≡ xs
take-append_length [] ys = refl
take-append_length (x ∷ xs) ys = ap (λ l. x ∷ l) (take-append_length xs ys)

module _ (k : Kernel) (fuel rounds : ℕ) (d d' : Device) (b : ℕ) (bs : List ℕ) (f_pos end : ℕ)
    (small : length (b ∷ bs) < 2 ^ 31) where
  abbrev n : ℕ
  n = length (b ∷ bs)

  write_once :
      asgn1_write k fuel d (b ∷ bs) n f_pos ≡ some (ok n, d', end)
      → my_fwrite (asgn1_file k fuel) (suc rounds) (b ∷ bs) n (d, f_pos)
        ≡ some (returned (pos n) [], (d', end))
  unfolding my_fwrite after_write
  write_once e =
      let int = to_int_small (length (b ∷ bs)) small in
      let none_left : length (b ∷ bs) - length (b ∷ bs) ≡ 0 = omega arith in
      ap (λ i. fwrite_loop (asgn1_file k fuel) (suc rounds) (length (b ∷ bs)) i (b ∷ bs) (d, f_pos))
        int
      ∙ fwrite_round (asgn1_file k fuel) rounds (length (b ∷ bs)) (length (b ∷ bs)) (b ∷ bs)
          (d, f_pos) (d', end) (omega arith) small (omega arith) (ap after_write e)
      ∙ ap₂ (λ m l. fwrite_loop (asgn1_file k fuel) rounds (length (b ∷ bs)) (pos m) l (d', end))
          none_left (drop-all (length (b ∷ bs)) (b ∷ bs) (omega arith))
      ∙ fwrite_ended (asgn1_file k fuel) rounds (length (b ∷ bs)) [] (d', end)
      ∙ ap (λ i. some (returned i [], (d', end))) int

  read_once :
      (r : Reading)
      → asgn1_read k fuel d' n f_pos ≡ some r
      → r.buf ≡ b ∷ bs
      → r.f_pos ≡ end
      → r.size_read ≡ length (b ∷ bs)
      → my_fread (asgn1_file k fuel) (suc rounds) n (d', f_pos)
        ≡ some (returned (pos n) (b ∷ bs), (d', end))
  unfolding my_fread after_read
  read_once r e bytes position number =
      let int = to_int_small (length (b ∷ bs)) small in
      ap (λ i. fread_loop (asgn1_file k fuel) (suc rounds) (length (b ∷ bs)) i [] (d', f_pos)) int
      ∙ fread_round (asgn1_file k fuel) rounds (length (b ∷ bs)) b bs (d', f_pos) (d', end) refl
          small
          (ap (after_read d') e
            ∙ ap₂ (λ l p. some (got l, (d', p)))
                (ap₂ (λ m l. take m (l ++ replicate m 0)) number bytes
                  ∙ take-append_length (b ∷ bs) (replicate (length (b ∷ bs)) 0))
                position)

-- my_fwrite of a buffer to a valid device and my_fread of as many bytes from the same position, on
-- the handlers of asgn1.c: with memory for the pages, a mapped buffer of at least one and less than
-- 2^31 bytes that ends a page below 2^32, and fuel for the handlers' loops, one round of each of
-- the two is enough. Both return the length, my_fread has filled its buffer with the one that was
-- written, and the position is after it.
pub my_fread-my_fwrite :
    (k : Kernel) (fuel rounds : ℕ) (d : Device) (buf : List ℕ) (f_pos : ℕ)
    → IsKernel k
    → Progresses k
    → Supplies k
    → k.page_size ≤ fuel
    → f_pos + length buf ≤ fuel
    → 0 < rounds
    → IsValid k.page_size d
    → 0 < length buf
    → length buf < 2 ^ 31
    → f_pos + length buf + k.page_size < 2 ^ 32
    → let n = length buf in
      (d' : Device) × (my_fwrite (asgn1_file k fuel) rounds buf n (d, f_pos)
        ≡ some (returned (pos n) [], (d', f_pos + n)))
      × (my_fread (asgn1_file k fuel) rounds n (d', f_pos)
          ≡ some (returned (pos n) buf, (d', f_pos + n)))
my_fread-my_fwrite k fuel zero d buf f_pos ik pr su h h' ro v some_bytes small room =
    absurd (omega arith)
my_fread-my_fwrite k fuel (suc rounds) d [] f_pos ik pr su h h' ro v some_bytes small room =
    absurd (omega arith)
my_fread-my_fwrite k fuel (suc rounds) d (b ∷ bs) f_pos ik pr su h h' ro v some_bytes small room =
    let (d', r, w, e, bytes, number, position) =
      asgn1_read-asgn1_write k fuel d (b ∷ bs) f_pos ik pr su h h' v small room in
    let end = f_pos + length (b ∷ bs) in
    (
      d',
      write_once k fuel rounds d d' b bs f_pos end small w,
      read_once k fuel rounds d d' b bs f_pos end small r e bytes position number,
    )
