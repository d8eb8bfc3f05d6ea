-- ===== src/Asgn1/Client.antt =====
-- asgn1/mmap_test.c: `my_fread`, `my_fwrite` and `read_and_compare`.
pub mod Loops
pub mod Device
use petulant_wookie.Base.{
  ℕ, zero, suc, ◌+◌, List, [], ◌∷◌, ◌++◌, Option, none, some, length, take, drop, Bool, true, false,
  ◌&&◌, ◌==◌, if◌then◌else◌, ℤ, pos, ltb_ℤ, ◌-ℤ◌, wrap_int, to_int, to_size, sub_size,
}
use petulant_wookie.Posix.{
  ReadResult, got, read_eintr, read_error, WriteResult, wrote, write_eintr, write_error, File,
}

-- A call returns a number, with the buffer that it filled, or the program exits with a failure.
pub data Result : Type 0 where
  returned : ℤ → List ℕ → Result
  exited : Result

module _ {S : Type 0} (file : File S) where
  -- The loop of `my_fread`, with fuel; the buffer so far is `buf`, and `nbyte` is the argument.
  pub fread_loop : ℕ → ℕ → ℤ → List ℕ → S → Option (Result × S)
  fread_loop zero nbyte to_read_size buf s =
      if ltb_ℤ (pos 0) to_read_size
      then none
      else some (returned (to_int (sub_size nbyte (to_size to_read_size))) buf, s)
  fread_loop (suc fuel) nbyte to_read_size buf s =
      let ended = some (returned (to_int (sub_size nbyte (to_size to_read_size))) buf, s) in
      let round : Option (Result × S) = elim (file.read (to_size to_read_size) s) [
        | none ↦ none
        | some (read_eintr, s') ↦ fread_loop fuel nbyte to_read_size buf s'
        | some (read_error, s') ↦ some (exited, s')
        | some (got [], s') ↦
            some (returned (to_int (sub_size nbyte (to_size to_read_size))) buf, s')
        | some (got (b ∷ bytes), s') ↦
            fread_loop fuel nbyte (wrap_int (to_read_size -ℤ pos (length (b ∷ bytes))))
              (buf ++ b ∷ bytes) s'
      ] in
      if ltb_ℤ (pos 0) to_read_size then round else ended

  unfoldable pub my_fread : ℕ → ℕ → S → Option (Result × S)
  unfolding fread_loop
  my_fread fuel nbyte s = fread_loop fuel nbyte (to_int nbyte) [] s

  -- The loop of `my_fwrite`; `buf` is what it points to by now.
  pub fwrite_loop : ℕ → ℕ → ℤ → List ℕ → S → Option (Result × S)
  fwrite_loop zero nbyte to_write_size buf s =
      if ltb_ℤ (pos 0) to_write_size then none else some (returned (to_int nbyte) buf, s)
  fwrite_loop (suc fuel) nbyte to_write_size buf s =
      let ended = some (returned (to_int nbyte) buf, s) in
      let round : Option (Result × S) = elim (file.write (take (to_size to_write_size) buf) s) [
        | none ↦ none
        | some (write_eintr, s') ↦ fwrite_loop fuel nbyte to_write_size buf s'
        | some (write_error, s') ↦ some (exited, s')
        | some (wrote written_size, s') ↦
            fwrite_loop fuel nbyte (wrap_int (to_write_size -ℤ pos written_size))
              (drop written_size buf) s'
      ] in
      if ltb_ℤ (pos 0) to_write_size then round else ended

  unfoldable pub my_fwrite : ℕ → List ℕ → ℕ → S → Option (Result × S)
  unfolding fwrite_loop
  my_fwrite fuel buf nbyte s = fwrite_loop fuel nbyte (to_int nbyte) buf s

-- `memcmp(a, b, len) == 0` for two buffers of `len` bytes.
pub same_bytes : List ℕ → List ℕ → Bool
same_bytes [] [] = true
same_bytes (x ∷ xs) (y ∷ ys) = x == y && same_bytes xs ys
same_bytes _ _ = false

-- Whether `read_and_compare` returns or exits, by what `my_fread` came to.
pub compare_read : ℕ → List ℕ → Result → Bool
compare_read len mmap_buf exited = false
compare_read len mmap_buf (returned n buf) = to_size n == len && same_bytes buf (take len mmap_buf)

unfoldable pub read_and_compare : {S : Type 0} → File S → ℕ → List ℕ → ℕ → S → Option (Bool × S)
unfolding my_fread compare_read same_bytes
read_and_compare file fuel mmap_buf len s = elim (my_fread file fuel len s) [
  | none ↦ none
  | some (r, s') ↦ some (compare_read len mmap_buf r, s')
]
