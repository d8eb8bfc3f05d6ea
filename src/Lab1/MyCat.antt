-- ===== src/Lab1/MyCat.antt =====
-- Lab1/my_cat.c: `main`.
pub mod Complete
pub mod Stuck
use petulant_wookie.Base.{
  ℕ, zero, suc, ◌+◌, List, [], ◌∷◌, Option, none, some, length, take, drop, ltb, if◌then◌else◌,
  Bool, true, false, add_size, sub_size,
}
use petulant_wookie.Posix.{
  ReadResult, got, read_eintr, read_error, WriteResult, wrote, write_eintr, write_error, File, Exit,
  success, failure,
}

-- `BUFFER_SIZE`
abbrev pub buffer_size : ℕ
buffer_size = 100

-- How the inner loop ends: by its test, or by `exit`.
pub data Flush (T : Type 0) : Type 0 where
  flushed died : T → Flush T

module _ {T : Type 0} (out : File T) where
  -- `while((size_write = write(..., &buf[size_written], size_remaining)) < size_read)`, with fuel;
  -- `none` is a loop that still runs, or a call that does not return.
  pub flush : ℕ → List ℕ → ℕ → ℕ → ℕ → T → Option (Flush T)
  flush zero buf size_read size_written size_remaining t = none
  flush (suc fuel) buf size_read size_written size_remaining t =
      elim (out.write (take size_remaining (drop size_written buf)) t) [
        | none ↦ none
        | some (write_eintr, t') ↦ flush fuel buf size_read size_written size_remaining t'
        | some (write_error, t') ↦ some (died t')
        | some (wrote size_write, t') ↦
            let again =
              flush fuel buf size_read (add_size size_written size_write)
                (sub_size size_remaining size_write) t' in
            if ltb size_write size_read then again else some (flushed t')
      ]

module _ {S T : Type 0} (file : File S) (out : File T) where
  -- `while((size_read = read(...)) > 0)`, with the jump back to it on EINTR, with fuel for the rounds
  -- and for each inner loop.
  pub copy : ℕ → ℕ → S → T → Option (Exit × S × T)
  copy zero inner s t = none
  copy (suc fuel) inner s t = elim (file.read buffer_size s) [
    | none ↦ none
    | some (read_eintr, s') ↦ copy fuel inner s' t
    | some (read_error, s') ↦ some (failure, s', t)
    | some (got [], s') ↦ some (success, s', t)
    | some (got (b ∷ bs), s') ↦
        elim (flush out inner (b ∷ bs) (length (b ∷ bs)) 0 (length (b ∷ bs)) t) [
          | none ↦ none
          | some (died t') ↦ some (failure, s', t')
          | some (flushed t') ↦ copy fuel inner s' t'
        ]
  ]

  -- `main`, with whether a path is given and `open` succeeds.
  unfoldable pub main : Bool → Bool → ℕ → ℕ → S → T → Option (Exit × S × T)
  unfolding copy flush
  main has_path opens fuel inner s t =
      if has_path
      then (if opens then copy fuel inner s t else some (failure, s, t))
      else some (failure, s, t)
