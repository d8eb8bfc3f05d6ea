-- ===== src/Posix.antt =====
-- The calls `read` and `write` that the user programs make. A value of `File` is an open file and
-- what it is connected to, with a state of its own.
use petulant_wookie.Base.{ℕ, List, Option}

-- The bytes that were read, none at the end of the file; EINTR; another error.
pub data ReadResult : Type 0 where
  got : List ℕ → ReadResult
  read_eintr read_error : ReadResult

-- The number of bytes that were written; EINTR; another error.
pub data WriteResult : Type 0 where
  wrote : ℕ → WriteResult
  write_eintr write_error : WriteResult

-- `none` is a call that does not return.
pub record File (S : Type 0) : Type 0 where
  pub read : ℕ → S → Option (ReadResult × S)
  pub write : List ℕ → S → Option (WriteResult × S)

-- How a program ends.
pub data Exit : Type 0 where
  success failure : Exit
