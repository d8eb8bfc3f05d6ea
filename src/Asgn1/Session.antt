-- ===== src/Asgn1/Session.antt =====
-- asgn1/asgn1.c: the calls on the device one after another, each with what it returns.
pub mod Bytes
pub mod Data
pub mod Users
pub mod Refines
mod Tests
use petulant_wookie.Base.{
  ℕ, ◌+◌, ◌≤◌, ◌<◌, ◌^◌, ◌≡◌, List, [], ◌∷◌, Option, none, some, length, take, concat, ◌==◌, ℤ, pos,
  pos_part,
}
use petulant_wookie.Kernel.{Kernel, IsKernel, Progresses, Ret, ok}
use petulant_wookie.Asgn1.Device.{Device, IsValid, acc_mode, o_wronly, asgn1_open, asgn1_release}
use petulant_wookie.Asgn1.Read.{Reading, asgn1_read}
use petulant_wookie.Asgn1.Write.{asgn1_write}
use petulant_wookie.Asgn1.Control.{IoctlKernel, asgn1_ioctl}
use petulant_wookie.Asgn1.File.{Event, opens, releases, reads, writes, controls, File, Does}

-- What `__get_user` reads is an `int`.
abbrev pub ReadsInt : IoctlKernel → Type 0
ReadsInt k = (arg n : ℕ) → k.get_user arg ≡ some (pos n) → n < 2 ^ 31

-- One call of a handler, by a process that has the device open, or that opens it. Reads and writes
-- have a mapped buffer of less than 2^31 bytes and fuel enough, and a write ends a page below 2^32.
pub data Call (page_size : ℕ) (d : Device) : Event → Device → Type 0 where
  open_call :
      (f_flags : ℕ)
      → Call page_size d
          (opens (acc_mode f_flags == o_wronly) (asgn1_open f_flags d).0)
          (asgn1_open f_flags d).1
  release_call : 0 < pos_part d.nprocs → Call page_size d releases (asgn1_release d).1
  read_call :
      (k : Kernel) (fuel count f_pos : ℕ) (r : Reading)
      → IsKernel k
      → Progresses k
      → k.page_size ≡ page_size
      → page_size ≤ fuel
      → count < 2 ^ 31
      → asgn1_read k fuel d count f_pos ≡ some r
      → Call page_size d (reads count f_pos (ok r.size_read) r.buf r.f_pos) d
  write_call :
      (k : Kernel) (fuel f_pos f_pos' : ℕ) (buf : List ℕ) (ret : Ret) (d' : Device)
      → IsKernel k
      → Progresses k
      → k.page_size ≡ page_size
      → page_size ≤ fuel
      → f_pos + length buf ≤ fuel
      → length buf < 2 ^ 31
      → f_pos + length buf + page_size < 2 ^ 32
      → asgn1_write k fuel d buf (length buf) f_pos ≡ some (ret, d', f_pos')
      → Call page_size d (writes buf f_pos ret f_pos') d'
  ioctl_call :
      (k : IoctlKernel) (cmd arg : ℕ)
      → ReadsInt k
      → Call page_size d (controls (asgn1_ioctl k cmd arg d).0) (asgn1_ioctl k cmd arg d).1

-- Calls one after another, the last of the events first.
pub data Session (page_size : ℕ) (d : Device) : List Event → Device → Type 0 where
  loaded : Session page_size d [] d
  next :
      {e : Event} {es : List Event} {d' d'' : Device}
      → Session page_size d es d'
      → Call page_size d' e d''
      → Session page_size d (e ∷ es) d''

-- The file that the device stands for.
pub record Abstracts (page_size : ℕ) (d : Device) (s : File) : Type 0 where
  pub valid : IsValid page_size d
  pub bytes : s.bytes ≡ take d.data_size (concat d.mem_list)
  pub users : d.nprocs ≡ pos s.users
  pub limit : d.max_nprocs ≡ pos s.limit
  pub few_users : s.users < 2 ^ 31
  pub small_limit : s.limit < 2 ^ 31

-- What a call is for the file.
abbrev pub Simulates : ℕ → File → Event → Device → Type 0
Simulates page_size s e d' = (t : File) × Does s e t × Abstracts page_size d' t
